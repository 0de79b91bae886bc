-- ===== src/Bus/Delivery.antt =====
-- main/bus/message_bus.c: the bus behaves as two FIFO lists of at most 16 messages.
use esp32_agent_mesh.Prelude.{
  ltb, if◌then◌else◌, Bool-cases, length, EspErr, ok, no_mem, timeout, ℕ, ◌≡◌, refl, ◌∙◌, ◌⊎◌, inl,
  inr, true, false, Option, none, some, List, [], ◌∷◌, ◌++◌, arith,
}
use esp32_agent_mesh.Bus.Rtos.{QueueApi}
use esp32_agent_mesh.Bus.Messages.{
  Msg, bus_queue_len, Ticks, wait, received, Bus, push_inbound, push_outbound, pop_inbound,
  pop_outbound,
}

pub data BusCall : Type 0 where
  push_in push_out : Msg → BusCall
  pop_in pop_out : ℕ → BusCall

abbrev pub Reply : Type 0
Reply = EspErr × Option Msg

-- The specification: the messages of each direction, oldest first.
pub record Lanes : Type 0 where
  pub inbound : List Msg
  pub outbound : List Msg

abbrev pub enqueue : Msg → List Msg → EspErr × List Msg
enqueue m ms = if ltb (length ms) bus_queue_len then (ok, ms ++ m ∷ []) else (no_mem, ms)

abbrev pub dequeue : List Msg → Reply × List Msg
dequeue [] = ((timeout, none), [])
dequeue (m ∷ ms) = ((ok, some m), ms)

unfoldable pub lanes_step : BusCall → Lanes → Reply × Lanes
lanes_step (push_in m) l =
    let (e, ms) = enqueue m l.inbound in ((e, none), record l { inbound = ms })
lanes_step (push_out m) l =
    let (e, ms) = enqueue m l.outbound in ((e, none), record l { outbound = ms })
lanes_step (pop_in t) l = let (r, ms) = dequeue l.inbound in (r, record l { inbound = ms })
lanes_step (pop_out t) l = let (r, ms) = dequeue l.outbound in (r, record l { outbound = ms })

unfoldable pub lanes_run : List BusCall → Lanes → List Reply
lanes_run [] l = []
lanes_run (c ∷ cs) l = let (r, l') = lanes_step c l in r ∷ lanes_run cs l'

module _ (api : QueueApi Msg) (ticks : Ticks) where
  open api use {Queue, contents, depth, send, receive, depth-send, depth-receive}
  open api use {send_room, send_full, receive_none, receive_some}

  unfoldable pub bus_step : BusCall → Bus api ticks → Reply × Bus api ticks
  bus_step (push_in m) b = let (e, b') = push_inbound api ticks m b in ((e, none), b')
  bus_step (push_out m) b = let (e, b') = push_outbound api ticks m b in ((e, none), b')
  bus_step (pop_in t) b = let (e, m, b') = pop_inbound api ticks t b in ((e, m), b')
  bus_step (pop_out t) b = let (e, m, b') = pop_outbound api ticks t b in ((e, m), b')

  unfoldable pub bus_run : List BusCall → Bus api ticks → List Reply
  bus_run [] b = []
  bus_run (c ∷ cs) b = let (r, b') = bus_step c b in r ∷ bus_run cs b'

  abbrev pub lanes : Bus api ticks → Lanes
  lanes b = record { inbound = contents b.inbound; outbound = contents b.outbound }

  -- The queues have the depth that `message_bus_init` asks for.
  pub record IsReady (b : Bus api ticks) : Type 0 where
    pub deep_in : depth b.inbound ≡ bus_queue_len
    pub deep_out : depth b.outbound ≡ bus_queue_len

  send_lem :
      (q : Queue) (m : Msg) (t : ℕ)
      → depth q ≡ bus_queue_len
      → (((send q m t).0 ≡ true) × (enqueue m (contents q) ≡ (ok, contents (send q m t).1)))
        ⊎ (((send q m t).0 ≡ false) × (enqueue m (contents q) ≡ (no_mem, contents (send q m t).1)))
  send_lem q m t d = elim (Bool-cases (ltb (length (contents q)) bus_queue_len)) [
    | inl room ↦
        let (sent, now) = send_room q m t (ground (arith, room, d)) in inl (sent, rw (room, now))
    | inr full ↦
        let (sent, now) = send_full q m t (ground (arith, full, d)) in inr (sent, rw (full, now))
  ]

  receive_lem :
      (q : Queue) (t : ℕ) (ms : List Msg)
      → contents q ≡ ms
      → dequeue ms ≡ ((received (receive q t).0, (receive q t).0), contents (receive q t).1)
  receive_lem q t [] e = let (got, left) = receive_none q t e in rw (got, left)
  receive_lem q t (m ∷ ms) e = let (got, left) = receive_some q t m ms e in rw (got, left)

  step_refines :
      (c : BusCall) (b : Bus api ticks)
      → IsReady b
      → (lanes_step c (lanes b) ≡ ((bus_step c b).0, lanes (bus_step c b).1))
        × IsReady (bus_step c b).1
  unfolding lanes_step bus_step push_inbound push_outbound pop_inbound pop_outbound
  step_refines (push_in m) b r = elim (send_lem b.inbound m (ticks.of_ms 1000) r.deep_in) [
    | inl (sent, e) ↦ (
      rw (e, sent),
      record {
        deep_in = depth-send b.inbound m (ticks.of_ms 1000) ∙ r.deep_in;
        deep_out = r.deep_out;
      },
    )
    | inr (sent, e) ↦ (
      rw (e, sent),
      record {
        deep_in = depth-send b.inbound m (ticks.of_ms 1000) ∙ r.deep_in;
        deep_out = r.deep_out;
      },
    )
  ]
  step_refines (push_out m) b r = elim (send_lem b.outbound m (ticks.of_ms 1000) r.deep_out) [
    | inl (sent, e) ↦ (
      rw (e, sent),
      record {
        deep_in = r.deep_in;
        deep_out = depth-send b.outbound m (ticks.of_ms 1000) ∙ r.deep_out;
      },
    )
    | inr (sent, e) ↦ (
      rw (e, sent),
      record {
        deep_in = r.deep_in;
        deep_out = depth-send b.outbound m (ticks.of_ms 1000) ∙ r.deep_out;
      },
    )
  ]
  step_refines (pop_in t) b r = (
    rw (receive_lem b.inbound (wait ticks t) (contents b.inbound) refl),
    record { deep_in = depth-receive b.inbound (wait ticks t) ∙ r.deep_in; deep_out = r.deep_out },
  )
  step_refines (pop_out t) b r = (
    rw (receive_lem b.outbound (wait ticks t) (contents b.outbound) refl),
    record { deep_in = r.deep_in; deep_out = depth-receive b.outbound (wait ticks t) ∙ r.deep_out },
  )

  -- On two queues of the depth that `message_bus_init` asks for, no sequence of pushes and pops
  -- tells the bus from two lists, oldest message first, of at most 16 messages: a push on a full
  -- lane fails with ESP_ERR_NO_MEM and drops the message, a pop on an empty one times out, and
  -- neither direction touches the other.
  pub bus_run_refines :
      (cs : List BusCall) (b : Bus api ticks) → IsReady b → bus_run cs b ≡ lanes_run cs (lanes b)
  unfolding bus_run lanes_run
  bus_run_refines [] b r = refl
  bus_run_refines (c ∷ cs) b r =
      let (e, r') = step_refines c b r in rw (e, bus_run_refines cs (bus_step c b).1 r')
