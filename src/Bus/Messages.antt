-- ===== src/Bus/Messages.antt =====
-- main/bus/message_bus.c and message_bus.h.
use esp32_agent_mesh.Prelude.{
  ◌==◌, if◌then◌else◌, Bytes, codes, EspErr, ok, no_mem, timeout, ℕ, Option, none, some,
}
use esp32_agent_mesh.Bus.Rtos.{QueueApi}

-- `espagent_msg_t`
pub record Msg : Type 0 where
  pub channel : Bytes
  pub chat_id : Bytes
  pub flags : ℕ
  pub content : Bytes

abbrev pub bus_queue_len : ℕ
bus_queue_len = 16

abbrev pub chan_system : Bytes
chan_system = codes "system"

abbrev pub uint32_max : ℕ
uint32_max = 4294967295

-- `portMAX_DELAY` and `pdMS_TO_TICKS` come from the SDK's configuration.
pub record Ticks : Type 0 where
  pub forever : ℕ
  pub of_ms : ℕ → ℕ

abbrev pub wait : Ticks → ℕ → ℕ
wait ticks timeout_ms = if timeout_ms == uint32_max then ticks.forever else ticks.of_ms timeout_ms

abbrev pub received : Option Msg → EspErr
received none = timeout
received (some m) = ok

module _ (api : QueueApi Msg) (ticks : Ticks) where
  open api use {Queue, send, receive}

  -- The two queue handles, once `message_bus_init` has succeeded.
  pub record Bus : Type 0 where
    pub inbound : Queue
    pub outbound : Queue

  -- On the two handles that `xQueueCreate` returned.
  unfoldable pub message_bus_init : Option Queue → Option Queue → EspErr × Option Bus
  message_bus_init (some i) (some o) = (ok, some (record { inbound = i; outbound = o }))
  message_bus_init _ _ = (no_mem, none)

  unfoldable pub push_inbound : Msg → Bus → EspErr × Bus
  push_inbound msg b =
      let (sent, q) = send b.inbound msg (ticks.of_ms 1000) in
      (if sent then ok else no_mem, record b { inbound = q })

  unfoldable pub push_outbound : Msg → Bus → EspErr × Bus
  push_outbound msg b =
      let (sent, q) = send b.outbound msg (ticks.of_ms 1000) in
      (if sent then ok else no_mem, record b { outbound = q })

  unfoldable pub pop_inbound : ℕ → Bus → EspErr × Option Msg × Bus
  pop_inbound timeout_ms b =
      let (m, q) = receive b.inbound (wait ticks timeout_ms) in
      (received m, m, record b { inbound = q })

  unfoldable pub pop_outbound : ℕ → Bus → EspErr × Option Msg × Bus
  pop_outbound timeout_ms b =
      let (m, q) = receive b.outbound (wait ticks timeout_ms) in
      (received m, m, record b { outbound = q })
