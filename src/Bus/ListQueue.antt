-- ===== src/Bus/ListQueue.antt =====
-- A list of at most a number of items as a queue of the SDK, for the tests.
use esp32_agent_mesh.Prelude.{
  ltb, if◌then◌else◌, length, ℕ, ◌≤◌, ◌<◌, ◌≡◌, refl, Bool, true, false, Option, none, some, List,
  [], ◌∷◌, ◌++◌, arith,
}
use esp32_agent_mesh.Bus.Rtos.{QueueApi}

module _ {A : Type 0} (room : ℕ) where
  unfoldable pub list_send : List A → A → ℕ → Bool × List A
  list_send q m t = if ltb (length q) room then (true, q ++ m ∷ []) else (false, q)

  unfoldable pub list_receive : List A → ℕ → Option A × List A
  list_receive [] t = (none, [])
  list_receive (m ∷ q) t = (some m, q)

  pub list_send_room :
      (q : List A) (a : A) (t : ℕ)
      → length q < room
      → ((list_send q a t).0 ≡ true) × ((list_send q a t).1 ≡ q ++ a ∷ [])
  unfolding list_send
  list_send_room q a t h = ground (arith, h)

  pub list_send_full :
      (q : List A) (a : A) (t : ℕ)
      → room ≤ length q
      → ((list_send q a t).0 ≡ false) × ((list_send q a t).1 ≡ q)
  unfolding list_send
  list_send_full q a t h = ground (arith, h)

  pub list_receive-none :
      (q : List A) (t : ℕ) → q ≡ [] → ((list_receive q t).0 ≡ none) × ((list_receive q t).1 ≡ [])
  unfolding list_receive
  list_receive-none q t e = rw e (refl, refl)

  pub list_receive-some :
      (q : List A) (t : ℕ) (a : A) (rest : List A)
      → q ≡ a ∷ rest
      → ((list_receive q t).0 ≡ some a) × ((list_receive q t).1 ≡ rest)
  unfolding list_receive
  list_receive-some q t a rest e = rw e (refl, refl)

  abbrev pub list_queue : QueueApi A
  list_queue = record {
    Queue = List A;
    contents = λ q. q;
    depth = λ q. room;
    send = list_send;
    receive = list_receive;
    depth-send = λ q a t. refl;
    depth-receive = λ q t. refl;
    send_room = list_send_room;
    send_full = list_send_full;
    receive_none = list_receive-none;
    receive_some = list_receive-some;
  }
