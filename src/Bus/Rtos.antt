-- ===== src/Bus/Rtos.antt =====
-- The FreeRTOS queues that main/bus/message_bus.c stands on, as their documentation has them, seen by
-- one task between two of whose calls no other task acts: a send appends the item unless the queue
-- is full, a receive takes the oldest item unless the queue is empty.
use esp32_agent_mesh.Prelude.{
  length, ℕ, ◌≤◌, ◌<◌, ◌≡◌, Bool, true, false, Option, none, some, List, [], ◌∷◌, ◌++◌,
}

pub record QueueApi (A : Type 0) : Type 1 where
  pub Queue : Type 0
  -- Oldest first.
  pub contents : Queue → List A
  pub depth : Queue → ℕ
  -- `xQueueSend(queue, &item, ticks) == pdTRUE`, and the queue.
  pub send : Queue → A → ℕ → Bool × Queue
  -- `xQueueReceive(queue, &item, ticks)`: the item, unless it returns `pdFALSE`.
  pub receive : Queue → ℕ → Option A × Queue
  pub depth-send : (q : Queue) (a : A) (t : ℕ) → depth (send q a t).1 ≡ depth q
  pub depth-receive : (q : Queue) (t : ℕ) → depth (receive q t).1 ≡ depth q
  pub send_room :
      (q : Queue) (a : A) (t : ℕ)
      → length (contents q) < depth q
      → ((send q a t).0 ≡ true) × (contents (send q a t).1 ≡ contents q ++ a ∷ [])
  pub send_full :
      (q : Queue) (a : A) (t : ℕ)
      → depth q ≤ length (contents q)
      → ((send q a t).0 ≡ false) × (contents (send q a t).1 ≡ contents q)
  pub receive_none :
      (q : Queue) (t : ℕ)
      → contents q ≡ []
      → ((receive q t).0 ≡ none) × (contents (receive q t).1 ≡ [])
  pub receive_some :
      (q : Queue) (t : ℕ) (a : A) (rest : List A)
      → contents q ≡ a ∷ rest
      → ((receive q t).0 ≡ some a) × (contents (receive q t).1 ≡ rest)
