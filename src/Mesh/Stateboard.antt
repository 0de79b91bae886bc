-- ===== src/Mesh/Stateboard.antt =====
-- main/sensors/sensor_mqtt.c: the board of the last events, a ring of 12 cells; a note also publishes
-- the event. What a text shows of a number of milliseconds is the number.
use esp32_agent_mesh.Prelude.{
  ltb, ◌==◌, if◌then◌else◌, get_elem?, set, replicate, Bytes, codes, copy_field, or_word, EspErr,
  ok, no_mem, invalid_arg, add32, ℕ, zero, suc, ◌+◌, ◌-◌, ◌%◌, Bool, true, false, Option, none,
  some, List, [], ◌∷◌, map,
}
use esp32_agent_mesh.Prelude.Int.{pos}
use esp32_agent_mesh.Node.Profile.{NodeProfile}
use esp32_agent_mesh.Bus.Rtos.{QueueApi}
use esp32_agent_mesh.Mesh.Rows.{text, number, Row, add_unless_empty}
use esp32_agent_mesh.Mesh.Command.{mesh_id_max}
use esp32_agent_mesh.Mesh.Publishing.{PubItem, mqtt_queue_publish}

pub record StateboardItem : Type 0 where
  pub used : Bool
  pub ts_ms : ℕ
  pub event_type : Bytes
  pub status : Bytes
  pub command_id : Bytes
  pub summary : Bytes

-- `s_stateboard` and `s_stateboard_next`.
pub record Stateboard : Type 0 where
  pub cells : List StateboardItem
  pub next : ℕ

abbrev pub stateboard_depth : ℕ
stateboard_depth = 12

abbrev pub stateboard_json_size : ℕ
stateboard_json_size = 384

abbrev pub unused_item : StateboardItem
unused_item = record {
  used = false;
  ts_ms = 0;
  event_type = [];
  status = [];
  command_id = [];
  summary = [];
}

abbrev pub no_events : Stateboard
no_events = record { cells = replicate stateboard_depth unused_item; next = 0 }

-- An event as the callers give it, with null pointers.
pub record NotedEvent : Type 0 where
  pub ts_ms : ℕ
  pub event_type : Option Bytes
  pub status : Option Bytes
  pub summary : Option Bytes
  pub command_id : Option Bytes

abbrev pub item_of : NotedEvent → StateboardItem
item_of e = record {
  used = true;
  ts_ms = e.ts_ms;
  event_type = copy_field 32 (or_word (codes "event") e.event_type);
  status = copy_field 16 (or_word [] e.status);
  command_id = copy_field mesh_id_max (or_word [] e.command_id);
  summary = copy_field stateboard_json_size (or_word [] e.summary);
}

unfoldable pub write_event : StateboardItem → Stateboard → Stateboard
write_event item b = record {
  cells = set b.cells (b.next % stateboard_depth) item;
  next = add32 b.next 1;
}

abbrev pub keep_used : Option StateboardItem → List StateboardItem → List StateboardItem
keep_used none rest = rest
keep_used (some slot) rest = if slot.used then slot ∷ rest else rest

-- The cells in the order of the loop: `left` rounds from the i-th on.
unfoldable pub used_slots : List StateboardItem → ℕ → ℕ → ℕ → List StateboardItem
used_slots cells start i zero = []
used_slots cells start i (suc left) =
    keep_used (get_elem? cells ((start + i) % stateboard_depth))
      (used_slots cells start (i + 1) left)

-- The object of each item is taken to find memory: the source leaves out an item without one.
unfoldable pub shown_items : Stateboard → List StateboardItem
unfolding used_slots
shown_items b =
    let count = if ltb b.next stateboard_depth then b.next else stateboard_depth in
    let start = if ltb count b.next then b.next - count else 0 in used_slots b.cells start 0 count

module _ {J : Type 0} where
  unfoldable pub update_row : NodeProfile → StateboardItem → Row J
  update_row me slot =
      (codes "schema", text (codes "espagent.stateboard.v1"))
      ∷ (codes "event", text (codes "stateboard_update"))
      ∷ (codes "node_id", text me.id)
      ∷ (codes "role", text me.role)
      ∷ (codes "last_event", text slot.event_type)
      ∷ (codes "last_status", text slot.status)
      ∷ add_unless_empty (codes "command_id") slot.command_id
          ((codes "summary", text slot.summary) ∷ (codes "ts_ms", number (pos slot.ts_ms)) ∷ [])

  unfoldable pub item_row : StateboardItem → Row J
  item_row slot =
      (codes "event", text slot.event_type)
      ∷ (codes "status", text slot.status)
      ∷ add_unless_empty (codes "command_id") slot.command_id
          ((codes "summary", text slot.summary) ∷ (codes "ts_ms", number (pos slot.ts_ms)) ∷ [])

  -- `print_board` prints the object with the items under "items".
  unfoldable pub sensor_mqtt_stateboard_json :
      (Row J → List (Row J) → Option Bytes) → NodeProfile → ℕ → Stateboard → EspErr × Bytes
  unfolding shown_items item_row
  sensor_mqtt_stateboard_json print_board me buf_size b =
      if buf_size == 0
      then (invalid_arg, [])
      else elim (print_board
          ((codes "schema", text (codes "espagent.stateboard.v1"))
            ∷ (codes "node_id", text me.id)
            ∷ (codes "role", text me.role)
            ∷ [])
          (map item_row (shown_items b))) [
            | none ↦ (no_mem, [])
            | some json ↦ (ok, copy_field buf_size json)
          ]

-- What the publishing functions stand on: the queue's functions, the broker's name, what
-- `xQueueCreate` returns, what cJSON prints and the node.
pub record Outlet (J : Type 0) : Type 1 where
  pub api : QueueApi PubItem
  pub broker : Bytes
  pub created : Option api.Queue
  pub print_row : Row J → Option Bytes
  pub me : NodeProfile

module _ {J : Type 0} (o : Outlet J) where
  abbrev pub publish_text : Bytes → Bytes → Option o.api.Queue → EspErr × Option o.api.Queue
  publish_text topic payload queue = mqtt_queue_publish o.api o.broker o.created topic payload queue

  unfoldable pub publish_printed : Bytes → Option Bytes → Option o.api.Queue → Option o.api.Queue
  publish_printed topic none queue = queue
  publish_printed topic (some json) queue = (publish_text topic json queue).1

  -- `topic` is ESPAGENT_MESH_TOPIC_GUARDIAN_STATEBOARD.
  unfoldable pub stateboard_note_event :
      Bytes → NotedEvent → Stateboard × Option o.api.Queue → Stateboard × Option o.api.Queue
  unfolding write_event publish_printed update_row
  stateboard_note_event topic e (b, queue) = (
    write_event (item_of e) b,
    publish_printed topic (o.print_row (update_row o.me (item_of e))) queue,
  )
