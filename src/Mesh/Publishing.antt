-- ===== src/Mesh/Publishing.antt =====
-- main/sensors/sensor_mqtt.c: the queue of texts to publish, that any task fills and the MQTT task
-- empties.
-- `mqtt_pub_item_t`
use esp32_agent_mesh.Prelude.{
  if◌then◌else◌, Bytes, copy_field, is_empty, EspErr, ok, no_mem, invalid_arg, invalid_state, ℕ,
  zero, suc, Bool, ◌||◌, Option, none, some, List, [], ◌∷◌,
}
use esp32_agent_mesh.Bus.Rtos.{QueueApi}
use esp32_agent_mesh.Mqtt.Packets.{mqtt_publish}

pub record PubItem : Type 0 where
  pub topic : Bytes
  pub payload : Bytes

abbrev pub pub_topic_size : ℕ
pub_topic_size = 160

abbrev pub pub_payload_size : ℕ
pub_payload_size = 768

abbrev pub pub_queue_depth : ℕ
pub_queue_depth = 8

abbrev pub pub_item : Bytes → Bytes → PubItem
pub_item topic payload = record {
  topic = copy_field pub_topic_size topic;
  payload = copy_field pub_payload_size payload;
}

module _ (api : QueueApi PubItem) where
  open api use {Queue, send, receive}

  -- `s_pub_queue`, or what `xQueueCreate` returns where it is not there.
  abbrev pub made_queue : Option Queue → Option Queue → Option Queue
  made_queue none created = created
  made_queue (some q) created = some q

  unfoldable pub send_item : PubItem → Option Queue → EspErr × Option Queue
  send_item item none = (no_mem, none)
  send_item item (some q) = let (sent, q') = send q item 0 in (if sent then ok else no_mem, some q')

  -- `broker` is ESPAGENT_SENSOR_MQTT_BROKER.
  unfoldable pub mqtt_queue_publish :
      Bytes → Option Queue → Bytes → Bytes → Option Queue → EspErr × Option Queue
  unfolding send_item
  mqtt_queue_publish broker created topic payload queue =
      if is_empty topic || is_empty payload
      then (invalid_arg, queue)
      else if is_empty broker
      then (invalid_state, queue)
      else send_item (pub_item topic payload) (made_queue queue created)

  -- The loop, on fuel: for each item the status of `mqtt_publish` and the bytes that the connection
  -- took, and what is left in the queue. `sends` gives, for the n-th item, what the calls of `send`
  -- return. The loop does not end when a publish fails; the item is gone.
  unfoldable pub flush_items : ℕ → (ℕ → List ℕ) → Queue → List (Bool × Bytes) × Queue
  unfolding mqtt_publish
  flush_items zero sends q = ([], q)
  flush_items (suc fuel) sends q =
      let (got, q') = receive q 0 in
      let (written, left) = flush_items fuel (λ n. sends (suc n)) q' in
      elim got [
        | none ↦ ([], q')
        | some item ↦ (mqtt_publish (sends 0) item.topic item.payload ∷ written, left)
      ]

  unfoldable pub mqtt_flush_queued_publishes :
      ℕ → (ℕ → List ℕ) → Option Queue → List (Bool × Bytes) × Option Queue
  unfolding flush_items
  mqtt_flush_queued_publishes fuel sends none = ([], none)
  mqtt_flush_queued_publishes fuel sends (some q) =
      let (written, left) = flush_items fuel sends q in (written, some left)
