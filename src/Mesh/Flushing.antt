-- ===== src/Mesh/Flushing.antt =====
-- main/sensors/sensor_mqtt.c: what is queued for publishing is sent by the next flush, in order.
use esp32_agent_mesh.Prelude.{
  length, All, length-append, length-map, Bytes, copy_field, is_empty, copy_field_fits, EspErr, ok,
  ℕ, zero, suc, ◌+◌, ◌≤◌, ◌<◌, ◌≡◌, refl, sym, ap, ◌∙◌, Bool, true, false, Option, some, List, [],
  ◌∷◌, ◌++◌, map, append_assoc, append-nil, arith,
}
use esp32_agent_mesh.Bus.Rtos.{QueueApi}
use esp32_agent_mesh.Mqtt.Packets.{publish_packet}
use esp32_agent_mesh.Mqtt.Stream.{sent_bytes, wire, polls, IsSendable, mqtt_polls-published}
use esp32_agent_mesh.Mesh.Publishing.{
  PubItem, pub_topic_size, pub_payload_size, pub_item, send_item, mqtt_queue_publish, flush_items,
  mqtt_flush_queued_publishes,
}
use esp32_agent_mesh.Mqtt.Written.{TakesAll, mqtt_publish-taken}

abbrev fields : PubItem → Bytes × Bytes
fields item = (item.topic, item.payload)

abbrev packet_of : PubItem → Option Bytes
packet_of item = publish_packet item.topic item.payload

-- The bytes that the connection took.
abbrev pub stream : List (Bool × Bytes) → Bytes
stream [] = []
stream ((written, bytes) ∷ rs) = bytes ++ stream rs

abbrev sent_of : PubItem → Bool × Bytes
sent_of item = (true, sent_bytes (packet_of item))

stream-wire : (items : List PubItem) → stream (map sent_of items) ≡ wire (map fields items)
stream-wire [] = refl
stream-wire (item ∷ items) = ap (◌++◌ (sent_bytes (packet_of item))) (stream-wire items)

abbrev IsShort : PubItem → Type 0
IsShort item = length item.topic + length item.payload ≤ 1017

-- A message that is neither empty nor without a topic.
abbrev pub IsPublishable : Bytes × Bytes → Type 0
IsPublishable m = (is_empty m.0 ≡ false) × (is_empty m.1 ≡ false)

-- What arrives of it.
abbrev pub kept_text : Bytes × Bytes → Bytes × Bytes
kept_text m = (copy_field pub_topic_size m.0, copy_field pub_payload_size m.1)

abbrev queued_item : Bytes × Bytes → PubItem
queued_item m = pub_item m.0 m.1

kept_text-IsSendable : (m : Bytes × Bytes) → IsPublishable m → IsSendable (kept_text m)
kept_text-IsSendable (topic, []) (t, p) = absurd (cc p)
kept_text-IsSendable (topic, b ∷ bs) (t, p) = (
  λ e. absurd (cc e),
  omega (
    arith,
    copy_field_fits pub_topic_size topic (omega arith),
    copy_field_fits pub_payload_size (b ∷ bs) (omega arith),
  ),
)

All-IsSendable :
    (ms : List (Bytes × Bytes)) → All IsPublishable ms → All IsSendable (map kept_text ms)
All-IsSendable [] a = tt
All-IsSendable (m ∷ ms) (p, a) = (kept_text-IsSendable m p, All-IsSendable ms a)

queued-IsShort : (ms : List (Bytes × Bytes)) → All IsShort (map queued_item ms)
queued-IsShort [] = tt
queued-IsShort ((topic, payload) ∷ ms) = (
  omega (
    arith,
    copy_field_fits pub_topic_size topic (omega arith),
    copy_field_fits pub_payload_size payload (omega arith),
  ),
  queued-IsShort ms,
)

fields_kept : (ms : List (Bytes × Bytes)) → map fields (map queued_item ms) ≡ map kept_text ms
fields_kept [] = refl
fields_kept (m ∷ ms) = ap (◌∷◌ (kept_text m)) (fields_kept ms)

all_went :
    (ms : List (Bytes × Bytes))
    → map (λ (r : Bool × Bytes). r.0) (map sent_of (map queued_item ms)) ≡ map (λ m. true) ms
all_went [] = refl
all_went (m ∷ ms) = ap (◌∷◌ true) (all_went ms)

module _ (api : QueueApi PubItem) where
  open api use {Queue, contents, depth, send_room, receive_none, receive_some, depth-send}

  flush_items-contents :
      (items : List PubItem) (fuel : ℕ) (sends : ℕ → List ℕ) (q : Queue)
      → TakesAll sends
      → All IsShort items
      → contents q ≡ items
      → length items < fuel
      → ((flush_items api fuel sends q).0 ≡ map sent_of items)
        × (contents (flush_items api fuel sends q).1 ≡ [])
  unfolding flush_items
  flush_items-contents items zero sends q takes short e h = absurd (omega arith)
  flush_items-contents [] (suc fuel) sends q takes short e h =
      let (got, left) = receive_none q 0 e in (rw (flush_items, got), rw (flush_items, got) left)
  flush_items-contents (item ∷ items) (suc fuel) sends q takes (s, short) e h =
      let (got, left) = receive_some q 0 item items e in
      let went = mqtt_publish-taken sends 0 item.topic item.payload takes s in
      let (written, end) =
        flush_items-contents items fuel (λ n. sends (suc n)) (api.receive q 0).1
          (λ n. takes (suc n)) short left (omega arith) in
      (rw (flush_items, got, went) (ap (◌∷◌ (sent_of item)) written), rw (flush_items, got) end)

  -- A task that publishes the texts of a list one after the other.
  abbrev pub queue_all :
      Bytes → Option Queue → List (Bytes × Bytes) → Option Queue → List EspErr × Option Queue
  queue_all broker created [] queue = ([], queue)
  queue_all broker created (m ∷ ms) queue =
      let (err, queue₁) = mqtt_queue_publish api broker created m.0 m.1 queue in
      let (errs, queue₂) = queue_all broker created ms queue₁ in (err ∷ errs, queue₂)

  -- The queue after publishing succeeded.
  record Queued (ms : List (Bytes × Bytes)) (items : List PubItem) (r : List EspErr × Option Queue)
      : Type 0 where
    queue : Queue
    there : r.1 ≡ some queue
    all_ok : r.0 ≡ map (λ m. ok) ms
    held : contents queue ≡ items ++ map queued_item ms

  mqtt_queue_publish-room :
      (broker : Bytes) (created : Option Queue) (m : Bytes × Bytes) (q : Queue)
      → is_empty broker ≡ false
      → IsPublishable m
      → length (contents q) < depth q
      → (mqtt_queue_publish api broker created m.0 m.1 (some q)
          ≡ (ok, some (api.send q (queued_item m) 0).1))
        × (contents (api.send q (queued_item m) 0).1 ≡ contents q ++ queued_item m ∷ [])
  unfolding mqtt_queue_publish send_item
  mqtt_queue_publish-room broker created m q b (t, p) h =
      let (sent, now) = send_room q (queued_item m) 0 h in (rw (t, p, b, sent), now)

  queue_all-Queued :
      (broker : Bytes) (created : Option Queue) (ms : List (Bytes × Bytes)) (q : Queue)
      (items : List PubItem)
      → is_empty broker ≡ false
      → All IsPublishable ms
      → contents q ≡ items
      → length items + length ms ≤ depth q
      → Queued ms items (queue_all broker created ms (some q))
  queue_all-Queued broker created [] q items b a e h = record {
    queue = q;
    there = refl;
    all_ok = refl;
    held = e ∙ sym (append-nil items);
  }
  queue_all-Queued broker created (m ∷ ms) q items b (p, a) e h =
      let (err, now) =
        mqtt_queue_publish-room broker created m q b p (omega (arith, ap length e)) in
      let q₁ = (api.send q (queued_item m) 0).1 in
      let items₁ = items ++ queued_item m ∷ [] in
      let held₁ : contents q₁ ≡ items₁ = now ∙ ap (λ xs. xs ++ queued_item m ∷ []) e in
      let room : length items₁ + length ms ≤ depth q₁ =
        omega (arith, length-append items (queued_item m ∷ []), depth-send q (queued_item m) 0) in
      let rest = queue_all-Queued broker created ms q₁ items₁ b a held₁ room in
      record {
        queue = rest.queue;
        there = rw err rest.there;
        all_ok = rw err (ap (◌∷◌ ok) rest.all_ok);
        held = rest.held ∙ append_assoc items (queued_item m ∷ []) (map queued_item ms);
      }

  -- Where a broker is set, the texts that a task publishes one after the other, none of them empty
  -- or without a topic, on an empty queue that has room for them all, are accepted; a flush with
  -- more rounds than the queue is deep, over a connection that takes every packet that fits the
  -- buffer, sends all of them, with success, none refused for its size; and as many polls of the
  -- socket as there are texts read them in that order, each topic cut to 159 bytes and each text
  -- to 767. The queue is empty then.
  pub queue_all_arrives :
      (broker : Bytes) (created : Option Queue) (ms : List (Bytes × Bytes)) (q : Queue) (fuel : ℕ)
      (sends : ℕ → List ℕ)
      → is_empty broker ≡ false
      → All IsPublishable ms
      → contents q ≡ []
      → length ms ≤ depth q
      → depth q < fuel
      → TakesAll sends
      → let (errs, queue) = queue_all broker created ms (some q) in
        let (written, left) = mqtt_flush_queued_publishes api fuel sends queue in
        (errs ≡ map (λ m. ok) ms)
        × (map (λ r. r.0) written ≡ map (λ m. true) ms)
        × ((q' : Queue) × (left ≡ some q') × (contents q' ≡ []))
        × (polls (length ms) (stream written) ≡ (map some (map kept_text ms), []))
  unfolding mqtt_flush_queued_publishes
  queue_all_arrives broker created ms q fuel sends b a e h f takes =
      let r = queue_all-Queued broker created ms q [] b a e (omega (arith, h)) in
      let many = length-map ms queued_item in
      let (written, end) =
        flush_items-contents (map queued_item ms) fuel sends r.queue takes (queued-IsShort ms)
          r.held (omega (arith, many, f)) in
      let bytes = ap stream written ∙ stream-wire (map queued_item ms) ∙ ap wire (fields_kept ms) in
      (
        r.all_ok,
        rw r.there (ap (map (λ w. w.0)) written ∙ all_went ms),
        (_, rw r.there refl, end),
        rw (r.there, bytes)
            (ap (λ n. polls n (wire (map kept_text ms))) (sym (length-map ms kept_text))
              ∙ mqtt_polls-published (map kept_text ms) (All-IsSendable ms a)),
      )
