-- ===== src/Mesh/PublishingTests.antt =====
-- Publishing, at concrete messages on a list as the queue.
use esp32_agent_mesh.Prelude.{
  length, drop, Bytes, codes, ok, ℕ, zero, suc, ◌≤◌, ◌≡◌, refl, true, none, some, List, [], ◌∷◌,
  map, arith,
}
use esp32_agent_mesh.Bus.ListQueue.{list_queue}
use esp32_agent_mesh.Mqtt.Stream.{polls}
use esp32_agent_mesh.Mqtt.Packets.{mqtt_buf_size, write_all}
use esp32_agent_mesh.Mesh.Publishing.{PubItem, mqtt_flush_queued_publishes}
use esp32_agent_mesh.Mesh.Flushing.{stream, queue_all, queue_all_arrives}
use esp32_agent_mesh.Mesh.Stateboard.{no_events, NotedEvent, item_of, shown_items}
use esp32_agent_mesh.Mesh.Board.{note_events, shown_items-last}
use esp32_agent_mesh.Mqtt.Written.{TakesAll}

abbrev hot : Bytes × Bytes
hot = (codes "alerts", codes "hot")

abbrev calm : Bytes × Bytes
calm = (codes "state", codes "calm")

abbrev whole_packets : ℕ → List ℕ
whole_packets n = mqtt_buf_size ∷ []

drop_all : (n : ℕ) (xs : Bytes) → length xs ≤ n → drop n xs ≡ []
drop_all zero [] h = refl
drop_all zero (x ∷ xs) h = absurd (omega arith)
drop_all (suc n) [] h = refl
drop_all (suc n) (x ∷ xs) h = drop_all n xs (omega arith)

whole_packets-TakesAll : TakesAll whole_packets
unfolding write_all
whole_packets-TakesAll n [] h = refl
whole_packets-TakesAll n (b ∷ bs) h = rw (drop_all mqtt_buf_size (b ∷ bs) h)

queue_all_arrives_example :
    let (errs, queue) = queue_all (list_queue 8) (codes "b") none (hot ∷ calm ∷ []) (some []) in
    let (written, left) = mqtt_flush_queued_publishes (list_queue 8) 9 whole_packets queue in
    (errs ≡ ok ∷ ok ∷ [])
    × (map (λ r. r.0) written ≡ true ∷ true ∷ [])
    × ((q : List PubItem) × (left ≡ some q) × (q ≡ []))
    × (polls 2 (stream written) ≡ (some hot ∷ some calm ∷ [], []))
queue_all_arrives_example =
    queue_all_arrives (list_queue 8) (codes "b") none (hot ∷ calm ∷ []) [] 9 whole_packets refl
      ((refl, refl), ((refl, refl), tt)) refl (omega arith) (omega arith) whole_packets-TakesAll

abbrev event : ℕ → NotedEvent
event ts_ms = record {
  ts_ms = ts_ms;
  event_type = none;
  status = some (codes "ok");
  summary = none;
  command_id = none;
}

abbrev fourteen : List NotedEvent
fourteen =
    event 1
    ∷ event 2
    ∷ event 3
    ∷ event 4
    ∷ event 5
    ∷ event 6
    ∷ event 7
    ∷ event 8
    ∷ event 9
    ∷ event 10
    ∷ event 11
    ∷ event 12
    ∷ event 13
    ∷ event 14
    ∷ []

shown_items-last_example :
    shown_items (note_events fourteen no_events) ≡ drop 2 (map item_of fourteen)
shown_items-last_example = shown_items-last fourteen (omega arith)
