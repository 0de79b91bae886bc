-- ===== src/Mesh/Decisions.antt =====
-- main/sensors/sensor_mqtt.c: the cache of Guardian decisions, a ring of 8 cells that the newest
-- decision overwrites and that is searched from its first cell on.
use esp32_agent_mesh.Prelude.{
  ◌==◌, if◌then◌else◌, set, replicate, find?, Bytes, codes, str_eq, copy_field, is_empty, EspErr,
  ok, no_mem, invalid_arg, timeout, add32, ℕ, ◌%◌, Bool, true, false, not, ◌&&◌, ◌||◌, Option, none,
  some, List, [], ◌∷◌,
}
use esp32_agent_mesh.Mesh.Json.{JsonApi, parse_object, json_string}
use esp32_agent_mesh.Mesh.Command.{mesh_id_max}

pub record CachedDecision : Type 0 where
  pub used : Bool
  pub ts_ms : ℕ
  pub command_id : Bytes
  pub decision_json : Bytes

-- `s_policy_cache` and `s_policy_cache_next`.
pub record PolicyCache : Type 0 where
  pub cells : List CachedDecision
  pub next : ℕ

abbrev pub policy_cache_depth : ℕ
policy_cache_depth = 8

abbrev pub policy_json_size : ℕ
policy_json_size = 512

abbrev pub no_decisions : PolicyCache
no_decisions = record {
  cells =
      replicate policy_cache_depth
        (record { used = false; ts_ms = 0; command_id = []; decision_json = [] });
  next = 0;
}

abbrev pub is_decision_on : Bytes → CachedDecision → Bool
is_decision_on command_id item = item.used && str_eq item.command_id command_id

abbrev pub cached : ℕ → Bytes → Bytes → CachedDecision
cached ts_ms command_id json = record {
  used = true;
  ts_ms = ts_ms;
  command_id = copy_field mesh_id_max command_id;
  decision_json = copy_field policy_json_size json;
}

-- The write while the mutex is held.
unfoldable pub note_decision : ℕ → Bytes → Bytes → PolicyCache → PolicyCache
note_decision ts_ms command_id json c = record c {
  cells = set c.cells (c.next % policy_cache_depth) (cached ts_ms command_id json);
  next = add32 c.next 1;
}

-- The scan of one poll of `sensor_mqtt_wait_policy_decision`.
unfoldable pub decision_on : Bytes → PolicyCache → Option CachedDecision
decision_on command_id c = find? (is_decision_on command_id) c.cells

-- Its loop. `polls` is the cache as it is each time that the mutex is taken before the deadline.
unfoldable pub wait_polls : Bytes → ℕ → List PolicyCache → EspErr × Bytes
wait_polls command_id size [] = (timeout, [])
wait_polls command_id size (c ∷ polls) =
    let rest = wait_polls command_id size polls in
    elim (decision_on command_id c) [
      | none ↦ rest
      | some item ↦ (ok, copy_field size item.decision_json)
    ]

-- `made` says whether the mutex is there or can be created.
unfoldable pub wait_policy_decision : Bool → Bytes → ℕ → List PolicyCache → EspErr × Bytes
unfolding wait_polls
wait_policy_decision made command_id size polls =
    if is_empty command_id || size == 0
    then (invalid_arg, [])
    else if not made
    then (no_mem, [])
    else wait_polls command_id size polls

module _ (api : JsonApi) where
  open api use {Json, item, string_value, print}

  unfoldable pub json_field_equals : Json → Bytes → Bytes → Bool
  json_field_equals root key value = elim (json_string api root key) [
    | none ↦ false
    | some s ↦ str_eq s value
  ]

  unfoldable pub policy_payload_is_decision : Json → Bool
  unfolding json_field_equals
  policy_payload_is_decision root =
      json_field_equals root (codes "schema") (codes "espagent.policy_decision.v1")
      || json_field_equals root (codes "event") (codes "policy_decision")

  -- The write, where the text was printed and the mutex is had within 100 ms.
  unfoldable pub note_printed : Bool → ℕ → Bytes → Option Bytes → PolicyCache → PolicyCache
  unfolding note_decision
  note_printed taken ts_ms command_id none c = c
  note_printed taken ts_ms command_id (some json) c =
      if taken then note_decision ts_ms command_id json c else c

  unfoldable pub note_named : Bool → ℕ → Json → Option Bytes → PolicyCache → PolicyCache
  unfolding note_printed
  note_named taken ts_ms root none c = c
  note_named taken ts_ms root (some []) c = c
  note_named taken ts_ms root (some (b ∷ bs)) c = note_printed taken ts_ms (b ∷ bs) (print root) c

  -- `made` as above.
  unfoldable pub policy_cache_store_json : Bool → Bool → ℕ → Json → PolicyCache → PolicyCache
  unfolding note_named
  policy_cache_store_json made taken ts_ms root c =
      if made then note_named taken ts_ms root (json_string api root (codes "command_id")) c else c

  unfoldable pub store_root : Bool → Bool → ℕ → Option Json → PolicyCache → PolicyCache
  unfolding policy_cache_store_json policy_payload_is_decision
  store_root made taken ts_ms none c = c
  store_root made taken ts_ms (some root) c =
      if policy_payload_is_decision root then policy_cache_store_json made taken ts_ms root c else c

  unfoldable pub policy_cache_maybe_store_payload :
      Bool → Bool → ℕ → Bytes → PolicyCache → PolicyCache
  unfolding store_root
  policy_cache_maybe_store_payload made taken ts_ms [] c = c
  policy_cache_maybe_store_payload made taken ts_ms (b ∷ bs) c =
      store_root made taken ts_ms (parse_object api (b ∷ bs)) c
