-- ===== src/Mesh/Outputs.antt =====
-- main/sensors/sensor_mqtt.c: the cache of results of commands, a ring of 8 cells as that of the
-- Guardian's decisions, and the wait for a result.
use esp32_agent_mesh.Prelude.{
  ◌==◌, if◌then◌else◌, set, replicate, find?, Bytes, codes, str_eq, copy_field, is_empty, EspErr,
  ok, no_mem, invalid_arg, timeout, add32, ℕ, ◌%◌, Bool, true, false, not, ◌&&◌, ◌||◌, Option, none,
  some, List, [], ◌∷◌,
}
use esp32_agent_mesh.Mesh.Json.{JsonApi, parse_object, json_string}
use esp32_agent_mesh.Mesh.Command.{mesh_id_max}
use esp32_agent_mesh.Mesh.Decisions.{json_field_equals}

pub record CachedOutput : Type 0 where
  pub used : Bool
  pub ts_ms : ℕ
  pub command_id : Bytes
  pub output_json : Bytes

-- `s_output_cache` and `s_output_cache_next`.
pub record OutputCache : Type 0 where
  pub cells : List CachedOutput
  pub next : ℕ

abbrev pub output_cache_depth : ℕ
output_cache_depth = 8

abbrev pub output_json_size : ℕ
output_json_size = 768

abbrev pub no_outputs : OutputCache
no_outputs = record {
  cells =
      replicate output_cache_depth
        (record { used = false; ts_ms = 0; command_id = []; output_json = [] });
  next = 0;
}

abbrev pub is_output_of : Bytes → CachedOutput → Bool
is_output_of command_id item = item.used && str_eq item.command_id command_id

abbrev pub cached_output : ℕ → Bytes → Bytes → CachedOutput
cached_output ts_ms command_id json = record {
  used = true;
  ts_ms = ts_ms;
  command_id = copy_field mesh_id_max command_id;
  output_json = copy_field output_json_size json;
}

-- The write while the mutex is held.
unfoldable pub note_output : ℕ → Bytes → Bytes → OutputCache → OutputCache
note_output ts_ms command_id json c = record c {
  cells = set c.cells (c.next % output_cache_depth) (cached_output ts_ms command_id json);
  next = add32 c.next 1;
}

-- The scan of one poll of `sensor_mqtt_wait_output_message`.
unfoldable pub output_of : Bytes → OutputCache → Option CachedOutput
output_of command_id c = find? (is_output_of command_id) c.cells

-- Its loop. `polls` is the cache as it is each time that the mutex is taken before the deadline.
unfoldable pub wait_output_polls : Bytes → ℕ → List OutputCache → EspErr × Bytes
wait_output_polls command_id size [] = (timeout, [])
wait_output_polls command_id size (c ∷ polls) =
    let rest = wait_output_polls command_id size polls in
    elim (output_of command_id c) [
      | none ↦ rest
      | some item ↦ (ok, copy_field size item.output_json)
    ]

-- `made` says whether the mutex is there or can be created.
unfoldable pub wait_output_message : Bool → Bytes → ℕ → List OutputCache → EspErr × Bytes
unfolding wait_output_polls
wait_output_message made command_id size polls =
    if is_empty command_id || size == 0
    then (invalid_arg, [])
    else if not made
    then (no_mem, [])
    else wait_output_polls command_id size polls

module _ (api : JsonApi) where
  open api use {Json, print}

  unfoldable pub output_payload_is_result : Json → Bool
  unfolding json_field_equals
  output_payload_is_result root =
      json_field_equals api root (codes "schema") (codes "espagent.output.v1")
      || json_field_equals api root (codes "type") (codes "output")
      || json_field_equals api root (codes "event") (codes "mesh_command_result")

  -- The write, where the text was printed and the mutex is had within 100 ms.
  unfoldable pub note_printed_output : Bool → ℕ → Bytes → Option Bytes → OutputCache → OutputCache
  unfolding note_output
  note_printed_output taken ts_ms command_id none c = c
  note_printed_output taken ts_ms command_id (some json) c =
      if taken then note_output ts_ms command_id json c else c

  unfoldable pub note_named_output : Bool → ℕ → Json → Option Bytes → OutputCache → OutputCache
  unfolding note_printed_output
  note_named_output taken ts_ms root none c = c
  note_named_output taken ts_ms root (some []) c = c
  note_named_output taken ts_ms root (some (b ∷ bs)) c =
      note_printed_output taken ts_ms (b ∷ bs) (print root) c

  unfoldable pub output_cache_store_json : Bool → Bool → ℕ → Json → OutputCache → OutputCache
  unfolding note_named_output
  output_cache_store_json made taken ts_ms root c =
      if made
      then note_named_output taken ts_ms root (json_string api root (codes "command_id")) c
      else c

  unfoldable pub store_output_root : Bool → Bool → ℕ → Option Json → OutputCache → OutputCache
  unfolding output_cache_store_json output_payload_is_result
  store_output_root made taken ts_ms none c = c
  store_output_root made taken ts_ms (some root) c =
      if output_payload_is_result root then output_cache_store_json made taken ts_ms root c else c

  unfoldable pub output_cache_maybe_store_payload :
      Bool → Bool → ℕ → Bytes → OutputCache → OutputCache
  unfolding store_output_root
  output_cache_maybe_store_payload made taken ts_ms [] c = c
  output_cache_maybe_store_payload made taken ts_ms (b ∷ bs) c =
      store_output_root made taken ts_ms (parse_object api (b ∷ bs)) c
