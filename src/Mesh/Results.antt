-- ===== src/Mesh/Results.antt =====
-- main/sensors/sensor_mqtt.c: the message with which a node reports on a command is kept as the
-- command's result by a node that reads it on the timeline.
use esp32_agent_mesh.Prelude.{
  length, Bytes, codes, str_eq_refl, same_name, EspErr, ok, ℕ, ◌≤◌, ◌<◌, ◌≡◌, refl, true, Option,
  some, List, ◌∷◌, ◌++◌,
}
use esp32_agent_mesh.Node.Profile.{NodeProfile}
use esp32_agent_mesh.Mesh.Json.{JsonApi}
use esp32_agent_mesh.Mesh.Rows.{
  text, Row, find_value, IsRead, IsRead-parse_object, json_string-text,
}
use esp32_agent_mesh.Mesh.Command.{mesh_id_max}
use esp32_agent_mesh.Mesh.Decisions.{json_field_equals}
use esp32_agent_mesh.Mesh.Outputs.{
  OutputCache, output_cache_depth, note_output, wait_output_message, output_payload_is_result,
  note_printed_output, note_named_output, output_cache_store_json, store_output_root,
  output_cache_maybe_store_payload,
}
use esp32_agent_mesh.Mesh.Arrival.{OutputNote, note_all, wait_output_message-arrives}
use esp32_agent_mesh.Mesh.Announce.{OutputMessage, output_row}

module _ {J : Type 0} (me : NodeProfile) (err_name : EspErr → Bytes)
    (built : List (Bytes × Bytes) → Option J) (null : J) where
  output_row-command_id :
      (ts_ms : ℕ) (m : OutputMessage) (b : ℕ) (bs : Bytes)
      → m.command_id ≡ some (b ∷ bs)
      → find_value (output_row me err_name built null ts_ms m) (codes "command_id")
        ≡ some (text (b ∷ bs))
  unfolding output_row same_name
  output_row-command_id ts_ms m b bs e = rw e refl

  output_row-schema :
      (ts_ms : ℕ) (m : OutputMessage)
      → find_value (output_row me err_name built null ts_ms m) (codes "schema")
        ≡ some (text (codes "espagent.output.v1"))
  unfolding output_row same_name
  output_row-schema ts_ms m = refl

module _ (api : JsonApi) where
  field_equals-text :
      (row : Row api.Json) (printed : Bytes) (r : IsRead api row printed) (key s : Bytes)
      → find_value row key ≡ some (text s)
      → json_field_equals api r.root key s ≡ true
  unfolding json_field_equals
  field_equals-text row printed r key s e =
      rw (json_field_equals, json_string-text api row printed r key s e) (str_eq_refl s)

  stored_result :
      (me : NodeProfile) (err_name : EspErr → Bytes)
      (built : List (Bytes × Bytes) → Option api.Json) (null : api.Json) (sent_ms ts_ms b d : ℕ)
      (bs ds json : Bytes) (m : OutputMessage)
      (r : IsRead api (output_row me err_name built null sent_ms m) (d ∷ ds)) (cache : OutputCache)
      → m.command_id ≡ some (b ∷ bs)
      → api.print r.root ≡ some json
      → output_cache_maybe_store_payload api true true ts_ms (d ∷ ds) cache
        ≡ note_output ts_ms (b ∷ bs) json cache
  unfolding output_cache_maybe_store_payload store_output_root output_cache_store_json
      note_named_output note_printed_output
  stored_result me err_name built null sent_ms ts_ms b d bs ds json m r cache e p =
      let row = output_row me err_name built null sent_ms m in
      let is_result : output_payload_is_result api r.root ≡ true =
        unfold output_payload_is_result in
        rw
          (field_equals-text row (d ∷ ds) r (codes "schema") (codes "espagent.output.v1")
            (output_row-schema me err_name built null sent_ms m))
          refl in
      let id =
        json_string-text api row (d ∷ ds) r (codes "command_id") (b ∷ bs)
          (output_row-command_id me err_name built null sent_ms m b bs e) in
      rw (IsRead-parse_object api row (d ∷ ds) r, is_result, id, p) refl

  -- A report on a named command, whose text cJSON reads as it was made and prints again, is stored
  -- under the command's id where the id fits its field and the cache's mutex is there and had in
  -- time; and a wait for the command's result, into a buffer that is not empty, that looks at the
  -- cache afterwards, with no more than seven other results stored in between, ends with a result.
  pub output_message_arrives :
      (me : NodeProfile) (err_name : EspErr → Bytes)
      (built : List (Bytes × Bytes) → Option api.Json) (null : api.Json)
      (sent_ms ts_ms size b d : ℕ) (bs ds json : Bytes) (m : OutputMessage)
      (r : IsRead api (output_row me err_name built null sent_ms m) (d ∷ ds))
      (between : List OutputNote) (cache : OutputCache) (before after : List OutputCache)
      → m.command_id ≡ some (b ∷ bs)
      → api.print r.root ≡ some json
      → length cache.cells ≡ output_cache_depth
      → length (b ∷ bs) < mesh_id_max
      → 0 < size
      → length between ≤ 7
      → let stored = output_cache_maybe_store_payload api true true ts_ms (d ∷ ds) cache in
        (t : Bytes) × (wait_output_message true
            (b ∷ bs)
            size
            (before ++ note_all between stored ∷ after)
          ≡ (ok, t))
  output_message_arrives me err_name built null sent_ms ts_ms size b d bs ds json m r between cache
        before after e p room fits some_room few =
      rw (stored_result me err_name built null sent_ms ts_ms b d bs ds json m r cache e p) (
        wait_output_message-arrives ts_ms size (b ∷ bs) json between cache before after room fits
          refl some_room few)
