-- ===== src/Mesh/Auditing.antt =====
-- main/sensors/sensor_mqtt.c: the Guardian's notes set nothing off.
use esp32_agent_mesh.Prelude.{
  Bool-cases, Bytes, codes, str_eq, same_name, ℕ, ◌≡◌, refl, ◌∙◌, inl, inr, Bool, false, none, some,
  [], ◌∷◌,
}
use esp32_agent_mesh.Node.Roles.{role_is_guardian}
use esp32_agent_mesh.Mesh.Json.{JsonApi, json_optional_string}
use esp32_agent_mesh.Mesh.Rows.{
  text, Row, find_value, find_add_other, IsRead, IsRead-parse_object, json_string-text,
  json_string-none,
}
use esp32_agent_mesh.Mesh.Decisions.{
  PolicyCache, json_field_equals, policy_payload_is_decision, store_root,
  policy_cache_maybe_store_payload,
}
use esp32_agent_mesh.Mesh.Outputs.{
  OutputCache, output_payload_is_result, store_output_root, output_cache_maybe_store_payload,
}
use esp32_agent_mesh.Mesh.Stateboard.{Outlet}
use esp32_agent_mesh.Mesh.Announce.{MeshTopics}
use esp32_agent_mesh.Mesh.Audit.{
  guardian_should_audit_event, audit_row, audit_observed, guardian_audit_timeline_payload,
}

module _ (api : JsonApi) where
  open api use {Json}

  module _ (row : Row Json) (printed : Bytes) (r : IsRead api row printed) where
    optional-text :
        (key s : Bytes)
        → find_value row key ≡ some (text s)
        → json_optional_string api r.root key ≡ s
    unfolding json_optional_string
    optional-text key s e = rw (json_optional_string, json_string-text api row printed r key s e)

    optional-none :
        (key : Bytes) → find_value row key ≡ none → json_optional_string api r.root key ≡ []
    unfolding json_optional_string
    optional-none key e = rw (json_optional_string, json_string-none api row printed r key e)

    field_equals-other :
        (key s s' : Bytes)
        → find_value row key ≡ some (text s)
        → str_eq s s' ≡ false
        → json_field_equals api r.root key s' ≡ false
    unfolding json_field_equals
    field_equals-other key s s' e n =
        rw (json_field_equals, json_string-text api row printed r key s e) n

    field_equals-none :
        (key s' : Bytes) → find_value row key ≡ none → json_field_equals api r.root key s' ≡ false
    unfolding json_field_equals
    field_equals-none key s' e = rw (json_field_equals, json_string-none api row printed r key e)

  module _ (o : Outlet Json) (ts_ms : ℕ) (observed : Json) where
    abbrev row : Row Json
    row = audit_row api o.me ts_ms observed

    schema_there :
        find_value row (codes "schema") ≡ some (text (codes "espagent.guardian.audit.v1"))
    unfolding audit_row same_name
    schema_there = refl

    event_there : find_value row (codes "event") ≡ some (text (codes "guardian_audit"))
    unfolding audit_row same_name
    event_there = refl

    no_type : find_value row (codes "type") ≡ none
    unfolding audit_row same_name
    no_type =
        let seen = json_optional_string api observed in
        find_add_other (codes "command_id") (seen (codes "command_id")) (codes "type") _ refl
        ∙ find_add_other (codes "trace_id") (seen (codes "trace_id")) (codes "type") _ refl
        ∙ find_add_other (codes "action") (seen (codes "action")) (codes "type") _ refl

    module _ (printed : Bytes) (r : IsRead api row printed) where
      not_a_result : output_payload_is_result api r.root ≡ false
      unfolding output_payload_is_result str_eq
      not_a_result =
          rw
            (
              field_equals-other row printed r (codes "schema") _ (codes "espagent.output.v1")
                  schema_there refl,
              field_equals-none row printed r (codes "type") (codes "output") no_type,
              field_equals-other row printed r (codes "event") _ (codes "mesh_command_result")
                  event_there refl,
            )
            refl

      not_a_decision : policy_payload_is_decision api r.root ≡ false
      unfolding policy_payload_is_decision str_eq
      not_a_decision =
          rw
            (
              field_equals-other row printed r (codes "schema") _
                  (codes "espagent.policy_decision.v1") schema_there refl,
              field_equals-other row printed r (codes "event") _ (codes "policy_decision")
                  event_there refl,
            )
            refl

      not_to_audit : guardian_should_audit_event api r.root ≡ false
      unfolding guardian_should_audit_event str_eq
      not_to_audit =
          rw
            (
              not_a_result,
              optional-text row printed r (codes "event") _ event_there,
              optional-none row printed r (codes "type") no_type,
            )
            refl

    -- An audit whose text is read as it was made, whatever event it is about, is itself not audited,
    -- is not kept as the result of the command whose id it names, and is not taken for a decision of
    -- the Guardian on that command.
    pub audit_row-inert :
        (topics : MeshTopics) (made taken : Bool) (now d : ℕ) (ds : Bytes)
        (r : IsRead api row (d ∷ ds)) (outputs : OutputCache) (decisions : PolicyCache)
        → (guardian_audit_timeline_payload api o topics now (d ∷ ds) ≡ [])
          × (output_cache_maybe_store_payload api made taken now (d ∷ ds) outputs ≡ outputs)
          × (policy_cache_maybe_store_payload api made taken now (d ∷ ds) decisions ≡ decisions)
    unfolding guardian_audit_timeline_payload audit_observed output_cache_maybe_store_payload
        store_output_root policy_cache_maybe_store_payload store_root
    audit_row-inert topics made taken now d ds r outputs decisions =
        let parsed = IsRead-parse_object api row (d ∷ ds) r in
        (
          elim (Bool-cases (role_is_guardian o.me)) [
            | inl g ↦ rw (g, parsed, not_to_audit (d ∷ ds) r) refl
            | inr n ↦ rw n refl
          ],
          rw (parsed, not_a_result (d ∷ ds) r) refl,
          rw (parsed, not_a_decision (d ∷ ds) r) refl,
        )
