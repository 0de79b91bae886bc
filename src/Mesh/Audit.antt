-- ===== src/Mesh/Audit.antt =====
-- main/sensors/sensor_mqtt.c: the Guardian's notes on what it reads on the timeline.
use esp32_agent_mesh.Prelude.{
  if◌then◌else◌, Bytes, codes, str_eq, ℕ, Bool, not, ◌||◌, Option, none, some, List, [], ◌∷◌,
}
use esp32_agent_mesh.Prelude.Int.{pos}
use esp32_agent_mesh.Node.Profile.{NodeProfile}
use esp32_agent_mesh.Node.Roles.{role_is_guardian}
use esp32_agent_mesh.Mesh.Json.{JsonApi, parse_object, json_optional_string}
use esp32_agent_mesh.Mesh.Rows.{text, number, Row, add_unless_empty}
use esp32_agent_mesh.Mesh.Decisions.{json_field_equals}
use esp32_agent_mesh.Mesh.Outputs.{output_payload_is_result}
use esp32_agent_mesh.Mesh.Stateboard.{Outlet}
use esp32_agent_mesh.Mesh.Announce.{MeshTopics, stamped_id}

module _ (api : JsonApi) where
  open api use {Json}

  unfoldable pub guardian_should_audit_event : Json → Bool
  unfolding output_payload_is_result
  guardian_should_audit_event root =
      let event = json_optional_string api root (codes "event") in
      let type_ = json_optional_string api root (codes "type") in
      output_payload_is_result api root
      || str_eq event (codes "tool_use")
      || str_eq event (codes "tool_result")
      || str_eq event (codes "mesh_command_queued")
      || str_eq event (codes "final_reply")
      || str_eq event (codes "error")
      || str_eq type_ (codes "output")

  abbrev pub is_error_event : Json → Bool
  is_error_event observed =
      str_eq (json_optional_string api observed (codes "status")) (codes "error")
      || json_field_equals api observed (codes "type") (codes "error")

  unfoldable pub audit_row : NodeProfile → ℕ → Json → Row Json
  audit_row me ts_ms observed =
      let seen = json_optional_string api observed in
      let is_error = is_error_event observed in
      (codes "schema", text (codes "espagent.guardian.audit.v1"))
      ∷ (codes "audit_id", text (stamped_id (codes "audit-") me.id ts_ms))
      ∷ (codes "event", text (codes "guardian_audit"))
      ∷ (codes "auditor_node", text me.id)
      ∷ (codes "auditor_role", text me.role)
      ∷ (codes "decision", text (if is_error then codes "watch" else codes "observe"))
      ∷ (codes "privacy_mode", text (codes "metadata_only"))
      ∷ (codes "observed_event", text (seen (codes "event")))
      ∷ (codes "observed_type", text (seen (codes "type")))
      ∷ (codes "observed_status", text (seen (codes "status")))
      ∷ (codes "observed_node", text (seen (codes "node_id")))
      ∷ (codes "observed_role", text (seen (codes "role")))
      ∷ add_unless_empty (codes "command_id") (seen (codes "command_id")) (
          add_unless_empty (codes "trace_id") (seen (codes "trace_id")) (
            add_unless_empty (codes "action") (seen (codes "action")) (
              (
                codes "summary",
                text (
                    if is_error
                    then codes "Guardian observed an error event"
                    else codes "Guardian observed a mesh event"),
              )
              ∷ (codes "ts_ms", number (pos ts_ms))
              ∷ [])))

  module _ (o : Outlet Json) (topics : MeshTopics) (ts_ms : ℕ) where
    -- What is published, by topic, in order.
    unfoldable pub audit_texts : Bool → Option Bytes → List (Bytes × Bytes)
    audit_texts is_error none = []
    audit_texts is_error (some json) =
        (topics.events, json) ∷ (if is_error then (topics.alerts, json) ∷ [] else [])

    unfoldable pub audit_observed : Option Json → List (Bytes × Bytes)
    unfolding guardian_should_audit_event audit_row audit_texts
    audit_observed none = []
    audit_observed (some observed) =
        if not (guardian_should_audit_event observed)
        then []
        else audit_texts (is_error_event observed) (o.print_row (audit_row o.me ts_ms observed))

    unfoldable pub guardian_audit_timeline_payload : Bytes → List (Bytes × Bytes)
    unfolding audit_observed
    guardian_audit_timeline_payload [] = []
    guardian_audit_timeline_payload (b ∷ bs) =
        if not (role_is_guardian o.me) then [] else audit_observed (parse_object api (b ∷ bs))
