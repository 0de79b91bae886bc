-- ===== src/Mesh/InboundTests.antt =====
-- A control node that hears a decision of the Guardian and then a command, on a toy JSON library, and
-- the theorems on messages there.
use esp32_agent_mesh.Prelude.{
  find?, Bytes, codes, str_eq, same_name, EspErr, ok, ◌≡◌, refl, ◌⊎◌, true, Option, none, some,
  List, [], ◌∷◌, arith,
}
use esp32_agent_mesh.Node.Profile.{
  NodeProfile, token_list_contains, node_is_role, node_has_capability,
}
use esp32_agent_mesh.Node.Roles.{role_is_sensor, role_is_control}
use esp32_agent_mesh.Bus.ListQueue.{list_queue}
use esp32_agent_mesh.Mesh.Json.{JsonApi, parse_object, json_string, json_int, json_optional_string}
use esp32_agent_mesh.Mesh.Rows.{text, Row, IsRead}
use esp32_agent_mesh.Mesh.Toy.{
  Toy, str, obj, end, field, find_field, find_doc, toy, toy_fields, toy-IsRead,
}
use esp32_agent_mesh.Mesh.Command.{MeshCommand, no_command, parse_command}
use esp32_agent_mesh.Mesh.Outputs.{
  OutputCache, no_outputs, wait_output_message, output_cache_maybe_store_payload,
}
use esp32_agent_mesh.Mesh.Decisions.{
  no_decisions, decision_on, json_field_equals, policy_cache_maybe_store_payload,
}
use esp32_agent_mesh.Mesh.Guardian.{Reason, PolicyCheck}
use esp32_agent_mesh.Mesh.Control.{ControlTool, servo, act_on, handle_mesh_command}
use esp32_agent_mesh.Mesh.Stateboard.{Outlet}
use esp32_agent_mesh.Mesh.Announce.{MeshTopics, mesh_topics, OutputMessage, output_row}
use esp32_agent_mesh.Mesh.Results.{output_message_arrives}
use esp32_agent_mesh.Mesh.Audit.{audit_row, guardian_audit_timeline_payload}
use esp32_agent_mesh.Mesh.Auditing.{audit_row-inert}
use esp32_agent_mesh.Mesh.Safety.{tools_run}
use esp32_agent_mesh.Mesh.Inbound.{
  no_cached, NodeEffect, Moment, command_effects, obey, keep_decision, dispatch_message,
  caches_after,
}
use esp32_agent_mesh.Mesh.Allowed.{obeyed, HasDecision, dispatch_message-HasDecision}

abbrev servo_row : Row Toy
servo_row =
    (codes "command_id", text (codes "c7"))
    ∷ (codes "target_role", text (codes "control_agent"))
    ∷ (codes "action", text (codes "servo_write"))
    ∷ []

abbrev decision_row : Row Toy
decision_row =
    (codes "event", text (codes "policy_decision"))
    ∷ (codes "command_id", text (codes "c7"))
    ∷ (codes "decision", text (codes "allow"))
    ∷ []

abbrev servo_node : NodeProfile
servo_node = record {
  id = codes "n1";
  role = codes "control_agent";
  location = [];
  capabilities = [];
  responsibilities = [];
}

abbrev no_built : List (Bytes × Bytes) → Option Toy
no_built fields = none

abbrev report_on_c7 : OutputMessage
report_on_c7 = record {
  event = some (codes "mesh_command_result");
  command_id = some (codes "c7");
  trace_id = none;
  action = some (codes "servo_write");
  recipient = none;
  result_err = ok;
  summary = none;
  result_text = none;
}

abbrev report_row : Row Toy
report_row = output_row servo_node (λ err. []) no_built (obj end) 9 report_on_c7

abbrev plain : JsonApi
plain = toy []

abbrev observed : Toy
observed = obj (field (codes "event") (str (codes "error")) end)

abbrev audit : Row Toy
audit = audit_row plain servo_node 9 observed

abbrev docs : List (Bytes × Toy)
docs =
    (codes "do", obj (toy_fields servo_row))
    ∷ (codes "yes", obj (toy_fields decision_row))
    ∷ (codes "done", obj (toy_fields report_row))
    ∷ (codes "audit", obj (toy_fields audit))
    ∷ []

-- Whatever is printed again is the decision.
abbrev api : JsonApi
api = record (toy docs) { print = λ v. some (codes "yes") }

abbrev outlet : Outlet Toy
outlet = record {
  api = list_queue 8;
  broker = codes "b";
  created = none;
  print_row = λ row. none;
  me = servo_node;
}

abbrev topics : MeshTopics
topics = mesh_topics (codes "p") servo_node

abbrev now : Moment
now = record {
  output_made = true;
  output_taken = true;
  policy_made = true;
  policy_taken = true;
  looks = 2;
  ts_ms = 9;
}

abbrev works : ControlTool → Bytes → EspErr
works tool args = ok

abbrev no_text : Reason → PolicyCheck → Option Bytes
no_text reason c = none

abbrev no_report : MeshCommand → EspErr → OutputCache → OutputCache
no_report cmd err outputs = outputs

abbrev heard : List (Moment × Bytes × Bytes)
heard = (now, topics.policy_decision, codes "yes") ∷ []

abbrev effects : List NodeEffect
effects =
    (dispatch_message api ok works no_text no_report outlet topics now topics.command (codes "do")
      (caches_after api ok works no_text no_report outlet topics heard no_cached)).0

servo_runs : tools_run (obeyed effects) ≡ (servo, codes "{}") ∷ []
unfolding dispatch_message obey keep_decision command_effects policy_cache_maybe_store_payload
    handle_mesh_command parse_command act_on parse_object find_doc find_field str_eq same_name
    json_string role_is_sensor node_is_role node_has_capability token_list_contains role_is_control
    decision_on find? json_optional_string json_int mesh_topics
servo_runs = refl

dispatch_message-HasDecision_example :
    ((topics.command ≡ topics.command) ⊎ (topics.command ≡ topics.role_command))
    × (role_is_control servo_node ≡ true)
    × HasDecision api ok works no_text no_report outlet topics heard
        (parse_command api servo_node (codes "do") no_command).1
dispatch_message-HasDecision_example =
    dispatch_message-HasDecision api ok works no_text no_report outlet topics heard now
      topics.command (codes "do") (λ e. cc (servo_runs, e))

done_read : IsRead (toy docs) report_row (codes "done")
unfolding output_row audit_row find_doc str_eq same_name
done_read = toy-IsRead docs report_row (codes "done") refl

output_message_arrives_example :
    let stored =
      output_cache_maybe_store_payload (toy docs) true true 11 (codes "done") no_outputs in
    (t : Bytes) × (wait_output_message true (codes "c7") 100 (no_outputs ∷ stored ∷ []) ≡ (ok, t))
output_message_arrives_example =
    output_message_arrives (toy docs) servo_node (λ err. []) no_built (obj end) 9 11 100 b'c' b'd'
      (codes "7") (codes "one") (codes "{}") report_on_c7 done_read [] no_outputs (no_outputs ∷ [])
      [] refl refl refl (omega arith) (omega arith) (omega arith)

audit_read : IsRead (toy docs) (audit_row (toy docs) servo_node 9 observed) (codes "audit")
unfolding output_row audit_row find_doc str_eq same_name json_optional_string json_string
    json_field_equals find_field
audit_read = toy-IsRead docs (audit_row (toy docs) servo_node 9 observed) (codes "audit") refl

audit_row-inert_example :
    (guardian_audit_timeline_payload (toy docs) outlet topics 11 (codes "audit") ≡ [])
    × (output_cache_maybe_store_payload (toy docs) true true 11 (codes "audit") no_outputs
        ≡ no_outputs)
    × (policy_cache_maybe_store_payload (toy docs) true true 11 (codes "audit") no_decisions
        ≡ no_decisions)
audit_row-inert_example =
    audit_row-inert (toy docs) outlet 9 observed topics true true 11 b'a' (codes "udit") audit_read
      no_outputs no_decisions
