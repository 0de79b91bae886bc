-- ===== src/Tools/Tests.antt =====
-- The mesh command tool on a toy JSON library: a request to move a servo, and the theorems at it.
use esp32_agent_mesh.Prelude.{
  All, find?, Bytes, codes, str_eq, same_name, ok, done, ◌≤◌, ◌<◌, ◌≡◌, refl, true, Option, none,
  some, List, [], ◌∷◌,
}
use esp32_agent_mesh.Prelude.Int.{pos}
use esp32_agent_mesh.Node.Profile.{NodeProfile}
use esp32_agent_mesh.Mesh.Json.{
  parse_object, json_string, json_int, json_bool, json_optional_string,
}
use esp32_agent_mesh.Mesh.Rows.{text, Row, find_value, IsRead}
use esp32_agent_mesh.Mesh.Toy.{
  Toy, str, obj, end, field, find_field, find_doc, toy, toy_fields, toy-IsRead,
}
use esp32_agent_mesh.Mesh.Command.{no_command, build_role_topic, parse_command}
use esp32_agent_mesh.Mesh.Decisions.{no_decisions, note_decision, decision_on, wait_policy_decision}
use esp32_agent_mesh.Tools.Sending.{
  is_control_action, command_topic, Outgoing, read_input, command_row, policy_row,
}
use esp32_agent_mesh.Tools.Waiting.{wait_context}
use esp32_agent_mesh.Tools.MeshCommand.{
  publishes, notes, starts_task, queued_task, output_wait_ms, SendWorld, send_command_execute,
}
use esp32_agent_mesh.Mesh.Guardian.{allows, policy_reason, read_policy_check}
use esp32_agent_mesh.Tools.Granted.{IsDue, send_command_execute-IsDue}
use esp32_agent_mesh.Tools.Asked.{policy_reason-asked}
use esp32_agent_mesh.Tools.Delivered.{delivered, parse_command-sent}
use esp32_agent_mesh.Tools.Waits.{IsTimely, send_command_execute-IsTimely}
use esp32_agent_mesh.Tools.Registry.{
  Tool, max_tools, register_tool, tool_registry_execute, coordinator_control_or_local,
}
use esp32_agent_mesh.Tools.Routing.{
  sent_args, IsRouted, coordinator_control_or_local-IsRouted, tool_registry_execute-register_tool,
}
use esp32_agent_mesh.Tools.Rerouted.{route_row}

abbrev request_row : Row Toy
request_row =
    (codes "action", text (codes "servo_write")) ∷ (codes "command_id", text (codes "c7")) ∷ []

abbrev sent : Outgoing Toy
sent = record {
  topic = codes "p/roles/control_agent/command";
  command_id = codes "c7";
  trace_id = codes "trace-c7";
  target_role = codes "control_agent";
  target_node = [];
  action = codes "servo_write";
  ttl_ms = pos 30000;
  safety_level = pos 1;
  require_ack = true;
  async_wait = true;
  reply_channel = [];
  reply_chat_id = [];
  args = obj end;
}

abbrev command_doc : Row Toy
command_doc = command_row (toy []) sent

abbrev check_doc : Row Toy
check_doc = policy_row (toy []) 9 sent

abbrev docs : List (Bytes × Toy)
docs =
    (codes "in", obj (toy_fields request_row))
    ∷ (codes "yes", obj (field (codes "decision") (str (codes "allow")) end))
    ∷ (codes "cmd", obj (toy_fields command_doc))
    ∷ (codes "chk", obj (toy_fields check_doc))
    ∷ []

abbrev prefix : Bytes
prefix = codes "p"

abbrev made_id : Bytes
made_id = codes "cmd-9"

abbrev input : Option Toy
input = parse_object (toy docs) (codes "in")

read_sent : read_input (toy docs) prefix (obj end) made_id input ≡ done sent
unfolding read_input parse_object find_doc find_field str_eq same_name json_optional_string json_int
    json_string json_bool build_role_topic
read_sent = refl

abbrev printed : Row Toy → Option Bytes
printed row = elim (find_value row (codes "schema")) [
  | none ↦ some (codes "cmd")
  | some v ↦ some (codes "chk")
]

abbrev world : SendWorld Toy
world = record {
  print_row = printed;
  publish = λ topic payload. ok;
  prefix = prefix;
  check_topic = codes "check";
  empty = obj end;
  made_id = made_id;
  ts_ms = 9;
  policy_made = true;
  output_made = true;
  decisions = note_decision 9 (codes "c7") (codes "yes") no_decisions ∷ [];
  outputs = [];
  context_there = true;
  task_created = true;
}

-- The check, then the command, then a task that waits.
allowed_goes : send_command_execute (toy docs) world (codes "in") ≡ record {
  status = ok;
  reply = queued_task (codes "mesh-task-c7");
  effects =
      publishes (codes "check") (codes "chk")
      ∷ notes (codes "policy") (codes "policy_check") (codes "ok")
      ∷ publishes sent.topic (codes "cmd")
      ∷ notes (codes "dispatch") (codes "mesh_command_queued") (codes "ok")
      ∷ starts_task (wait_context sent 30000)
      ∷ [];
}
unfolding send_command_execute read_input parse_object find_doc find_field str_eq same_name
    json_optional_string json_int json_string json_bool build_role_topic wait_policy_decision
    note_decision decision_on find? command_row policy_row wait_context output_wait_ms
allowed_goes = refl

send_command_execute-IsDue_example :
    All
      (IsDue (toy docs) world (read_input (toy docs) prefix (obj end) made_id input))
      (send_command_execute (toy docs) world (codes "in")).effects
send_command_execute-IsDue_example = send_command_execute-IsDue (toy docs) world (codes "in")

abbrev check_read : IsRead (toy docs) (policy_row (toy docs) 9 sent) (codes "chk")
unfolding policy_row find_doc str_eq same_name
check_read = toy-IsRead docs (policy_row (toy docs) 9 sent) (codes "chk") refl

policy_reason-asked_example :
    allows (policy_reason (read_policy_check (toy docs) check_read.root)) ≡ true
policy_reason-asked_example =
    policy_reason-asked (toy docs) prefix made_id (codes "chk") (obj end) input 9 sent refl
      read_sent check_read

command_read : IsRead (toy docs) (command_row (toy docs) sent) (codes "cmd")
unfolding command_row find_doc str_eq same_name
command_read = toy-IsRead docs (command_row (toy docs) sent) (codes "cmd") refl

abbrev servo_node : NodeProfile
servo_node = record {
  id = codes "n1";
  role = codes "control_agent";
  location = [];
  capabilities = [];
  responsibilities = [];
}

parse_command-sent_example :
    parse_command (toy docs) servo_node (codes "cmd") no_command
    ≡ (ok, delivered (toy docs) sent (codes "{}"))
parse_command-sent_example =
    parse_command-sent (toy docs) prefix made_id (codes "{}") 99 (codes "md") (obj end) input
      servo_node sent read_sent command_read refl refl (unfold str_eq in refl)

send_command_execute-IsTimely_example :
    All
      (IsTimely
        (read_input (toy docs) prefix (obj end) made_id input)
        (send_command_execute (toy docs) world (codes "in")).reply)
      (send_command_execute (toy docs) world (codes "in")).effects
send_command_execute-IsTimely_example = send_command_execute-IsTimely (toy docs) world (codes "in")

abbrev coordinator_node : NodeProfile
coordinator_node = record {
  id = codes "n0";
  role = codes "coordinator_agent";
  location = [];
  capabilities = [];
  responsibilities = [];
}

abbrev route_docs : List (Bytes × Toy)
route_docs =
    (codes "in", obj (field (codes "angle") (str (codes "90")) end))
    ∷ (
      codes "rt",
      obj (
          toy_fields
            (route_row (codes "servo_write") (obj (field (codes "angle") (str (codes "90")) end)))),
    )
    ∷ []

abbrev route_world : SendWorld Toy
route_world = record world { print_row = λ row. some (codes "rt") }

abbrev route_read :
    IsRead
      (toy route_docs)
      (route_row
        (codes "servo_write")
        (sent_args (toy route_docs) route_world (λ root key. root) (codes "in")))
      (codes "rt")
unfolding find_doc str_eq same_name parse_object
route_read = toy-IsRead route_docs _ (codes "rt") refl

coordinator_control_or_local-IsRouted_example :
    IsRouted
      (toy route_docs)
      route_world
      (λ root key. root)
      coordinator_node
      (codes "servo_write")
      (codes "in")
      (codes "p/roles/control_agent/command")
      (coordinator_control_or_local
        (toy route_docs)
        route_world
        (λ root key. root)
        coordinator_node
        (codes "servo_write")
        (codes "in"))
coordinator_control_or_local-IsRouted_example =
    coordinator_control_or_local-IsRouted (toy route_docs) route_world (λ root key. root)
      coordinator_node (codes "servo_write") (codes "in") (codes "p/roles/control_agent/command")
      (codes "rt") (unfold is_control_action str_eq in refl)
      (unfold command_topic build_role_topic in refl) refl route_read

abbrev echo : Bytes → Tool Bytes
echo name = record { name = name; execute = λ input_json. input_json }

tool_registry_execute-register_tool_example :
    ((u : Tool Bytes)
      → find? (λ t. str_eq t.name (codes "b")) (echo (codes "a") ∷ []) ≡ some u
      → tool_registry_execute
          (register_tool (echo (codes "b")) (echo (codes "a") ∷ []))
          (codes "b")
          (codes "x")
        ≡ some (u.execute (codes "x")))
    × (find? (λ (t : Tool Bytes). str_eq t.name (codes "b")) (echo (codes "a") ∷ []) ≡ none
        → 1 < max_tools
        → codes "b" ≡ codes "b"
        → tool_registry_execute
            (register_tool (echo (codes "b")) (echo (codes "a") ∷ []))
            (codes "b")
            (codes "x")
          ≡ some (codes "x"))
    × (max_tools ≤ 1
        → register_tool (echo (codes "b")) (echo (codes "a") ∷ []) ≡ echo (codes "a") ∷ [])
tool_registry_execute-register_tool_example =
    tool_registry_execute-register_tool (echo (codes "b")) (echo (codes "a") ∷ []) (codes "b")
      (codes "x")
