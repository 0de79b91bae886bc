-- ===== src/Mesh/Tests.antt =====
-- The mesh code on a toy JSON library, whose objects are tables and whose texts are the names of four of
-- them, and the theorems at concrete payloads.
use esp32_agent_mesh.Prelude.{
  if◌then◌else◌, find?, Bytes, codes, str_eq, EspErr, ok, invalid_state, ◌≡◌, refl, ap, ◌↔◌, true,
  false, Option, none, some, List, [], ◌∷◌,
}
use esp32_agent_mesh.Prelude.Int.{ℤ, pos}
use esp32_agent_mesh.Node.Profile.{
  NodeProfile, token_list_contains, node_is_role, node_has_capability,
}
use esp32_agent_mesh.Node.Roles.{role_is_sensor, role_is_control}
use esp32_agent_mesh.Mesh.Json.{JsonApi, parse_object, json_string, json_int, json_optional_string}
use esp32_agent_mesh.Mesh.Command.{MeshCommand, no_command, parse_command}
use esp32_agent_mesh.Mesh.Decisions.{
  PolicyCache, no_decisions, cached, note_decision, decision_on, policy_cache_maybe_store_payload,
}
use esp32_agent_mesh.Mesh.Guardian.{allows, PolicyCheck, policy_reason}
use esp32_agent_mesh.Mesh.Control.{
  ControlTool, servo, control_tool, runs, replies, act_on, handle_mesh_command,
}
use esp32_agent_mesh.Mesh.Accepted.{IsAccepted, parse_command-IsAccepted}
use esp32_agent_mesh.Mesh.Safety.{tools_run, IsLicensed, handle_mesh_command-IsLicensed}
use esp32_agent_mesh.Mesh.Granted.{IsGranted, handle_mesh_command-granted}
use esp32_agent_mesh.Mesh.Policy.{IsAllowable, policy_reason-IsAllowable}

-- A value is a string or a number; an object is a table of values.
data Value : Type 0 where
  text_value : Bytes → Value
  number : ℤ → Value
  object : List (Bytes × Bytes) → Value

abbrev command_table : List (Bytes × Bytes)
command_table =
    (codes "command_id", codes "c7")
    ∷ (codes "target_role", codes "control_agent")
    ∷ (codes "action", codes "servo_write")
    ∷ []

abbrev decision_table : List (Bytes × Bytes)
decision_table =
    (codes "event", codes "policy_decision")
    ∷ (codes "command_id", codes "c7")
    ∷ (codes "decision", codes "allow")
    ∷ (codes "action", codes "servo_write")
    ∷ []

lookup : Bytes → List (Bytes × Bytes) → Option Value
lookup key [] = none
lookup key ((k, v) ∷ rest) = if str_eq k key then some (text_value v) else lookup key rest

toy_parse : Bytes → Option Value
toy_parse t =
    if str_eq t (codes "command")
    then some (object command_table)
    else if str_eq t (codes "decision")
    then some (object decision_table)
    else none

toy_item : Value → Bytes → Option Value
toy_item (object table) key = lookup key table
toy_item _ key = none

abbrev toy : JsonApi
toy = record {
  Json = Value;
  parse = toy_parse;
  is_object = λ v. elim v [ object t ↦ true | _ ↦ false ];
  item = toy_item;
  string_value = λ v. elim v [ text_value s ↦ some s | _ ↦ none ];
  int_value = λ v. elim v [ number n ↦ some n | _ ↦ none ];
  is_true = λ v. false;
  print = λ v. some (codes "decision");
}

abbrev servo_node : NodeProfile
servo_node = record {
  id = codes "n1";
  role = codes "control_agent";
  location = [];
  capabilities = [];
  responsibilities = [];
}

abbrev allowed_cache : PolicyCache
allowed_cache = policy_cache_maybe_store_payload toy true true 9 (codes "decision") no_decisions

abbrev works : ControlTool → Bytes → EspErr
works tool args = ok

abbrev accepted : MeshCommand
accepted = (parse_command toy servo_node (codes "command") no_command).1

servo_runs :
    handle_mesh_command toy ok works servo_node true (allowed_cache ∷ []) (codes "command")
    ≡ runs servo (codes "{}") ∷ replies accepted ok ∷ []
unfolding handle_mesh_command parse_command act_on parse_object toy_parse str_eq json_string
    toy_item lookup role_is_sensor node_is_role node_has_capability token_list_contains
    role_is_control decision_on find? policy_cache_maybe_store_payload json_optional_string json_int
servo_runs = refl

undecided_denied :
    handle_mesh_command toy ok works servo_node true (no_decisions ∷ []) (codes "command")
    ≡ replies accepted invalid_state ∷ []
unfolding handle_mesh_command parse_command act_on parse_object toy_parse str_eq json_string
    toy_item lookup role_is_sensor node_is_role node_has_capability token_list_contains
    role_is_control decision_on find?
undecided_denied = refl

handle_mesh_command-IsLicensed_example : IsLicensed toy servo_node (allowed_cache ∷ []) accepted
handle_mesh_command-IsLicensed_example =
    handle_mesh_command-IsLicensed toy ok works servo_node true (allowed_cache ∷ [])
      (codes "command") (λ e. cc (ap tools_run servo_runs, e))

parse_command-IsAccepted_example : IsAccepted servo_node accepted
unfolding parse_command parse_object toy_parse str_eq json_string toy_item lookup
parse_command-IsAccepted_example =
    parse_command-IsAccepted toy servo_node (codes "command") no_command refl

abbrev servo_check : PolicyCheck
servo_check = record {
  command_id = codes "c7";
  trace_id = [];
  action = codes "servo_write";
  target_role = codes "control_agent";
  target_node = [];
  safety_level = pos 1;
}

policy_reason-IsAllowable_example :
    (allows (policy_reason servo_check) ≡ true) ↔ IsAllowable servo_check
policy_reason-IsAllowable_example = policy_reason-IsAllowable servo_check

abbrev one_decision : PolicyCache
one_decision = note_decision 9 (codes "c7") (codes "yes") no_decisions

servo-IsGranted : IsGranted toy ok works servo_node allowed_cache [] accepted servo
unfolding parse_command parse_object toy_parse str_eq json_string toy_item lookup node_is_role
    role_is_control control_tool decision_on find? policy_cache_maybe_store_payload
    json_optional_string json_int
servo-IsGranted = record {
  on_control = refl;
  is_named = λ e. cc e;
  is_safe = refl;
  has_tool = refl;
  item = cached 9 (codes "c7") (codes "decision");
  is_cached = refl;
  root = object decision_table;
  is_parsed = refl;
  allowed = record { says_allow = refl; same_action = refl; same_role = refl; same_node = refl };
}

handle_mesh_command-granted_example :
    handle_mesh_command toy ok works servo_node true (allowed_cache ∷ []) (codes "command")
    ≡ runs servo (codes "{}") ∷ replies accepted ok ∷ []
unfolding parse_command parse_object toy_parse str_eq json_string toy_item lookup
handle_mesh_command-granted_example =
    handle_mesh_command-granted toy ok works servo_node allowed_cache [] (codes "command") servo
      refl servo-IsGranted
