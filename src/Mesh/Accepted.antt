-- ===== src/Mesh/Accepted.antt =====
-- main/mesh/mesh_protocol.c: what the parser and the topic builders promise.
use esp32_agent_mesh.Prelude.{
  length, Bytes, codes, copy_field_fits, EspErr, ok, fail, no_mem, invalid_arg, invalid_state,
  invalid_size, not_found, timeout, invalid_crc, invalid_response, ◌<◌, ◌≡◌, ◌≢◌, true, Option,
  none, some, [], ◌∷◌, arith,
}
use esp32_agent_mesh.Node.Profile.{NodeProfile}
use esp32_agent_mesh.Mesh.Json.{JsonApi, parse_object, json_string}
use esp32_agent_mesh.Mesh.Command.{
  MeshCommand, mesh_id_max, mesh_node_max, mesh_role_max, mesh_action_max, mesh_trace_max,
  mesh_args_json_max, no_command, or_empty, is_for, check_target, printed_args, item_args,
  found_args, copy_args_json, read_fields, read_command, read_root, parse_command,
}

-- The bounds of the arrays of `espagent_mesh_command_t`.
pub record Fits (cmd : MeshCommand) : Type 0 where
  pub command_id_fits : length cmd.command_id < mesh_id_max
  pub trace_id_fits : length cmd.trace_id < mesh_trace_max
  pub target_node_fits : length cmd.target_node < mesh_node_max
  pub target_role_fits : length cmd.target_role < mesh_role_max
  pub action_fits : length cmd.action < mesh_action_max
  pub args_json_fits : length cmd.args_json < mesh_args_json_max

pub no_command-Fits : Fits no_command
no_command-Fits = record {
  command_id_fits = omega arith;
  trace_id_fits = omega arith;
  target_node_fits = omega arith;
  target_role_fits = omega arith;
  action_fits = omega arith;
  args_json_fits = omega arith;
}

-- What an accepted command is: an action, and this node and its role where it names any.
pub record IsAccepted (me : NodeProfile) (cmd : MeshCommand) : Type 0 where
  pub has_action : cmd.action ≢ []
  pub for_node : is_for cmd.target_node me.id ≡ true
  pub for_role : is_for cmd.target_role me.role ≡ true

check_target-ok :
    (me : NodeProfile) (args_err : EspErr) (cmd : MeshCommand)
    → check_target me args_err cmd ≡ ok
    → (is_for cmd.target_node me.id ≡ true) × (is_for cmd.target_role me.role ≡ true)
unfolding check_target
check_target-ok me ok cmd h = ground (arith, h)
check_target-ok me fail cmd h = absurd (cc h)
check_target-ok me no_mem cmd h = absurd (cc h)
check_target-ok me invalid_arg cmd h = absurd (cc h)
check_target-ok me invalid_state cmd h = absurd (cc h)
check_target-ok me invalid_size cmd h = absurd (cc h)
check_target-ok me not_found cmd h = absurd (cc h)
check_target-ok me timeout cmd h = absurd (cc h)
check_target-ok me invalid_crc cmd h = absurd (cc h)
check_target-ok me invalid_response cmd h = absurd (cc h)

module _ (api : JsonApi) where
  open api use {Json}

  printed_fits : (text : Option Bytes) → length (printed_args api text).1 < mesh_args_json_max
  unfolding printed_args
  printed_fits none = omega arith
  printed_fits (some printed) = copy_field_fits mesh_args_json_max printed (omega arith)

  args_fits :
      (text : Option Bytes) (args : Option Json)
      → length (found_args api text args).1 < mesh_args_json_max
  unfolding found_args item_args
  args_fits (some s) args = copy_field_fits mesh_args_json_max s (omega arith)
  args_fits none none = omega arith
  args_fits none (some args) = printed_fits (api.print args)

  read_command-Fits :
      (me : NodeProfile) (root : Json) (action : Bytes) → Fits (read_command api me root action).1
  unfolding read_command read_fields copy_args_json
  read_command-Fits me root [] = no_command-Fits
  read_command-Fits me root (c ∷ cs) = record {
    command_id_fits =
        copy_field_fits mesh_id_max (or_empty (json_string api root (codes "command_id")))
          (omega arith);
    trace_id_fits =
        copy_field_fits mesh_trace_max (or_empty (json_string api root (codes "trace_id")))
          (omega arith);
    target_node_fits =
        copy_field_fits mesh_node_max (or_empty (json_string api root (codes "target_node")))
          (omega arith);
    target_role_fits =
        copy_field_fits mesh_role_max (or_empty (json_string api root (codes "target_role")))
          (omega arith);
    action_fits = copy_field_fits mesh_action_max (c ∷ cs) (omega arith);
    args_json_fits =
        args_fits (json_string api root (codes "args_json")) (api.item root (codes "args"));
  }

  read_root-Fits : (me : NodeProfile) (root : Option Json) → Fits (read_root api me root).1
  unfolding read_root
  read_root-Fits me none = no_command-Fits
  read_root-Fits me (some root) =
      read_command-Fits me root (or_empty (json_string api root (codes "action")))

  -- Whatever the payload and the JSON library make of each other, no field of the command outgrows
  -- its array, on success and on every error, if none does before the call.
  pub parse_command-Fits :
      (me : NodeProfile) (payload : Bytes) (out : MeshCommand)
      → Fits out
      → Fits (parse_command api me payload out).1
  unfolding parse_command
  parse_command-Fits me [] out f = f
  parse_command-Fits me (b ∷ bs) out f = read_root-Fits me (parse_object api (b ∷ bs))

  read_command-ok :
      (me : NodeProfile) (root : Json) (action : Bytes)
      → (read_command api me root action).0 ≡ ok
      → IsAccepted me (read_command api me root action).1
  unfolding read_command read_fields
  read_command-ok me root [] h = absurd (cc h)
  read_command-ok me root (c ∷ cs) h =
      let (n, r) =
        check_target-ok me (copy_args_json api root).0
          (record (read_fields api root (c ∷ cs)) { args_json = (copy_args_json api root).1 }) h in
      record { has_action = λ e. cc e; for_node = n; for_role = r }

  read_root-ok :
      (me : NodeProfile) (root : Option Json)
      → (read_root api me root).0 ≡ ok
      → IsAccepted me (read_root api me root).1
  unfolding read_root
  read_root-ok me none h = absurd (cc h)
  read_root-ok me (some root) h =
      read_command-ok me root (or_empty (json_string api root (codes "action"))) h

  -- A command that the parser accepts has an action, and it is meant for this node: a target node or
  -- a target role that it names, as cut to the field's length, is this node's own.
  pub parse_command-IsAccepted :
      (me : NodeProfile) (payload : Bytes) (out : MeshCommand)
      → (parse_command api me payload out).0 ≡ ok
      → IsAccepted me (parse_command api me payload out).1
  unfolding parse_command
  parse_command-IsAccepted me [] out h = absurd (cc h)
  parse_command-IsAccepted me (b ∷ bs) out h = read_root-ok me (parse_object api (b ∷ bs)) h
