-- ===== src/Mesh/Command.antt =====
-- main/mesh/mesh_protocol.c and mesh_types.h: topics, and the command that a payload holds. The text
-- that goes to `err_buf` is for the log and is left out.
use esp32_agent_mesh.Prelude.{
  ltb, ◌==◌, if◌then◌else◌, length, Bytes, codes, str_eq, copy_field, is_empty, EspErr, ok, no_mem,
  invalid_arg, not_found, is_ok, ℕ, Bool, true, false, not, ◌||◌, Option, none, some, [], ◌∷◌, ◌++◌,
}
use esp32_agent_mesh.Prelude.Int.{ℤ, pos}
use esp32_agent_mesh.Node.Profile.{NodeProfile}
use esp32_agent_mesh.Mesh.Json.{JsonApi, parse_object, json_string, json_int, json_bool}

pub record MeshCommand : Type 0 where
  pub command_id : Bytes
  pub trace_id : Bytes
  pub target_node : Bytes
  pub target_role : Bytes
  pub action : Bytes
  pub args_json : Bytes
  pub ttl_ms : ℤ
  pub safety_level : ℤ
  pub require_ack : Bool

abbrev pub mesh_id_max : ℕ
mesh_id_max = 40

abbrev pub mesh_node_max : ℕ
mesh_node_max = 32

abbrev pub mesh_role_max : ℕ
mesh_role_max = 32

abbrev pub mesh_action_max : ℕ
mesh_action_max = 32

abbrev pub mesh_trace_max : ℕ
mesh_trace_max = 48

abbrev pub mesh_args_json_max : ℕ
mesh_args_json_max = 256

-- ESPAGENT_MESH_SAFETY_MEDIUM
abbrev pub safety_medium : ℤ
safety_medium = pos 1

-- After `memset(out, 0, sizeof(*out))`.
abbrev pub no_command : MeshCommand
no_command = record {
  command_id = [];
  trace_id = [];
  target_node = [];
  target_role = [];
  action = [];
  args_json = [];
  ttl_ms = pos 0;
  safety_level = pos 0;
  require_ack = false;
}

-- `%s/<kind>/%s/%s`; `out` gets what fits in its `out_size` bytes.
unfoldable pub build_topic : Bytes → Bytes → Bytes → Bytes → ℕ → EspErr × Bytes
build_topic prefix kind name suffix out_size =
    if is_empty name || is_empty suffix || out_size == 0
    then (invalid_arg, [])
    else let text = prefix ++ (kind ++ (name ++ (codes "/" ++ suffix))) in
      (if ltb (length text) out_size then ok else no_mem, copy_field out_size text)

unfoldable pub build_node_topic : Bytes → Bytes → Bytes → ℕ → EspErr × Bytes
unfolding build_topic
build_node_topic prefix node_id suffix out_size =
    build_topic prefix (codes "/nodes/") node_id suffix out_size

unfoldable pub build_role_topic : Bytes → Bytes → Bytes → ℕ → EspErr × Bytes
unfolding build_topic
build_role_topic prefix role suffix out_size =
    build_topic prefix (codes "/roles/") role suffix out_size

abbrev pub or_empty : Option Bytes → Bytes
or_empty none = []
or_empty (some s) = s

-- A name that a command is meant for: none at all, or this node's.
abbrev pub is_for : Bytes → Bytes → Bool
is_for target own = is_empty target || str_eq target own

-- The status at the end of the parser.
unfoldable pub check_target : NodeProfile → EspErr → MeshCommand → EspErr
check_target me args_err cmd =
    if not (is_ok args_err)
    then args_err
    else if not (is_for cmd.target_node me.id)
    then not_found
    else if not (is_for cmd.target_role me.role)
    then not_found
    else ok

module _ (api : JsonApi) where
  open api use {Json, item, print}

  -- The arguments as printed, as an item, and as the code looks for them.
  unfoldable pub printed_args : Option Bytes → EspErr × Bytes
  printed_args none = (no_mem, [])
  printed_args (some printed) = (ok, copy_field mesh_args_json_max printed)

  unfoldable pub item_args : Option Json → EspErr × Bytes
  unfolding printed_args
  item_args none = (ok, copy_field mesh_args_json_max (codes "{}"))
  item_args (some args) = printed_args (print args)

  unfoldable pub found_args : Option Bytes → Option Json → EspErr × Bytes
  unfolding item_args
  found_args (some args_json) args = (ok, copy_field mesh_args_json_max args_json)
  found_args none args = item_args args

  unfoldable pub copy_args_json : Json → EspErr × Bytes
  unfolding found_args
  copy_args_json root =
      found_args (json_string api root (codes "args_json")) (item root (codes "args"))

  -- The fields that are read before the arguments.
  unfoldable pub read_fields : Json → Bytes → MeshCommand
  read_fields root action = record {
    command_id = copy_field mesh_id_max (or_empty (json_string api root (codes "command_id")));
    trace_id = copy_field mesh_trace_max (or_empty (json_string api root (codes "trace_id")));
    target_node = copy_field mesh_node_max (or_empty (json_string api root (codes "target_node")));
    target_role = copy_field mesh_role_max (or_empty (json_string api root (codes "target_role")));
    action = copy_field mesh_action_max action;
    args_json = [];
    ttl_ms = json_int api root (codes "ttl_ms") (pos 30000);
    safety_level = json_int api root (codes "safety_level") safety_medium;
    require_ack = json_bool api root (codes "require_ack") true;
  }

  unfoldable pub read_command : NodeProfile → Json → Bytes → EspErr × MeshCommand
  unfolding read_fields check_target copy_args_json
  read_command me root [] = (invalid_arg, no_command)
  read_command me root (c ∷ cs) =
      let (args_err, args_json) = copy_args_json root in
      let cmd = record (read_fields root (c ∷ cs)) { args_json = args_json } in
      (check_target me args_err cmd, cmd)

  -- On what parsing gave.
  unfoldable pub read_root : NodeProfile → Option Json → EspErr × MeshCommand
  unfolding read_command
  read_root me none = (invalid_arg, no_command)
  read_root me (some root) = read_command me root (or_empty (json_string api root (codes "action")))

  -- The status, and what is left in `out`. The payload is empty where `json` is null or `json_len` 0.
  unfoldable pub parse_command : NodeProfile → Bytes → MeshCommand → EspErr × MeshCommand
  unfolding read_root
  parse_command me [] out = (invalid_arg, out)
  parse_command me (b ∷ bs) out = read_root me (parse_object api (b ∷ bs))
