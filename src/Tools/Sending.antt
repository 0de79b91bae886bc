-- ===== src/Tools/Sending.antt =====
-- main/tools/tool_mesh_command.c: the request for a command to another node, as it is read from the
-- tool's input, checked, and written into the command that is to be sent.
-- The role of a sensor node for a reading, of a control node for an output, where no target is named.
use esp32_agent_mesh.Prelude.{
  if◌then◌else◌, Bytes, codes, str_eq, copy_field, is_empty, EspErr, ok, invalid_arg, Attempt, done,
  failed, ◌>>=◌, ◌>>◌, refuse, ℕ, Bool, true, not, ◌&&◌, ◌||◌, Option, none, some, [], ◌∷◌, ◌++◌,
}
use esp32_agent_mesh.Prelude.Int.{ℤ, pos, ltb_ℤ}
use esp32_agent_mesh.Node.Roles.{role_sensor, role_control}
use esp32_agent_mesh.Mesh.Json.{JsonApi, json_int, json_bool, json_optional_string}
use esp32_agent_mesh.Mesh.Rows.{text, number, truth, tree, Row, add_unless_empty}
use esp32_agent_mesh.Mesh.Command.{
  mesh_id_max, mesh_node_max, mesh_role_max, mesh_trace_max, build_node_topic, build_role_topic,
}

unfoldable pub is_control_action : Bytes → Bool
is_control_action action =
    str_eq action (codes "set_status_light")
    || str_eq action (codes "ws2812_set")
    || str_eq action (codes "servo_write")
    || str_eq action (codes "gpio_write")

unfoldable pub is_sensor_action : Bytes → Bool
is_sensor_action action = str_eq action (codes "read_temperature_humidity")

unfoldable pub is_allowed_mesh_action : Bytes → Bool
unfolding is_sensor_action is_control_action
is_allowed_mesh_action action = is_sensor_action action || is_control_action action

unfoldable pub defaulted_role : Bytes → Bytes → Bytes → Bytes
unfolding is_control_action
defaulted_role action node role =
    if is_empty node && is_empty role && str_eq action (codes "read_temperature_humidity")
    then role_sensor
    else if is_empty node && is_empty role && is_control_action action
    then role_control
    else role

-- A role that is named and is not the one that does the action.
unfoldable pub is_wrong_role : Bytes → Bytes → Bool
unfolding is_sensor_action is_control_action
is_wrong_role action role =
    not (is_empty role)
    && ((is_sensor_action action && not (str_eq role role_sensor))
        || (is_control_action action && not (str_eq role role_control)))

-- The role that the command goes to.
unfoldable pub check_request : Bytes → Bytes → Bytes → Attempt Bytes
unfolding is_allowed_mesh_action defaulted_role is_wrong_role
check_request action node role = do
  refuse (is_empty action) invalid_arg
  refuse (not (is_allowed_mesh_action action)) invalid_arg
  let role' = defaulted_role action node role
  refuse (is_empty node && is_empty role') invalid_arg
  refuse (is_wrong_role action role') invalid_arg
  done role'

abbrev pub command_topic_size : ℕ
command_topic_size = 160

unfoldable pub command_topic : Bytes → Bytes → Bytes → EspErr × Bytes
unfolding build_node_topic build_role_topic
command_topic prefix node role =
    if not (is_empty node)
    then build_node_topic prefix node (codes "command") command_topic_size
    else build_role_topic prefix role (codes "command") command_topic_size

-- On the status of a topic.
abbrev pub or_failed : EspErr × Bytes → Attempt Bytes
or_failed (ok, topic) = done topic
or_failed (e, topic) = failed e

unfoldable pub clamp_ttl : ℤ → ℤ
clamp_ttl ttl_ms =
    if ltb_ℤ ttl_ms (pos 1000)
    then pos 1000
    else if ltb_ℤ (pos 30000) ttl_ms
    then pos 30000
    else ttl_ms

-- ESPAGENT_MESH_SAFETY_LOW and ESPAGENT_MESH_SAFETY_HIGH.
abbrev pub is_safety_level : ℤ → Bool
is_safety_level level = not (ltb_ℤ level (pos 0) || ltb_ℤ (pos 2) level)

-- An id that is given, or one that is made.
abbrev pub given_or : Bytes → Bytes → Bytes
given_or [] made = made
given_or (b ∷ bs) made = b ∷ bs

-- What is to be sent, with what is needed to wait for the result.
pub record Outgoing (J : Type 0) : Type 0 where
  pub topic : Bytes
  pub command_id : Bytes
  pub trace_id : Bytes
  pub target_role : Bytes
  pub target_node : Bytes
  pub action : Bytes
  pub ttl_ms : ℤ
  pub safety_level : ℤ
  pub require_ack : Bool
  pub async_wait : Bool
  pub reply_channel : Bytes
  pub reply_chat_id : Bytes
  pub args : J

module _ (api : JsonApi) where
  open api use {Json, parse, item}

  -- `empty` is what `cJSON_CreateObject` makes.
  unfoldable pub found_args_tree : Json → Option Json → Attempt Json
  found_args_tree empty none = done empty
  found_args_tree empty (some args) = done args

  unfoldable pub parsed_args : Option Json → Attempt Json
  parsed_args none = failed invalid_arg
  parsed_args (some args) = done args

  unfoldable pub copy_args : Json → Json → Bytes → Attempt Json
  unfolding found_args_tree parsed_args
  copy_args empty root [] = found_args_tree empty (item root (codes "args"))
  copy_args empty root (b ∷ bs) = parsed_args (parse (b ∷ bs))

  -- `made_id` is the text "cmd-<ms since start>". A field that is not there reads as an empty one.
  unfoldable pub outgoing : Bytes → Json → Bytes → Bytes → Json → Outgoing Json
  unfolding clamp_ttl
  outgoing made_id root role topic args =
      let get = json_optional_string api root in
      let command_id = copy_field mesh_id_max (given_or (get (codes "command_id")) made_id) in
      let made_trace = copy_field mesh_trace_max (codes "trace-" ++ command_id) in
      record {
        topic = topic;
        command_id = command_id;
        trace_id = copy_field mesh_trace_max (given_or (get (codes "trace_id")) made_trace);
        target_role = copy_field mesh_role_max role;
        target_node = copy_field mesh_node_max (get (codes "target_node"));
        action = get (codes "action");
        ttl_ms = clamp_ttl (json_int api root (codes "ttl_ms") (pos 30000));
        safety_level = json_int api root (codes "safety_level") (pos 1);
        require_ack = json_bool api root (codes "require_ack") true;
        async_wait = json_bool api root (codes "async") true;
        reply_channel = copy_field 16 (get (codes "reply_channel"));
        reply_chat_id = copy_field 96 (get (codes "reply_chat_id"));
        args = args;
      }

  unfoldable pub read_request : Bytes → Json → Bytes → Json → Attempt (Outgoing Json)
  unfolding check_request command_topic copy_args outgoing
  read_request prefix empty made_id root = do
    let get = json_optional_string api root
    let node = get (codes "target_node")
    role ← check_request (get (codes "action")) node (get (codes "target_role"))
    let node' = copy_field mesh_node_max node
    topic ← or_failed (command_topic prefix node' (copy_field mesh_role_max role))
    refuse (not (is_safety_level (json_int api root (codes "safety_level") (pos 1)))) invalid_arg
    args ← copy_args empty root (get (codes "args_json"))
    done (outgoing made_id root role topic args)

  unfoldable pub read_input : Bytes → Json → Bytes → Option Json → Attempt (Outgoing Json)
  unfolding read_request
  read_input prefix empty made_id none = failed invalid_arg
  read_input prefix empty made_id (some root) = read_request prefix empty made_id root

  -- The command's keys, in the order in which they are added.
  unfoldable pub command_row : Outgoing Json → Row Json
  command_row o =
      (codes "command_id", text o.command_id)
      ∷ (codes "trace_id", text o.trace_id)
      ∷ add_unless_empty (codes "target_node") o.target_node (
          add_unless_empty (codes "target_role") o.target_role (
            (codes "action", text o.action)
            ∷ (codes "ttl_ms", number o.ttl_ms)
            ∷ (codes "safety_level", number o.safety_level)
            ∷ (codes "require_ack", truth o.require_ack)
            ∷ (codes "args", tree o.args)
            ∷ []))

  unfoldable pub policy_row : ℕ → Outgoing Json → Row Json
  policy_row ts_ms o =
      (codes "schema", text (codes "espagent.policy_check.v1"))
      ∷ (codes "event", text (codes "policy_check"))
      ∷ (codes "command_id", text o.command_id)
      ∷ (codes "trace_id", text o.trace_id)
      ∷ (codes "source_role", text (codes "coordinator_agent"))
      ∷ (codes "target_role", text o.target_role)
      ∷ (codes "target_node", text o.target_node)
      ∷ (codes "action", text o.action)
      ∷ (codes "safety_level", number o.safety_level)
      ∷ (codes "ttl_ms", number o.ttl_ms)
      ∷ (codes "ts_ms", number (pos ts_ms))
      ∷ []
