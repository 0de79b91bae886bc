-- ===== src/Mesh/Guardian.antt =====
-- main/sensors/sensor_mqtt.c: the Guardian's answer to a policy check.
use esp32_agent_mesh.Prelude.{
  if◌then◌else◌, Bytes, codes, str_eq, copy_field, is_empty, Bool, true, false, ◌||◌, Option, none,
  some, List, [], ◌∷◌,
}
use esp32_agent_mesh.Prelude.Int.{ℤ, ltb_ℤ}
use esp32_agent_mesh.Node.Profile.{NodeProfile}
use esp32_agent_mesh.Node.Roles.{role_sensor, role_control, role_is_guardian}
use esp32_agent_mesh.Mesh.Json.{JsonApi, parse_object, json_int, json_optional_string}
use esp32_agent_mesh.Mesh.Command.{
  mesh_id_max, mesh_node_max, mesh_role_max, mesh_action_max, mesh_trace_max, safety_medium,
}

unfoldable pub policy_is_sensor_action : Bytes → Bool
policy_is_sensor_action action = str_eq action (codes "read_temperature_humidity")

unfoldable pub policy_is_control_action : Bytes → Bool
policy_is_control_action action =
    str_eq action (codes "set_status_light")
    || str_eq action (codes "ws2812_set")
    || str_eq action (codes "servo_write")
    || str_eq action (codes "gpio_write")

-- The reasons, in the order of the code.
pub data Reason : Type 0 where
  missing_command_id missing_action needs_confirmation : Reason
  sensor_read sensor_elsewhere control_action control_elsewhere unsupported : Reason

-- `allowed`, which goes with the decision "allow".
abbrev pub allows : Reason → Bool
allows sensor_read = true
allows control_action = true
allows _ = false

-- The part of a policy check that the Guardian reads.
pub record PolicyCheck : Type 0 where
  pub command_id : Bytes
  pub trace_id : Bytes
  pub action : Bytes
  pub target_role : Bytes
  pub target_node : Bytes
  pub safety_level : ℤ

unfoldable pub policy_reason : PolicyCheck → Reason
policy_reason c =
    if is_empty c.command_id
    then missing_command_id
    else if is_empty c.action
    then missing_action
    else if ltb_ℤ safety_medium c.safety_level
    then needs_confirmation
    else if policy_is_sensor_action c.action
    then (if str_eq c.target_role role_sensor then sensor_read else sensor_elsewhere)
    else if policy_is_control_action c.action
    then (if str_eq c.target_role role_control then control_action else control_elsewhere)
    else unsupported

-- What the handler hands on: the decision on the two topics, and a note for the timeline.
pub data GuardianEffect : Type 0 where
  publishes : Bytes → Bytes → GuardianEffect
  notes : Reason → PolicyCheck → GuardianEffect

module _ (api : JsonApi) where
  open api use {Json}

  unfoldable pub read_policy_check : Json → PolicyCheck
  read_policy_check root = record {
    command_id = copy_field mesh_id_max (json_optional_string api root (codes "command_id"));
    trace_id = copy_field mesh_trace_max (json_optional_string api root (codes "trace_id"));
    action = copy_field mesh_action_max (json_optional_string api root (codes "action"));
    target_role = copy_field mesh_role_max (json_optional_string api root (codes "target_role"));
    target_node = copy_field mesh_node_max (json_optional_string api root (codes "target_node"));
    safety_level = json_int api root (codes "safety_level") safety_medium;
  }

  -- `encode` makes the decision's text with cJSON, or fails for want of memory; the topics are those
  -- of decisions and of this node's events.
  module _ (encode : Reason → PolicyCheck → Option Bytes)
      (decision_topic events_topic : Bytes) where
    unfoldable pub send_decision : Reason → PolicyCheck → Option Bytes → List GuardianEffect
    send_decision reason c none = []
    send_decision reason c (some json) =
        publishes decision_topic json ∷ publishes events_topic json ∷ notes reason c ∷ []

    unfoldable pub answer_root : Option Json → List GuardianEffect
    unfolding send_decision read_policy_check policy_reason
    answer_root none = []
    answer_root (some root) =
        let c = read_policy_check root in
        let reason = policy_reason c in send_decision reason c (encode reason c)

    unfoldable pub handle_guardian_policy_check : NodeProfile → Bytes → List GuardianEffect
    unfolding answer_root
    handle_guardian_policy_check me [] = []
    handle_guardian_policy_check me (b ∷ bs) =
        if role_is_guardian me then answer_root (parse_object api (b ∷ bs)) else []
