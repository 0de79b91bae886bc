-- ===== src/Mesh/Control.antt =====
-- main/sensors/sensor_mqtt.c: what a node does with a command that the broker delivers. The texts of
-- results and reasons are left out.
use esp32_agent_mesh.Prelude.{
  if◌then◌else◌, Bytes, codes, str_eq, is_empty, EspErr, ok, invalid_arg, invalid_state, is_ok,
  Bool, true, false, not, ◌&&◌, Option, none, some, List, [], ◌∷◌,
}
use esp32_agent_mesh.Prelude.Int.{ltb_ℤ}
use esp32_agent_mesh.Node.Profile.{NodeProfile}
use esp32_agent_mesh.Node.Roles.{role_is_sensor, role_is_control}
use esp32_agent_mesh.Mesh.Json.{JsonApi, parse_object, json_optional_string}
use esp32_agent_mesh.Mesh.Command.{MeshCommand, safety_medium, no_command, parse_command}
use esp32_agent_mesh.Mesh.Decisions.{PolicyCache, policy_json_size, wait_policy_decision}

-- The tools that a control node runs, by their actions.
pub data ControlTool : Type 0 where
  status_light ws2812 servo gpio : ControlTool

unfoldable pub control_tool : Bytes → Option ControlTool
control_tool action =
    if str_eq action (codes "set_status_light")
    then some status_light
    else if str_eq action (codes "ws2812_set")
    then some ws2812
    else if str_eq action (codes "servo_write")
    then some servo
    else if str_eq action (codes "gpio_write")
    then some gpio
    else none

-- What a handler does, in order: a read of the sensor, a run of a tool on its arguments, a result
-- published for the command.
pub data MeshEffect : Type 0 where
  reads_sensor : MeshEffect
  runs : ControlTool → Bytes → MeshEffect
  replies : MeshCommand → EspErr → MeshEffect

abbrev pub args_of : MeshCommand → Bytes
args_of cmd = if is_empty cmd.args_json then codes "{}" else cmd.args_json

module _ (api : JsonApi) where
  open api use {Json}

  -- The fields of a decision against a command. An empty field of the decision fits any command.
  unfoldable pub decision_fits : NodeProfile → MeshCommand → Json → Bool
  decision_fits me cmd root =
      let decision = json_optional_string api root (codes "decision") in
      let action = json_optional_string api root (codes "action") in
      let target_role = json_optional_string api root (codes "target_role") in
      let target_node = json_optional_string api root (codes "target_node") in
      let allowed = str_eq decision (codes "allow") in
      if allowed && not (is_empty action) && not (str_eq action cmd.action)
      then false
      else if allowed && not (is_empty target_role) && not (str_eq target_role me.role)
      then false
      else if allowed && not (is_empty target_node) && not (str_eq target_node me.id)
      then false
      else allowed

  unfoldable pub root_allows : NodeProfile → MeshCommand → Option Json → Bool
  unfolding decision_fits
  root_allows me cmd none = false
  root_allows me cmd (some root) = decision_fits me cmd root

  -- On the decision's text, as far as one came.
  unfoldable pub decision_allows : NodeProfile → MeshCommand → EspErr × Bytes → Bool
  unfolding root_allows
  decision_allows me cmd (ok, decision_json) = root_allows me cmd (parse_object api decision_json)
  decision_allows me cmd _ = false

  unfoldable pub has_guardian_allow : NodeProfile → Bool → List PolicyCache → MeshCommand → Bool
  unfolding decision_allows wait_policy_decision
  has_guardian_allow me made polls cmd =
      if is_empty cmd.command_id
      then false
      else decision_allows me cmd (wait_policy_decision made cmd.command_id policy_json_size polls)

  -- `sensor` is what the read of the sensor comes to, `execute` what a tool comes to.
  module _ (sensor : EspErr) (execute : ControlTool → Bytes → EspErr) where
    -- Whether the command is dealt with, and what is done.
    unfoldable pub handle_sensor : NodeProfile → MeshCommand → Bool × List MeshEffect
    handle_sensor me cmd =
        if not (role_is_sensor me)
        then (false, [])
        else if not (str_eq cmd.action (codes "read_temperature_humidity"))
        then (false, [])
        else (true, reads_sensor ∷ replies cmd sensor ∷ [])

    unfoldable pub run_control : MeshCommand → Option ControlTool → Bool × List MeshEffect
    run_control cmd none = (false, [])
    run_control cmd (some tool) =
        (true, runs tool (args_of cmd) ∷ replies cmd (execute tool (args_of cmd)) ∷ [])

    unfoldable pub handle_control :
        NodeProfile → Bool → List PolicyCache → MeshCommand → Bool × List MeshEffect
    unfolding has_guardian_allow control_tool run_control
    handle_control me made polls cmd =
        if not (role_is_control me)
        then (false, [])
        else if not (has_guardian_allow me made polls cmd)
        then (true, replies cmd invalid_state ∷ [])
        else if ltb_ℤ safety_medium cmd.safety_level
        then (true, replies cmd invalid_arg ∷ [])
        else run_control cmd (control_tool cmd.action)

    unfoldable pub act_on : NodeProfile → Bool → List PolicyCache → MeshCommand → List MeshEffect
    unfolding handle_sensor handle_control
    act_on me made polls cmd =
        if (handle_sensor me cmd).0
        then (handle_sensor me cmd).1
        else (handle_control me made polls cmd).1

    unfoldable pub handle_mesh_command :
        NodeProfile → Bool → List PolicyCache → Bytes → List MeshEffect
    unfolding act_on parse_command
    handle_mesh_command me made polls payload =
        let (parse_err, cmd) = parse_command api me payload no_command in
        if is_ok parse_err then act_on me made polls cmd else []
