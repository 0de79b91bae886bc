-- ===== src/Automation/Steps.antt =====
-- main/automation/automation_engine.c: a step of a workflow or a branch of a rule, as it is read from
-- JSON, and as it is sent as a mesh command.
use esp32_agent_mesh.Prelude.{
  if◌then◌else◌, Bytes, codes, str_eq, copy_field, is_empty, no_mem, ℕ, ◌-◌, ◌%◌, ◌^◌, Bool, true,
  false, ◌||◌, Option, none, some, [], ◌∷◌,
}
use esp32_agent_mesh.Prelude.Int.{ℤ, pos, negsuc}
use esp32_agent_mesh.Mesh.Json.{JsonApi, parse_object, int_in, json_string}
use esp32_agent_mesh.Mesh.Rows.{Value, text, number, truth, tree, Row, add_unless_empty}
use esp32_agent_mesh.Mesh.Command.{mesh_node_max, mesh_role_max, mesh_action_max}
use esp32_agent_mesh.Tools.MeshCommand.{input_error, Sent, SendWorld, send_command_execute}

pub record AutomationStep : Type 0 where
  pub action : Bytes
  pub target_role : Bytes
  pub target_node : Bytes
  pub args_json : Bytes
  pub delay_ms : ℕ

-- After `memset`.
abbrev pub no_step : AutomationStep
no_step = record { action = []; target_role = []; target_node = []; args_json = []; delay_ms = 0 }

-- The cast of an `int` to `uint32_t`.
unfoldable pub to_uint32 : ℤ → ℕ
to_uint32 (pos n) = n % 2 ^ 32
to_uint32 (negsuc n) = 2 ^ 32 - 1 - n % 2 ^ 32

-- The fallback may be a null pointer.
unfoldable pub default_role_for_action : Bytes → Option Bytes → Option Bytes
default_role_for_action action fallback =
    if str_eq action (codes "read_temperature_humidity")
    then some (codes "sensor_agent")
    else if str_eq action (codes "set_status_light")
        || str_eq action (codes "ws2812_set")
        || str_eq action (codes "servo_write")
        || str_eq action (codes "gpio_write")
    then some (codes "control_agent")
    else fallback

module _ (api : JsonApi) where
  open api use {Json, is_object, item, string_value, int_value, is_true, print}

  -- Whether there is a string, and what `out` holds after that. `out_size` is positive.
  unfoldable pub copied_string : Option Bytes → Bytes → ℕ → Bool × Bytes
  copied_string none out out_size = (false, out)
  copied_string (some s) out out_size = (true, copy_field out_size s)

  unfoldable pub json_get_string : Json → Bytes → Bytes → ℕ → Bool × Bytes
  unfolding copied_string
  json_get_string root key out out_size = copied_string (json_string api root key) out out_size

  unfoldable pub json_get_int : Json → Bytes → ℤ → ℤ
  json_get_int root key default_value = elim (int_in api (item root key)) [
    | none ↦ default_value
    | some n ↦ n
  ]

  unfoldable pub json_get_bool : Json → Bytes → Bool → Bool
  json_get_bool root key default_value = elim (item root key) [
    | none ↦ default_value
    | some v ↦ is_true v
  ]

  unfoldable pub json_copy_object_string : Json → Bytes → Bytes → ℕ → Bytes
  unfolding copied_string
  json_copy_object_string obj key out out_size =
      (copied_string (json_string api obj key) out out_size).1

  -- The role that is given, or the one for the action.
  unfoldable pub filled_role : Bytes → Option Bytes → Bytes → Bytes
  unfolding default_role_for_action
  filled_role action default_role [] = elim (default_role_for_action action default_role) [
    | none ↦ []
    | some role ↦ copy_field mesh_role_max role
  ]
  filled_role action default_role (b ∷ bs) = b ∷ bs

  unfoldable pub printed_step_args : Option Bytes → Bytes
  printed_step_args none = []
  printed_step_args (some json) = copy_field 320 json

  -- On the item "args".
  unfoldable pub filled_args : Json → Option Json → Bytes
  unfolding printed_step_args json_copy_object_string
  filled_args obj none = json_copy_object_string obj (codes "args_json") [] 320
  filled_args obj (some args) =
      if is_object args
      then printed_step_args (print args)
      else json_copy_object_string obj (codes "args_json") [] 320

  unfoldable pub fill_step : Json → Option Bytes → AutomationStep
  unfolding filled_role filled_args json_get_int to_uint32
  fill_step obj default_role =
      let action = json_copy_object_string obj (codes "action") [] mesh_action_max in
      let role = json_copy_object_string obj (codes "target_role") [] mesh_role_max in
      record {
        action = action;
        target_role = filled_role action default_role role;
        target_node = json_copy_object_string obj (codes "target_node") [] mesh_node_max;
        args_json = filled_args obj (item obj (codes "args"));
        delay_ms = to_uint32 (json_get_int obj (codes "delay_ms") (pos 0));
      }

  unfoldable pub fill_step_from_json : Option Json → Option Bytes → AutomationStep
  unfolding fill_step
  fill_step_from_json none default_role = no_step
  fill_step_from_json (some obj) default_role =
      if is_object obj then fill_step obj default_role else no_step

  -- The arguments as a tree where they parse as an object, else as a text.
  unfoldable pub args_value : Bytes → Option Json → Bytes × Value Json
  args_value args_json none = (codes "args_json", text args_json)
  args_value args_json (some args) = (codes "args", tree args)

  unfoldable pub add_args : Bytes → Row Json → Row Json
  unfolding args_value
  add_args [] row = row
  add_args (b ∷ bs) row = args_value (b ∷ bs) (parse_object api (b ∷ bs)) ∷ row

  -- As it is saved with a rule.
  unfoldable pub step_to_json : AutomationStep → Row Json
  unfolding add_args
  step_to_json step =
      (codes "action", text step.action)
      ∷ (codes "target_role", text step.target_role)
      ∷ add_unless_empty (codes "target_node") step.target_node
          (add_args step.args_json ((codes "delay_ms", number (pos step.delay_ms)) ∷ []))

  -- As the input of the mesh command tool.
  unfoldable pub step_payload : Json → AutomationStep → Row Json
  unfolding add_args
  step_payload empty step =
      (codes "action", text step.action)
      ∷ add_unless_empty (codes "target_role") step.target_role (
          add_unless_empty (codes "target_node") step.target_node (
            (codes "async", truth false)
            ∷ (codes "safety_level", number (pos 1))
            ∷ (codes "ttl_ms", number (pos 30000))
            ∷ (codes "require_ack", truth true)
            ∷ (if is_empty step.args_json
                then (codes "args", tree empty) ∷ []
                else add_args step.args_json [])))

  unfoldable pub execute_printed : SendWorld Json → Option Bytes → Sent
  execute_printed w none = record { status = no_mem; reply = input_error; effects = [] }
  execute_printed w (some json) = send_command_execute api w json

  unfoldable pub step_execute_mesh : SendWorld Json → AutomationStep → Sent
  unfolding execute_printed step_payload
  step_execute_mesh w step = execute_printed w (w.print_row (step_payload w.empty step))
