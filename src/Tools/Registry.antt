-- ===== src/Tools/Registry.antt =====
-- main/tools/tool_registry.c: the table of the tools, and the tools that a coordinator sends to another
-- node instead of running them itself.
-- A tool by its name and what it does; its description and schema are for the model.
use esp32_agent_mesh.Prelude.{
  leb, if◌then◌else◌, length, find?, Bytes, codes, str_eq, EspErr, ok, no_mem, not_found, is_ok, ℕ,
  Bool, true, false, not, ◌&&◌, ◌||◌, Option, none, some, List, [], ◌∷◌, ◌++◌,
}
use esp32_agent_mesh.Prelude.Int.{ℤ, negsuc, eq_ℤ}
use esp32_agent_mesh.Node.Profile.{NodeProfile}
use esp32_agent_mesh.Node.Roles.{role_is_coordinator}
use esp32_agent_mesh.Mesh.Json.{JsonApi, parse_object}
use esp32_agent_mesh.Mesh.Rows.{text, tree}
use esp32_agent_mesh.Tools.MeshCommand.{input_error, Sent, SendWorld, send_command_execute}

pub record Tool (R : Type 0) : Type 0 where
  pub name : Bytes
  pub execute : Bytes → R

-- MAX_TOOLS
abbrev pub max_tools : ℕ
max_tools = 40

module _ {R : Type 0} where
  unfoldable pub register_tool : Tool R → List (Tool R) → List (Tool R)
  register_tool tool tools = if leb max_tools (length tools) then tools else tools ++ (tool ∷ [])

  -- None where no tool has the name.
  abbrev pub run_found : Bytes → Option (Tool R) → Option R
  run_found input_json none = none
  run_found input_json (some tool) = some (tool.execute input_json)

  unfoldable pub tool_registry_execute : List (Tool R) → Bytes → Bytes → Option R
  tool_registry_execute tools name input_json =
      run_found input_json (find? (λ t. str_eq t.name name) tools)

-- What becomes of a call: the mesh command tool's answer, or the local function, by its action, on
-- the input.
pub data Routed : Type 0 where
  via_mesh : Sent → Routed
  locally : Bytes → Bytes → Routed
  diagnostics : Bytes → Routed

-- The text that is parsed where none is given.
abbrev pub or_object : Bytes → Bytes
or_object [] = codes "{}"
or_object (b ∷ bs) = b ∷ bs

module _ (api : JsonApi) where
  open api use {Json, item, is_true}

  abbrev pub is_there : {A : Type 0} → Option A → Bool
  is_there none = false
  is_there (some a) = true

  unfoldable pub json_has_key : Json → Bytes → Bool
  json_has_key root key = is_there (item root key)

  unfoldable pub json_bool_value : Json → Bytes → Bool → Bool
  json_bool_value root key default_value = elim (item root key) [
    | none ↦ default_value
    | some v ↦ is_true v
  ]

  -- Whether the parsed input asks for the local tool.
  unfoldable pub asks_local : Option Json → Bool
  unfolding json_bool_value
  asks_local none = false
  asks_local (some root) = json_bool_value root (codes "local") false

  unfoldable pub has_diagnostics : Option Json → Bool
  unfolding json_has_key
  has_diagnostics none = false
  has_diagnostics (some root) =
      json_has_key root (codes "sda_gpio")
      || json_has_key root (codes "scl_gpio")
      || json_has_key root (codes "i2c_port")
      || json_has_key root (codes "scl_hz")
      || json_has_key root (codes "address")

  -- `without` is `cJSON_DeleteItemFromObject`.
  module _ (w : SendWorld Json) (without : Json → Bytes → Json) where
    abbrev pub args_or_empty : Option Json → Json
    args_or_empty none = w.empty
    args_or_empty (some args) = args

    unfoldable pub route_printed : Option Bytes → Sent
    route_printed none = record { status = no_mem; reply = input_error; effects = [] }
    route_printed (some payload) = send_command_execute api w payload

    unfoldable pub route_control_action_to_mesh : Bytes → Bytes → Sent
    unfolding route_printed
    route_control_action_to_mesh action input_json =
        let args = args_or_empty (parse_object api (or_object input_json)) in
        route_printed (
          w.print_row (
            (codes "target_role", text (codes "control_agent"))
            ∷ (codes "action", text action)
            ∷ (codes "args", tree (without args (codes "local")))
            ∷ []))

    unfoldable pub coordinator_control_or_local : NodeProfile → Bytes → Bytes → Routed
    unfolding route_control_action_to_mesh asks_local
    coordinator_control_or_local me action input_json =
        if role_is_coordinator me && not (asks_local (parse_object api (or_object input_json)))
        then via_mesh (route_control_action_to_mesh action input_json)
        else locally action input_json

    unfoldable pub tool_gpio_write_routed_execute : NodeProfile → Bytes → Routed
    unfolding coordinator_control_or_local
    tool_gpio_write_routed_execute me = coordinator_control_or_local me (codes "gpio_write")

    unfoldable pub tool_ws2812_set_routed_execute : NodeProfile → Bytes → Routed
    unfolding coordinator_control_or_local
    tool_ws2812_set_routed_execute me = coordinator_control_or_local me (codes "ws2812_set")

    unfoldable pub tool_set_status_light_routed_execute : NodeProfile → Bytes → Routed
    unfolding coordinator_control_or_local
    tool_set_status_light_routed_execute me =
        coordinator_control_or_local me (codes "set_status_light")

    unfoldable pub tool_servo_write_routed_execute : NodeProfile → Bytes → Routed
    unfolding coordinator_control_or_local
    tool_servo_write_routed_execute me = coordinator_control_or_local me (codes "servo_write")

    -- `locally` with the action is the read of the sensors of this board, `diagnostics` the read with
    -- the pins of the input.
    unfoldable pub tool_read_temperature_humidity_execute : NodeProfile → Bytes → Routed
    unfolding asks_local has_diagnostics
    tool_read_temperature_humidity_execute me input_json =
        let root = parse_object api (or_object input_json) in
        if role_is_coordinator me && not (asks_local root) && not (has_diagnostics root)
        then via_mesh (
            send_command_execute api w (
              codes
                "{\"target_role\":\"sensor_agent\",\"action\":\"read_temperature_humidity\",\"args\":{}}"))
        else if not (has_diagnostics root)
        then locally (codes "read_temperature_humidity") input_json
        else diagnostics input_json

-- What the environment tool gives for a read of this board: the two values in tenths, -1 where one
-- is missing.
unfoldable pub read_status : EspErr × ℤ × ℤ → EspErr
read_status (err, temperature_c_x10, humidity_percent_x10) =
    if is_ok err
      && not (eq_ℤ temperature_c_x10 (negsuc 0))
      && not (eq_ℤ humidity_percent_x10 (negsuc 0))
    then ok
    else if is_ok err
    then not_found
    else err
