-- ===== src/Mesh/Granted.antt =====
-- main/sensors/sensor_mqtt.c: a command that the Guardian allowed is carried out.
use esp32_agent_mesh.Prelude.{
  Bool-cases, Bytes, codes, str_eq, str_eq_iff, copy_field, is_empty, EspErr, ok, ◌≡◌, refl, ap,
  ◌≢◌, inl, inr, true, false, none, some, List, [], ◌∷◌, arith,
}
use esp32_agent_mesh.Prelude.Int.{ltb_ℤ, leb_ℤ}
use esp32_agent_mesh.Node.Profile.{NodeProfile}
use esp32_agent_mesh.Node.Roles.{role_is_sensor, role_is_control}
use esp32_agent_mesh.Mesh.Json.{JsonApi, parse_object, json_optional_string}
use esp32_agent_mesh.Mesh.Command.{MeshCommand, safety_medium, no_command, parse_command}
use esp32_agent_mesh.Mesh.Decisions.{
  CachedDecision, PolicyCache, policy_json_size, decision_on, wait_polls, wait_policy_decision,
}
use esp32_agent_mesh.Mesh.Control.{
  ControlTool, control_tool, runs, replies, args_of, decision_fits, root_allows, decision_allows,
  has_guardian_allow, handle_sensor, run_control, handle_control, act_on, handle_mesh_command,
}
use esp32_agent_mesh.Mesh.Safety.{Allows}

module _ (api : JsonApi) (sensor : EspErr) (execute : ControlTool → Bytes → EspErr)
    (me : NodeProfile) (c : PolicyCache) (polls : List PolicyCache) where
  open api use {Json}

  -- A command that the first poll finds allowed, and that the node has a tool for.
  pub record IsGranted (cmd : MeshCommand) (tool : ControlTool) : Type 0 where
    pub on_control : role_is_control me ≡ true
    pub is_named : cmd.command_id ≢ []
    pub is_safe : leb_ℤ cmd.safety_level safety_medium ≡ true
    pub has_tool : control_tool cmd.action ≡ some tool
    pub item : CachedDecision
    pub is_cached : decision_on cmd.command_id c ≡ some item
    pub root : Json
    pub is_parsed : parse_object api (copy_field policy_json_size item.decision_json) ≡ some root
    pub allowed : Allows api me cmd root

  decision_fits-all :
      (cmd : MeshCommand) (root : Json)
      → Allows api me cmd root
      → decision_fits api me cmd root ≡ true
  unfolding decision_fits
  decision_fits-all cmd root a =
      let allow : str_eq (json_optional_string api root (codes "decision")) (codes "allow") ≡ true =
        (str_eq_iff (json_optional_string api root (codes "decision")) (codes "allow")).1
          a.says_allow in
      ground (arith, allow, a.same_action, a.same_role, a.same_node)

  named : (command_id : Bytes) → command_id ≢ [] → is_empty command_id ≡ false
  named [] h = absurd (h refl)
  named (b ∷ bs) h = refl

  first_poll :
      (command_id : Bytes) (item : CachedDecision)
      → decision_on command_id c ≡ some item
      → wait_polls command_id policy_json_size (c ∷ polls)
        ≡ (ok, copy_field policy_json_size item.decision_json)
  unfolding wait_polls
  first_poll command_id item h = rw (h, wait_polls)

  granted_allow :
      (cmd : MeshCommand) (tool : ControlTool)
      → IsGranted cmd tool
      → has_guardian_allow api me true (c ∷ polls) cmd ≡ true
  unfolding has_guardian_allow wait_policy_decision decision_allows root_allows
  granted_allow cmd tool g =
      let n = named cmd.command_id g.is_named in
      let fits = decision_fits-all cmd g.root g.allowed in
      rw (n, first_poll cmd.command_id g.item g.is_cached, g.is_parsed) fits

  read_no_tool : control_tool (codes "read_temperature_humidity") ≡ none
  unfolding control_tool str_eq
  read_no_tool = refl

  not_sensor :
      (cmd : MeshCommand) (tool : ControlTool)
      → control_tool cmd.action ≡ some tool
      → (handle_sensor api sensor execute me cmd).0 ≡ false
  unfolding handle_sensor
  not_sensor cmd tool h =
      let read = codes "read_temperature_humidity" in
      elim (Bool-cases (str_eq cmd.action read)) [
        | inl same ↦
            let e = (str_eq_iff cmd.action read).0 same in
            absurd (cc (ap control_tool e, read_no_tool, h))
        | inr other ↦ elim (Bool-cases (role_is_sensor me)) [ inl r ↦ rw (r, other) | inr r ↦ rw r ]
      ]

  granted_control :
      (cmd : MeshCommand) (tool : ControlTool)
      → IsGranted cmd tool
      → handle_control api sensor execute me true (c ∷ polls) cmd
        ≡ (true, runs tool (args_of cmd) ∷ replies cmd (execute tool (args_of cmd)) ∷ [])
  unfolding handle_control run_control
  granted_control cmd tool g =
      let safe : ltb_ℤ safety_medium cmd.safety_level ≡ false = ground (arith, g.is_safe) in
      rw (g.on_control, granted_allow cmd tool g, safe, g.has_tool)

  -- On a control node, a payload that parses to a command for the node with an id, of medium safety
  -- or less, and with a known action, and for whose id the cache holds a decision that allows it at
  -- the first poll, runs exactly the action's tool on the command's arguments and reports the
  -- outcome. The mutex of the cache is taken to be there.
  pub handle_mesh_command-granted :
      (payload : Bytes) (tool : ControlTool)
      → (parse_command api me payload no_command).0 ≡ ok
      → IsGranted (parse_command api me payload no_command).1 tool
      → let cmd = (parse_command api me payload no_command).1 in
        handle_mesh_command api sensor execute me true (c ∷ polls) payload
        ≡ runs tool (args_of cmd) ∷ replies cmd (execute tool (args_of cmd)) ∷ []
  unfolding handle_mesh_command act_on
  handle_mesh_command-granted payload tool h g =
      let cmd = (parse_command api me payload no_command).1 in
      rw (h, not_sensor cmd tool g.has_tool, granted_control cmd tool g)
