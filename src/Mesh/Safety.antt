-- ===== src/Mesh/Safety.antt =====
-- main/sensors/sensor_mqtt.c: a tool runs only on a command that the Guardian allowed.
use esp32_agent_mesh.Prelude.{
  Bool-cases, Option-cases, Bytes, codes, str_eq, str_eq_iff, copy_field, is_empty, EspErr, ok,
  fail, no_mem, invalid_arg, invalid_state, invalid_size, not_found, timeout, invalid_crc,
  invalid_response, is_ok, ok_of-is_ok, ◌≡◌, refl, ap, ◌≢◌, ◌⊎◌, inl, inr, Bool, true, false,
  Option, none, some, List, [], ◌∷◌, arith,
}
use esp32_agent_mesh.Prelude.Int.{◌≤ℤ◌, ltb_ℤ}
use esp32_agent_mesh.Node.Profile.{NodeProfile}
use esp32_agent_mesh.Node.Roles.{role_is_sensor, role_is_control}
use esp32_agent_mesh.Mesh.Json.{JsonApi, parse_object, json_optional_string}
use esp32_agent_mesh.Mesh.Command.{MeshCommand, safety_medium, no_command, is_for, parse_command}
use esp32_agent_mesh.Mesh.Decisions.{
  CachedDecision, PolicyCache, policy_json_size, decision_on, wait_polls, wait_policy_decision,
}
use esp32_agent_mesh.Mesh.Control.{
  ControlTool, MeshEffect, runs, decision_fits, root_allows, decision_allows, has_guardian_allow,
  handle_sensor, handle_control, act_on, handle_mesh_command,
}
use esp32_agent_mesh.Mesh.Accepted.{IsAccepted, parse_command-IsAccepted}

-- The tool runs among the effects.
abbrev pub tools_run : List MeshEffect → List (ControlTool × Bytes)
tools_run [] = []
tools_run (runs tool args ∷ es) = (tool, args) ∷ tools_run es
tools_run (_ ∷ es) = tools_run es

-- The poll in which a decision on the command was found.
abbrev pub IsCached : Bytes → List PolicyCache → Bytes → Type 0
IsCached command_id [] json = ⊥
IsCached command_id (c ∷ polls) json =
    ((item : CachedDecision) × (decision_on command_id c ≡ some item)
      × (copy_field policy_json_size item.decision_json ≡ json))
    ⊎ IsCached command_id polls json

module _ (api : JsonApi) where
  open api use {Json}

  -- A decision that allows the command: it says so, and its action, role and node are each empty or
  -- those of the command and of this node.
  pub record Allows (me : NodeProfile) (cmd : MeshCommand) (root : Json) : Type 0 where
    pub says_allow : json_optional_string api root (codes "decision") ≡ codes "allow"
    pub same_action : is_for (json_optional_string api root (codes "action")) cmd.action ≡ true
    pub same_role : is_for (json_optional_string api root (codes "target_role")) me.role ≡ true
    pub same_node : is_for (json_optional_string api root (codes "target_node")) me.id ≡ true

  -- What stands behind a run of a tool on a node.
  pub record IsLicensed (me : NodeProfile) (polls : List PolicyCache) (cmd : MeshCommand)
      : Type 0 where
    pub accepted : IsAccepted me cmd
    pub on_control : role_is_control me ≡ true
    pub is_named : cmd.command_id ≢ []
    pub is_safe : cmd.safety_level ≤ℤ safety_medium
    pub json : Bytes
    pub was_cached : IsCached cmd.command_id polls json
    pub root : Json
    pub is_parsed : parse_object api json ≡ some root
    pub allowed : Allows me cmd root

  decision_fits-Allows :
      (me : NodeProfile) (cmd : MeshCommand) (root : Json)
      → decision_fits api me cmd root ≡ true
      → Allows me cmd root
  unfolding decision_fits
  decision_fits-Allows me cmd root h = record {
    says_allow =
        (str_eq_iff (json_optional_string api root (codes "decision")) (codes "allow")).0
          (ground (arith, h));
    same_action = ground (arith, h);
    same_role = ground (arith, h);
    same_node = ground (arith, h);
  }

  root_allows-some :
      (me : NodeProfile) (cmd : MeshCommand) (parsed : Option Json)
      → root_allows api me cmd parsed ≡ true
      → (root : Json) × (parsed ≡ some root) × Allows me cmd root
  unfolding root_allows
  root_allows-some me cmd none h = absurd (cc h)
  root_allows-some me cmd (some root) h = (root, refl, decision_fits-Allows me cmd root h)

  decision_allows-some :
      (me : NodeProfile) (cmd : MeshCommand) (r : EspErr × Bytes)
      → decision_allows api me cmd r ≡ true
      → (json : Bytes) × (r ≡ (ok, json))
        × ((root : Json) × (parse_object api json ≡ some root) × Allows me cmd root)
  unfolding decision_allows
  decision_allows-some me cmd (ok, json) h =
      (json, refl, root_allows-some me cmd (parse_object api json) h)
  decision_allows-some me cmd (fail, json) h = absurd (cc h)
  decision_allows-some me cmd (no_mem, json) h = absurd (cc h)
  decision_allows-some me cmd (invalid_arg, json) h = absurd (cc h)
  decision_allows-some me cmd (invalid_state, json) h = absurd (cc h)
  decision_allows-some me cmd (invalid_size, json) h = absurd (cc h)
  decision_allows-some me cmd (not_found, json) h = absurd (cc h)
  decision_allows-some me cmd (timeout, json) h = absurd (cc h)
  decision_allows-some me cmd (invalid_crc, json) h = absurd (cc h)
  decision_allows-some me cmd (invalid_response, json) h = absurd (cc h)

wait_polls-ok :
    (command_id : Bytes) (polls : List PolicyCache) (json : Bytes)
    → wait_polls command_id policy_json_size polls ≡ (ok, json)
    → IsCached command_id polls json
unfolding wait_polls
wait_polls-ok command_id [] json h = absurd (cc h)
wait_polls-ok command_id (c ∷ polls) json h = elim (Option-cases (decision_on command_id c)) [
  | inl e ↦ inr (wait_polls-ok command_id polls json (ground (arith, h, e)))
  | inr (item, e) ↦ inl (item, e, ground (arith, h, e))
]

wait_policy_decision-ok :
    (made : Bool) (command_id : Bytes) (polls : List PolicyCache) (json : Bytes)
    → wait_policy_decision made command_id policy_json_size polls ≡ (ok, json)
    → IsCached command_id polls json
unfolding wait_policy_decision
wait_policy_decision-ok made [] polls json h = absurd (cc h)
wait_policy_decision-ok true (b ∷ bs) polls json h = wait_polls-ok (b ∷ bs) polls json h
wait_policy_decision-ok false (b ∷ bs) polls json h = absurd (cc h)

module _ (api : JsonApi) (sensor : EspErr) (execute : ControlTool → Bytes → EspErr)
    (me : NodeProfile) (made : Bool) (polls : List PolicyCache) where
  licence :
      (cmd : MeshCommand)
      → IsAccepted me cmd
      → role_is_control me ≡ true
      → has_guardian_allow api me made polls cmd ≡ true
      → ltb_ℤ safety_medium cmd.safety_level ≡ false
      → IsLicensed api me polls cmd
  unfolding has_guardian_allow
  licence cmd a r g s =
      let (json, waited, (root, parsed, allowed)) =
        decision_allows-some api me cmd
          (wait_policy_decision made cmd.command_id policy_json_size polls) (ground (arith, g)) in
      record {
        accepted = a;
        on_control = r;
        is_named = λ e. cc (ap is_empty e, g);
        is_safe = ground (arith, s);
        json = json;
        was_cached = wait_policy_decision-ok made cmd.command_id polls json waited;
        root = root;
        is_parsed = parsed;
        allowed = allowed;
      }

  handle_control-runs :
      (cmd : MeshCommand)
      → tools_run (handle_control api sensor execute me made polls cmd).1 ≢ []
      → (role_is_control me ≡ true)
        × (has_guardian_allow api me made polls cmd ≡ true)
        × (ltb_ℤ safety_medium cmd.safety_level ≡ false)
  unfolding handle_control
  handle_control-runs cmd h = elim (Bool-cases (role_is_control me)) [
    | inr r ↦ absurd (h (rw r))
    | inl r ↦ elim (Bool-cases (has_guardian_allow api me made polls cmd)) [
      | inr g ↦ absurd (h (rw (r, g)))
      | inl g ↦ elim (Bool-cases (ltb_ℤ safety_medium cmd.safety_level)) [
        | inl s ↦ absurd (h (rw (r, g, s)))
        | inr s ↦ (r, g, s)
      ]
    ]
  ]

  handle_sensor-runs :
      (cmd : MeshCommand) → tools_run (handle_sensor api sensor execute me cmd).1 ≡ []
  unfolding handle_sensor
  handle_sensor-runs cmd = elim (Bool-cases (role_is_sensor me)) [
    | inr r ↦ rw r
    | inl r ↦ elim (Bool-cases (str_eq cmd.action (codes "read_temperature_humidity"))) [
      | inl a ↦ rw (r, a)
      | inr a ↦ rw (r, a)
    ]
  ]

  act_on-runs :
      (cmd : MeshCommand)
      → tools_run (act_on api sensor execute me made polls cmd) ≢ []
      → tools_run (handle_control api sensor execute me made polls cmd).1 ≢ []
  unfolding act_on
  act_on-runs cmd h = elim (Bool-cases (handle_sensor api sensor execute me cmd).0) [
    | inl done ↦ absurd (h (rw done (handle_sensor-runs cmd)))
    | inr left ↦ rw left at h
  ]

  -- A node runs a tool on a payload only if it is a control node, the payload parses to a command
  -- for this node that has an id and is of medium safety or less, and a decision that allows this
  -- command was found in the cache under the command's id.
  pub handle_mesh_command-IsLicensed :
      (payload : Bytes)
      → tools_run (handle_mesh_command api sensor execute me made polls payload) ≢ []
      → IsLicensed api me polls (parse_command api me payload no_command).1
  unfolding handle_mesh_command
  handle_mesh_command-IsLicensed payload h =
      let (status, cmd) = parse_command api me payload no_command in
      elim (Bool-cases (is_ok status)) [
        | inr refused ↦ absurd (h (rw refused))
        | inl good ↦
            let (r, g, s) = handle_control-runs cmd (act_on-runs cmd (rw good at h)) in
            licence cmd
              (parse_command-IsAccepted api me payload no_command (ok_of-is_ok status good)) r g s
      ]
