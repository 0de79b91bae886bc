-- ===== src/Tools/Asked.antt =====
-- main/tools/tool_mesh_command.c and main/sensors/sensor_mqtt.c: what the Guardian and the target node
-- make of the texts that the tool sends.
use esp32_agent_mesh.Prelude.{
  Bool-cases, Bytes, codes, str_eq, str_eq_iff, str_eq_refl, same_name, copy_field, is_empty, done,
  ℕ, ◌≡◌, refl, ap, ◌∙◌, ◌⊎◌, inl, inr, true, false, not, ◌&&◌, Option, some, [], ◌∷◌, arith,
}
use esp32_agent_mesh.Prelude.Int.{leb_ℤ}
use esp32_agent_mesh.Node.Roles.{role_sensor, role_control}
use esp32_agent_mesh.Mesh.Json.{JsonApi, json_optional_string}
use esp32_agent_mesh.Mesh.Rows.{
  text, number, Row, find_value, small-IsInt, IsRead, json_string-text, json_int-number,
}
use esp32_agent_mesh.Mesh.Command.{
  mesh_id_max, mesh_node_max, mesh_role_max, mesh_action_max, mesh_trace_max, safety_medium,
}
use esp32_agent_mesh.Mesh.Guardian.{
  policy_is_sensor_action, policy_is_control_action, allows, PolicyCheck, policy_reason,
  read_policy_check,
}
use esp32_agent_mesh.Tools.Sending.{is_control_action, Outgoing, read_input, policy_row}
use esp32_agent_mesh.Tools.Requests.{FitsRole, IsSendable, read_input-IsSendable}

eq_of : (a b : Bytes) → str_eq a b ≡ true → a ≡ b
eq_of a b h = (str_eq_iff a b).0 h

control-copy :
    (action : Bytes) → is_control_action action ≡ true → copy_field mesh_action_max action ≡ action
unfolding is_control_action
control-copy action h = elim (Bool-cases (str_eq action (codes "set_status_light"))) [
  | inl e ↦ rw (eq_of action (codes "set_status_light") e)
  | inr n ↦ elim (Bool-cases (str_eq action (codes "ws2812_set"))) [
    | inl e ↦ rw (eq_of action (codes "ws2812_set") e)
    | inr m ↦ elim (Bool-cases (str_eq action (codes "servo_write"))) [
      | inl e ↦ rw (eq_of action (codes "servo_write") e)
      | inr k ↦ rw (eq_of action (codes "gpio_write") (ground (arith, h, n, m, k)))
    ]
  ]
]

pub FitsRole-action :
    (action role : Bytes) → FitsRole action role → copy_field mesh_action_max action ≡ action
FitsRole-action action role (inl (e, r)) = rw e
FitsRole-action action role (inr (c, r)) = control-copy action c

pub FitsRole-role :
    (action role : Bytes) → FitsRole action role → copy_field mesh_role_max role ≡ role
FitsRole-role action role (inl (a, inl e)) = rw e
FitsRole-role action role (inl (a, inr e)) = rw e
FitsRole-role action role (inr (a, inl e)) = rw e
FitsRole-role action role (inr (a, inr e)) = rw e

-- The check that the Guardian reads.
abbrev check_of : {J : Type 0} → Outgoing J → PolicyCheck
check_of o = record {
  command_id = o.command_id;
  trace_id = o.trace_id;
  action = o.action;
  target_role = o.target_role;
  target_node = o.target_node;
  safety_level = o.safety_level;
}

same_actions : (action : Bytes) → policy_is_control_action action ≡ is_control_action action
unfolding policy_is_control_action is_control_action
same_actions action = refl

control-is_sensor_action :
    (action : Bytes) → is_control_action action ≡ true → policy_is_sensor_action action ≡ false
unfolding is_control_action policy_is_sensor_action
control-is_sensor_action action h =
    elim (Bool-cases (str_eq action (codes "read_temperature_humidity"))) [
      | inl e ↦ absurd (cc (h, reads e))
      | inr n ↦ n
    ]
  where
    reads :
        str_eq action (codes "read_temperature_humidity") ≡ true → is_control_action action ≡ false
    reads e = rw (eq_of action (codes "read_temperature_humidity") e) (unfold str_eq in refl)

-- What the role's tests come to.
role-tests :
    (role wanted : Bytes)
    → is_empty wanted ≡ false
    → (role ≡ []) ⊎ (role ≡ wanted)
    → str_eq role wanted ≡ not (is_empty role)
role-tests role [] w h = absurd (cc w)
role-tests role (b ∷ bs) w (inl e) = rw e (unfold str_eq in refl)
role-tests role (b ∷ bs) w (inr e) = rw e (str_eq_refl (b ∷ bs))

policy_reason-fits :
    (c : PolicyCheck)
    → is_empty c.command_id ≡ false
    → is_empty c.action ≡ false
    → FitsRole c.action c.target_role
    → allows (policy_reason c)
      ≡ (leb_ℤ c.safety_level safety_medium && not (is_empty c.target_role))
unfolding policy_reason
policy_reason-fits c named acts (inl (e, r)) =
    let sensor : policy_is_sensor_action c.action ≡ true =
      rw e (unfold policy_is_sensor_action in unfold str_eq in refl) in
    let fits = role-tests c.target_role role_sensor refl r in
    ground (arith, named, acts, sensor, fits)
policy_reason-fits c named acts (inr (e, r)) =
    let other = control-is_sensor_action c.action e in
    let control = same_actions c.action ∙ e in
    let fits = role-tests c.target_role role_control refl r in
    ground (arith, named, acts, other, control, fits)

pub FitsRole-is_empty : (action role : Bytes) → FitsRole action role → is_empty action ≡ false
FitsRole-is_empty action role (inl (e, r)) = rw e
FitsRole-is_empty [] role (inr (e, r)) = absurd (cc (e, nothing))
  where
    nothing : is_control_action [] ≡ false
    nothing = unfold is_control_action in unfold str_eq in refl
FitsRole-is_empty (b ∷ bs) role (inr (e, r)) = refl

module _ (api : JsonApi) where
  json_optional_string-text :
      (row : Row api.Json) (printed : Bytes) (r : IsRead api row printed) (key s : Bytes)
      → find_value row key ≡ some (text s)
      → json_optional_string api r.root key ≡ s
  unfolding json_optional_string
  json_optional_string-text row printed r key s e =
      rw (json_optional_string, json_string-text api row printed r key s e)

  policy_values :
      (ts_ms : ℕ) (o : Outgoing api.Json)
      → (find_value (policy_row api ts_ms o) (codes "command_id") ≡ some (text o.command_id))
        × (find_value (policy_row api ts_ms o) (codes "trace_id") ≡ some (text o.trace_id))
        × (find_value (policy_row api ts_ms o) (codes "action") ≡ some (text o.action))
        × (find_value (policy_row api ts_ms o) (codes "target_role") ≡ some (text o.target_role))
        × (find_value (policy_row api ts_ms o) (codes "target_node") ≡ some (text o.target_node))
        × (find_value (policy_row api ts_ms o) (codes "safety_level")
            ≡ some (number o.safety_level))
  unfolding policy_row same_name
  policy_values ts_ms o = (refl, refl, refl, refl, refl, refl)

  read_policy_check-row :
      (ts_ms : ℕ) (o : Outgoing api.Json) (prefix made_id printed : Bytes)
      (r : IsRead api (policy_row api ts_ms o) printed)
      → IsSendable prefix made_id o
      → read_policy_check api r.root ≡ check_of o
  unfolding read_policy_check
  read_policy_check-row ts_ms o prefix made_id printed r s =
      let (v₁, v₂, v₃, v₄, v₅, v₆) = policy_values ts_ms o in
      let get = json_optional_string-text (policy_row api ts_ms o) printed r in
      let id =
        ap (copy_field mesh_id_max) (get (codes "command_id") o.command_id v₁)
        ∙ s.command_id_fits in
      let trace =
        ap (copy_field mesh_trace_max) (get (codes "trace_id") o.trace_id v₂) ∙ s.trace_id_fits in
      let action =
        ap (copy_field mesh_action_max) (get (codes "action") o.action v₃)
        ∙ FitsRole-action o.action o.target_role s.fits_role in
      let role =
        ap (copy_field mesh_role_max) (get (codes "target_role") o.target_role v₄)
        ∙ FitsRole-role o.action o.target_role s.fits_role in
      let node =
        ap (copy_field mesh_node_max) (get (codes "target_node") o.target_node v₅) ∙ s.node_fits in
      let safety =
        json_int-number api (policy_row api ts_ms o) printed r (codes "safety_level") o.safety_level
          safety_medium v₆
          (small-IsInt o.safety_level s.safety_in.0 (omega (arith, s.safety_in.1))) in
      λ i. record {
        command_id = id i;
        trace_id = trace i;
        action = action i;
        target_role = role i;
        target_node = node i;
        safety_level = safety i;
      }

  -- The Guardian's answer to the check that the tool asks it for, where the check's text is read as it
  -- was made and a made-up id would not be empty: it allows the command exactly if its safety level is
  -- at most medium and it names a role. A command that names only a node is refused.
  pub policy_reason-asked :
      (prefix made_id printed : Bytes) (empty : api.Json) (root : Option api.Json) (ts_ms : ℕ)
      (o : Outgoing api.Json)
      → is_empty made_id ≡ false
      → read_input api prefix empty made_id root ≡ done o
      → (r : IsRead api (policy_row api ts_ms o) printed)
      → allows (policy_reason (read_policy_check api r.root))
        ≡ (leb_ℤ o.safety_level safety_medium && not (is_empty o.target_role))
  policy_reason-asked prefix made_id printed empty root ts_ms o named h r =
      let s = read_input-IsSendable api prefix empty made_id root o h in
      ap (λ c. allows (policy_reason c)) (read_policy_check-row ts_ms o prefix made_id printed r s)
      ∙ policy_reason-fits (check_of o) (s.is_named named)
          (FitsRole-is_empty o.action o.target_role s.fits_role) s.fits_role
