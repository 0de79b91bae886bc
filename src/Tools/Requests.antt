-- ===== src/Tools/Requests.antt =====
-- main/tools/tool_mesh_command.c: what holds of a command that the tool's input asks for.
use esp32_agent_mesh.Prelude.{
  Bool-cases, take_twice, Bytes, codes, str_eq, str_eq_iff, copy_field, is_empty, invalid_arg, done,
  refuse, refuse-eq_done, >>=-eq_done, ℕ, zero, suc, ◌-◌, ◌<◌, ◌≡◌, refl, subst, ◌⊎◌, inl, inr,
  true, false, not, ◌&&◌, Option, none, some, [], ◌∷◌, arith,
}
use esp32_agent_mesh.Prelude.Int.{ℤ, pos, ◌≤ℤ◌}
use esp32_agent_mesh.Node.Roles.{role_sensor, role_control}
use esp32_agent_mesh.Mesh.Json.{JsonApi, json_int, json_optional_string}
use esp32_agent_mesh.Mesh.Command.{mesh_id_max, mesh_node_max, mesh_role_max, mesh_trace_max}
use esp32_agent_mesh.Tools.Sending.{
  is_control_action, is_sensor_action, is_allowed_mesh_action, defaulted_role, is_wrong_role,
  check_request, command_topic, or_failed, clamp_ttl, is_safety_level, given_or, Outgoing,
  copy_args, outgoing, read_request, read_input,
}

copy_field_twice : (size : ℕ) (s : Bytes) → copy_field size (copy_field size s) ≡ copy_field size s
copy_field_twice size s = take_twice (size - 1) s

copy_field-is_empty : (size : ℕ) (s : Bytes) → 1 < size → is_empty (copy_field size s) ≡ is_empty s
copy_field-is_empty zero s h = absurd (omega arith)
copy_field-is_empty (suc zero) s h = absurd (omega arith)
copy_field-is_empty (suc (suc size)) [] h =
    let e : suc (suc size) - 1 ≡ suc size = omega arith in rw e
copy_field-is_empty (suc (suc size)) (b ∷ bs) h =
    let e : suc (suc size) - 1 ≡ suc size = omega arith in rw e

given_or-is_empty : (s made : Bytes) → is_empty made ≡ false → is_empty (given_or s made) ≡ false
given_or-is_empty [] made h = h
given_or-is_empty (b ∷ bs) made h = refl

-- A role that is named fits the action, which is one of the five.
abbrev pub FitsRole : Bytes → Bytes → Type 0
FitsRole action role =
    ((action ≡ codes "read_temperature_humidity") × ((role ≡ []) ⊎ (role ≡ role_sensor)))
    ⊎ ((is_control_action action ≡ true) × ((role ≡ []) ⊎ (role ≡ role_control)))

empty_of : (s : Bytes) → is_empty s ≡ true → s ≡ []
empty_of [] h = refl
empty_of (b ∷ bs) h = absurd (cc h)

fits_one :
    (role wanted : Bytes)
    → (not (is_empty role) && not (str_eq role wanted)) ≡ false
    → (role ≡ []) ⊎ (role ≡ wanted)
fits_one role wanted h = elim (Bool-cases (is_empty role)) [
  | inl e ↦ inl (empty_of role e)
  | inr n ↦ inr ((str_eq_iff role wanted).0 (ground (arith, h, n)))
]

is_wrong_role-fits :
    (action role : Bytes)
    → is_allowed_mesh_action action ≡ true
    → is_wrong_role action role ≡ false
    → FitsRole action role
unfolding is_allowed_mesh_action is_wrong_role is_sensor_action
is_wrong_role-fits action role a w =
    elim (Bool-cases (str_eq action (codes "read_temperature_humidity"))) [
      | inl e ↦ inl (
        (str_eq_iff action (codes "read_temperature_humidity")).0 e,
        fits_one role role_sensor (ground (arith, a, w, e)),
      )
      | inr n ↦ inr (ground (arith, a, n), fits_one role role_control (ground (arith, a, w, n)))
    ]

pub check_request-done :
    (action node role : Bytes) {role' : Bytes}
    → check_request action node role ≡ done role'
    → (is_empty action ≡ false)
      × FitsRole action role'
      × ((is_empty node && is_empty role') ≡ false)
unfolding check_request
check_request-done action node role {role'} h =
    let same : defaulted_role action node role ≡ role' = ground (arith, h) in
    let known : is_allowed_mesh_action action ≡ true = ground (arith, h) in
    (
      ground (arith, h),
      is_wrong_role-fits action role' known (rw (← same) (ground (arith, h))),
      rw (← same) (ground (arith, h)),
    )

abbrev pub InSafetyRange : ℤ → Type 0
InSafetyRange level = (pos 0 ≤ℤ level) × (level ≤ℤ pos 2)

clamp_ttl_bounds : (ttl : ℤ) → (pos 1000 ≤ℤ clamp_ttl ttl) × (clamp_ttl ttl ≤ℤ pos 30000)
unfolding clamp_ttl
clamp_ttl_bounds ttl = ground arith

is_safety_level-range : (level : ℤ) → not (is_safety_level level) ≡ false → InSafetyRange level
is_safety_level-range level h = ground arith

-- What a command is that goes out.
pub record IsSendable (prefix made_id : Bytes) {J : Type 0} (o : Outgoing J) : Type 0 where
  pub fits_role : FitsRole o.action o.target_role
  pub has_target : (is_empty o.target_node && is_empty o.target_role) ≡ false
  pub topic_is : or_failed (command_topic prefix o.target_node o.target_role) ≡ done o.topic
  pub command_id_fits : copy_field mesh_id_max o.command_id ≡ o.command_id
  pub trace_id_fits : copy_field mesh_trace_max o.trace_id ≡ o.trace_id
  pub is_named : is_empty made_id ≡ false → is_empty o.command_id ≡ false
  pub node_fits : copy_field mesh_node_max o.target_node ≡ o.target_node
  pub safety_in : InSafetyRange o.safety_level
  pub ttl_in : (pos 1000 ≤ℤ o.ttl_ms) × (o.ttl_ms ≤ℤ pos 30000)

FitsRole-copy : (action role : Bytes) → FitsRole action role → copy_field mesh_role_max role ≡ role
FitsRole-copy action role (inl (a, inl e)) = rw e
FitsRole-copy action role (inl (a, inr e)) = rw e
FitsRole-copy action role (inr (a, inl e)) = rw e
FitsRole-copy action role (inr (a, inr e)) = rw e

module _ (api : JsonApi) (prefix : Bytes) (empty : api.Json) (made_id : Bytes)
    (root : api.Json) where
  get : Bytes → Bytes
  get = json_optional_string api root

  outgoing-IsSendable :
      (role topic : Bytes) (args : api.Json)
      → check_request (get (codes "action")) (get (codes "target_node")) (get (codes "target_role"))
        ≡ done role
      → or_failed (
          command_topic prefix
            (copy_field mesh_node_max (get (codes "target_node")))
            (copy_field mesh_role_max role))
        ≡ done topic
      → not (is_safety_level (json_int api root (codes "safety_level") (pos 1))) ≡ false
      → IsSendable prefix made_id (outgoing api made_id root role topic args)
  unfolding outgoing get
  outgoing-IsSendable role topic args c t s =
      let (acts, fits, target) =
        check_request-done (get (codes "action")) (get (codes "target_node"))
          (get (codes "target_role")) c in
      let same = FitsRole-copy (get (codes "action")) role fits in
      record {
        fits_role = rw same fits;
        has_target =
            rw (same, copy_field-is_empty mesh_node_max (get (codes "target_node")) (omega arith))
              target;
        topic_is = t;
        command_id_fits = copy_field_twice mesh_id_max _;
        trace_id_fits = copy_field_twice mesh_trace_max _;
        is_named = λ m.
            rw
              (copy_field-is_empty mesh_id_max (given_or (get (codes "command_id")) made_id)
                (omega arith))
              (given_or-is_empty (get (codes "command_id")) made_id m);
        node_fits = copy_field_twice mesh_node_max _;
        safety_in = is_safety_level-range (json_int api root (codes "safety_level") (pos 1)) s;
        ttl_in = clamp_ttl_bounds (json_int api root (codes "ttl_ms") (pos 30000));
      }

  read_request-IsSendable :
      (o : Outgoing api.Json)
      → read_request api prefix empty made_id root ≡ done o
      → IsSendable prefix made_id o
  unfolding read_request get
  read_request-IsSendable o h =
      let (role, checked, h₁) =
        >>=-eq_done
          (check_request (get (codes "action")) (get (codes "target_node"))
            (get (codes "target_role")))
          _ h in
      let (topic, topic_is, h₂) =
        >>=-eq_done
          (or_failed (
            command_topic prefix (copy_field mesh_node_max (get (codes "target_node")))
              (copy_field mesh_role_max role)))
          _ h₁ in
      let (u, safe, h₃) =
        >>=-eq_done
          (refuse (not (is_safety_level (json_int api root (codes "safety_level") (pos 1))))
            invalid_arg)
          _ h₂ in
      let (args, read, h₄) =
        >>=-eq_done (copy_args api empty root (get (codes "args_json"))) _ h₃ in
      let is : outgoing api made_id root role topic args ≡ o = ground (arith, h₄) in
      subst (IsSendable prefix made_id) is
        (outgoing-IsSendable role topic args checked topic_is (refuse-eq_done _ invalid_arg safe))

-- What the tool's input asks for is sendable, whatever it holds.
pub read_input-IsSendable :
    (api : JsonApi) (prefix : Bytes) (empty : api.Json) (made_id : Bytes) (root : Option api.Json)
    (o : Outgoing api.Json)
    → read_input api prefix empty made_id root ≡ done o
    → IsSendable prefix made_id o
unfolding read_input
read_input-IsSendable api prefix empty made_id none o h = absurd (cc h)
read_input-IsSendable api prefix empty made_id (some root) o h =
    read_request-IsSendable api prefix empty made_id root o h
