-- ===== src/Mesh/Policy.antt =====
-- main/sensors/sensor_mqtt.c: which checks the Guardian allows, and which decision the cache gives.
use esp32_agent_mesh.Prelude.{
  Bool-cases, Option-cases, length, set, All, find_index, find?, Bytes, codes, str_eq, str_eq_iff,
  str_eq_refl, is_empty, copy_field_whole, ℕ, zero, suc, ◌%◌, ◌<◌, ◌≡◌, refl, ap, ◌≢◌, ◌↔◌, ◌⊎◌,
  inl, inr, Bool, true, false, Option, none, some, List, [], ◌∷◌, arith,
}
use esp32_agent_mesh.Prelude.Int.{leb_ℤ}
use esp32_agent_mesh.Node.Roles.{role_sensor, role_control}
use esp32_agent_mesh.Mesh.Command.{mesh_id_max, safety_medium}
use esp32_agent_mesh.Mesh.Decisions.{
  PolicyCache, policy_cache_depth, is_decision_on, cached, note_decision, decision_on,
}
use esp32_agent_mesh.Mesh.Guardian.{
  policy_is_sensor_action, policy_is_control_action, allows, PolicyCheck, policy_reason,
}
use esp32_agent_mesh.Mesh.Control.{control_tool}

-- The Guardian's policy: the check names a command and an action, asks for no more than medium
-- safety, and sends a sensor read to the sensor role or a control action to the control role.
pub record IsAllowable (c : PolicyCheck) : Type 0 where
  pub names_command : c.command_id ≢ []
  pub names_action : c.action ≢ []
  pub is_safe : leb_ℤ c.safety_level safety_medium ≡ true
  pub is_matched :
      ((policy_is_sensor_action c.action ≡ true) × (c.target_role ≡ role_sensor))
      ⊎ ((policy_is_control_action c.action ≡ true) × (c.target_role ≡ role_control))

not_both :
    (action : Bytes)
    → policy_is_sensor_action action ≡ true
    → policy_is_control_action action ≡ false
unfolding policy_is_sensor_action policy_is_control_action
not_both action h =
    let e : action ≡ codes "read_temperature_humidity" =
      (str_eq_iff action (codes "read_temperature_humidity")).0 h in
    rw e (unfold str_eq in refl)

is_empty-false : (s : Bytes) → s ≢ [] → is_empty s ≡ false
is_empty-false [] h = absurd (h refl)
is_empty-false (c ∷ cs) h = refl

policy_reason-allowed : (c : PolicyCheck) → allows (policy_reason c) ≡ true → IsAllowable c
unfolding policy_reason
policy_reason-allowed c h =
    let named : is_empty c.command_id ≡ false = ground (arith, h) in
    let acts : is_empty c.action ≡ false = ground (arith, h) in
    record {
      names_command = λ e. cc (ap is_empty e, named);
      names_action = λ e. cc (ap is_empty e, acts);
      is_safe = ground (arith, h);
      is_matched = elim (Bool-cases (policy_is_sensor_action c.action)) [
        | inl read ↦ inl (read, (str_eq_iff c.target_role role_sensor).0 (ground (arith, h, read)))
        | inr other ↦ inr (
          ground (arith, h, other),
          (str_eq_iff c.target_role role_control).0 (ground (arith, h, other)),
        )
      ];
    }

policy_reason-allows_all : (c : PolicyCheck) → IsAllowable c → allows (policy_reason c) ≡ true
unfolding policy_reason
policy_reason-allows_all c a =
    let named = is_empty-false c.command_id a.names_command in
    let acts = is_empty-false c.action a.names_action in
    elim a.is_matched [
      | inl (read, role) ↦
          let fits = (str_eq_iff c.target_role role_sensor).1 role in
          ground (arith, named, acts, a.is_safe, read, fits)
      | inr (control, role) ↦
          let fits = (str_eq_iff c.target_role role_control).1 role in
          elim (Bool-cases (policy_is_sensor_action c.action)) [
            | inl read ↦ absurd (cc (not_both c.action read, control))
            | inr other ↦ ground (arith, named, acts, a.is_safe, control, other, fits)
          ]
    ]

-- The Guardian allows a check exactly if it names a command and an action, asks for no more than
-- medium safety, and sends the sensor read to the sensor role or one of the four control actions
-- to the control role.
pub policy_reason-IsAllowable :
    (c : PolicyCheck) → (allows (policy_reason c) ≡ true) ↔ IsAllowable c
policy_reason-IsAllowable c = (policy_reason-allowed c, policy_reason-allows_all c)

abbrev pub is_some {ℓ} : {A : Type ℓ} → Option A → Bool
is_some none = false
is_some (some a) = true

-- The actions that the Guardian takes for control actions are those for which a control node has a
-- tool.
pub control_tool-policy :
    (action : Bytes) → is_some (control_tool action) ≡ policy_is_control_action action
unfolding control_tool policy_is_control_action
control_tool-policy action = ground arith

find?-set_hit :
    {A : Type 0} (test : A → Bool) (xs : List A) (i : ℕ) (v : A)
    → All (λ x. test x ≡ false) xs
    → i < length xs
    → test v ≡ true
    → find? test (set xs i v) ≡ some v
unfolding find?
find?-set_hit test [] i v a h t = absurd (omega arith)
find?-set_hit test (x ∷ xs) zero v a h t = rw t
find?-set_hit test (x ∷ xs) (suc i) v a h t = rw a.0 (find?-set_hit test xs i v a.1 (omega arith) t)

find?-set_later :
    {A : Type 0} (test : A → Bool) (xs : List A) (i k : ℕ) (v : A)
    → find_index test xs ≡ some i
    → i < k
    → find? test (set xs k v) ≡ find? test xs
unfolding find? find_index
find?-set_later test [] i k v f h = refl
find?-set_later test (x ∷ xs) i zero v f h = absurd (omega arith)
find?-set_later test (x ∷ xs) i (suc k) v f h = elim (Bool-cases (test x)) [
  | inl hit ↦ rw hit
  | inr miss ↦ elim (Option-cases (find_index test xs)) [
    | inl e ↦ absurd (ground (arith, f, miss, e))
    | inr (j, e) ↦ rw miss (find?-set_later test xs j k v e (ground (arith, f, miss, e)))
  ]
]

-- In a cache of 8 cells that holds no decision on a command whose id fits its field, a decision
-- that is noted on it is found under the id at once, cut to the size of its cell.
pub decision_on-note :
    (ts_ms : ℕ) (command_id json : Bytes) (c : PolicyCache)
    → length c.cells ≡ policy_cache_depth
    → length command_id < mesh_id_max
    → All (λ item. is_decision_on command_id item ≡ false) c.cells
    → decision_on command_id (note_decision ts_ms command_id json c)
      ≡ some (cached ts_ms command_id json)
unfolding decision_on note_decision
decision_on-note ts_ms command_id json c d fits others =
    find?-set_hit (is_decision_on command_id) c.cells (c.next % policy_cache_depth)
      (cached ts_ms command_id json) others (omega (arith, d))
      (rw (copy_field_whole mesh_id_max command_id fits) (str_eq_refl command_id))

-- A decision in a later cell does not replace an earlier one on the same command: as long as the
-- first decision on it is in a cell before the one that is written, whatever is noted, the
-- decision found stays the same.
pub decision_on-stale :
    (ts_ms i : ℕ) (command_id json : Bytes) (c : PolicyCache)
    → find_index (is_decision_on command_id) c.cells ≡ some i
    → i < c.next % policy_cache_depth
    → decision_on command_id (note_decision ts_ms command_id json c) ≡ decision_on command_id c
unfolding decision_on note_decision
decision_on-stale ts_ms i command_id json c f h =
    find?-set_later (is_decision_on command_id) c.cells i (c.next % policy_cache_depth)
      (cached ts_ms command_id json) f h
