-- ===== src/Automation/Checking.antt =====
-- main/automation/automation_engine.c: one check of a rule by `rule_task`: the rule is claimed while
-- the lock is held, the metric is read and the action is done without it, and what was done is noted
-- with the lock again.
-- Times are `esp_timer_get_time() / 1000`.
use esp32_agent_mesh.Prelude.{
  ltb, if◌then◌else◌, Bytes, codes, str_eq, copy_field, is_empty, EspErr, ok, ℕ, ◌+◌, ◌*◌, Bool,
  true, false, not, ◌&&◌, ◌||◌, Option, none, some, List, [], ◌∷◌, ◌++◌,
}
use esp32_agent_mesh.Mesh.Json.{JsonApi}
use esp32_agent_mesh.Automation.Steps.{AutomationStep}
use esp32_agent_mesh.Automation.Tables.{Branch, unknown, over, under, Floats, Rule}
use esp32_agent_mesh.Automation.Reading.{parse_sensor_output_metric}

unfoldable pub is_rule_due : {F : Type 0} → ℕ → Rule F → Bool
is_rule_due now_ms rule =
    not (ltb 0 rule.last_check_ms && ltb now_ms (rule.last_check_ms + rule.interval_s * 1000))

-- The snapshot, where the rule's turn has come.
unfoldable pub claim : {F : Type 0} → ℕ → Rule F → Option (Rule F)
unfolding is_rule_due
claim now_ms rule =
    if not rule.used || not rule.enabled || not (is_rule_due now_ms rule)
    then none
    else some (record rule { last_check_ms = now_ms })

-- What comes of a check: nothing is read, the value is inside the band of the last action, the last
-- action is too recent, there is no action, or the action of a branch is done.
pub data Verdict : Type 0 where
  unread held cooling no_action : Verdict
  acts : Bool → AutomationStep → Verdict

abbrev pub branch_of : Bool → Branch
branch_of true = over
branch_of false = under

abbrev pub acted : Verdict → Option (Bool × AutomationStep)
acted (acts above step) = some (above, step)
acted _ = none

module _ {J : Type 0} (floats : Floats J) where
  open floats use {Float, gt, plus, minus}

  unfoldable pub is_held : Rule Float → Float → Bool → Branch → Bool
  is_held rule value above unknown = false
  is_held rule value above over = not above && gt value (minus rule.threshold rule.hysteresis)
  is_held rule value above under = above && gt (plus rule.threshold rule.hysteresis) value

  unfoldable pub is_cooling : ℕ → Rule Float → Bool
  is_cooling now_ms rule =
      ltb 0 rule.cooldown_s
      && ltb 0 rule.last_action_ms
      && ltb now_ms (rule.last_action_ms + rule.cooldown_s * 1000)

  unfoldable pub judge_value : ℕ → Rule Float → Float → Verdict
  unfolding is_held is_cooling
  judge_value now_ms rule value =
      let above = gt value rule.threshold in
      let step = if above then rule.above else rule.below in
      if is_held rule value above rule.last_branch
      then held
      else if is_cooling now_ms rule
      then cooling
      else if is_empty step.action
      then no_action
      else acts above step

  -- `reading` is the metric, where the sensor's node gave one.
  unfoldable pub judge : ℕ → Rule Float → Option Float → Verdict
  unfolding judge_value
  judge now_ms rule none = unread
  judge now_ms rule (some value) = judge_value now_ms rule value

  abbrev pub settled : ℕ → Bool → Rule Float → Rule Float
  settled now_ms above rule = record rule { last_action_ms = now_ms; last_branch = branch_of above }

  -- The slot may hold another rule by now.
  unfoldable pub settle : ℕ → Bytes → Bool → Rule Float → Rule Float
  settle now_ms id above rule =
      if rule.used && str_eq rule.id id then settled now_ms above rule else rule

  abbrev pub settle_verdict : ℕ → Bytes → Verdict → Rule Float → Rule Float
  settle_verdict now_ms id (acts above step) rule = settle now_ms id above rule
  settle_verdict now_ms id _ rule = rule

  -- A check of a rule that nothing else touches meanwhile: the rule, and the action with its branch.
  unfoldable pub check_claimed :
      ℕ
      → Option Float
      → Rule Float
      → Option (Rule Float)
      → Rule Float × Option (Bool × AutomationStep)
  unfolding judge settle
  check_claimed now_ms reading rule none = (rule, none)
  check_claimed now_ms reading rule (some snapshot) =
      let verdict = judge now_ms snapshot reading in
      (settle_verdict now_ms snapshot.id verdict snapshot, acted verdict)

  unfoldable pub check_rule :
      ℕ → Option Float → Rule Float → Rule Float × Option (Bool × AutomationStep)
  unfolding claim check_claimed
  check_rule now_ms reading rule = check_claimed now_ms reading rule (claim now_ms rule)

module _ (api : JsonApi) (floats : Floats api.Json) (is_null : api.Json → Bool) where
  open floats use {Float}

  -- What the task sends to the sensor's node.
  unfoldable pub sensor_payload : Bytes → Bytes
  sensor_payload sensor_args_json = copy_field 512 (
      codes
        "{\"target_role\":\"sensor_agent\",\"action\":\"read_temperature_humidity\",\"async\":false,\"require_ack\":true,\"ttl_ms\":30000,\"safety_level\":1"
      ++ (if is_empty sensor_args_json
          then codes "}"
          else codes ",\"args\":" ++ (sensor_args_json ++ codes "}")))

  -- The value, from the status and the output of the tool.
  unfoldable pub read_metric : Rule Float → EspErr × Bytes → Option Float
  unfolding parse_sensor_output_metric
  read_metric rule (ok, output) = parse_sensor_output_metric api floats is_null output rule.metric
  read_metric rule (e, output) = none

  pub data CheckEffect : Type 0 where
    reads : Bytes → CheckEffect
    notes_failed_read : CheckEffect
    does : AutomationStep → EspErr → CheckEffect

  -- `send` is the mesh command tool, `run` the execution of a step.
  module _ (send : Bytes → EspErr × Bytes) (run : AutomationStep → EspErr) where
    unfoldable pub verdict_effects : Verdict → List CheckEffect
    verdict_effects unread = notes_failed_read ∷ []
    verdict_effects (acts above step) = does step (run step) ∷ []
    verdict_effects _ = []

    -- The turn of one slot. `meanwhile` is what others make of the slot while the lock is released.
    unfoldable pub turn_of :
        (Rule Float → Rule Float)
        → ℕ
        → Rule Float
        → Option (Rule Float)
        → Rule Float × List CheckEffect
    unfolding sensor_payload read_metric verdict_effects judge settle
    turn_of meanwhile now_ms rule none = (rule, [])
    turn_of meanwhile now_ms rule (some snapshot) =
        let payload = sensor_payload snapshot.sensor_args_json in
        let verdict = judge floats now_ms snapshot (read_metric snapshot (send payload)) in
        (
          settle_verdict floats now_ms snapshot.id verdict (meanwhile snapshot),
          reads payload ∷ verdict_effects verdict,
        )

    -- A round of `rule_task` over the slots. `now` is the time at which each one is looked at.
    unfoldable pub rule_round :
        (ℕ → Rule Float → Rule Float)
        → (ℕ → ℕ)
        → ℕ
        → List (Rule Float)
        → List (Rule Float) × List CheckEffect
    unfolding turn_of claim
    rule_round meanwhile now i [] = ([], [])
    rule_round meanwhile now i (rule ∷ rules) =
        let (rule', done_here) = turn_of (meanwhile i) (now i) rule (claim (now i) rule) in
        let (rules', done_later) = rule_round meanwhile now (i + 1) rules in
        (rule' ∷ rules', done_here ++ done_later)
