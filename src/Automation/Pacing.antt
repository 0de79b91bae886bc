-- ===== src/Automation/Pacing.antt =====
-- main/automation/automation_engine.c: how often a rule acts, and when it changes sides.
use esp32_agent_mesh.Prelude.{
  if◌then◌else◌, Bool-cases, if_cases, str_eq, str_eq_refl, is_empty, ℕ, ◌+◌, ◌*◌, ◌≤◌, ◌<◌, ◌≡◌,
  refl, sym, ap, subst, inl, inr, Bool, true, false, not, ◌&&◌, ◌||◌, Option, none, some, List, [],
  ◌∷◌, arith,
}
use esp32_agent_mesh.Automation.Steps.{AutomationStep}
use esp32_agent_mesh.Automation.Tables.{Branch, unknown, over, under, Floats, Rule}
use esp32_agent_mesh.Automation.Checking.{
  is_rule_due, claim, Verdict, unread, held, cooling, no_action, acts, branch_of, acted, is_held,
  is_cooling, judge_value, settled, settle, settle_verdict, check_claimed, check_rule,
}

module _ {J : Type 0} (floats : Floats J) where
  open floats use {Float, gt, plus, minus}

  -- A look at a rule: the time, and the metric if one was read.
  abbrev pub Look : Type 0
  Look = ℕ × Option Float

  -- An action: its time, the metric, whether it is on the upper branch, and the step that was run.
  pub record Act : Type 0 where
    pub now_ms : ℕ
    pub value : Float
    pub above : Bool
    pub step : AutomationStep

  abbrev pub add_act : ℕ → Option Float → Option (Bool × AutomationStep) → List Act → List Act
  add_act now_ms (some value) (some (above, step)) rest =
      record { now_ms = now_ms; value = value; above = above; step = step } ∷ rest
  add_act now_ms _ _ rest = rest

  -- The actions of a rule over a sequence of looks.
  unfoldable pub run_rule : Rule Float → List Look → List Act
  run_rule rule [] = []
  run_rule rule ((now_ms, reading) ∷ looks) =
      let (rule', acted) = check_rule floats now_ms reading rule in
      add_act now_ms reading acted (run_rule rule' looks)

  -- The value against the sides: above the threshold for the upper action, not above it for the
  -- lower; and past the band where the last action was the other one.
  abbrev pub PastBand : Float → Float → Branch → Float → Bool → Type 0
  PastBand threshold hysteresis over value false = gt value (minus threshold hysteresis) ≡ false
  PastBand threshold hysteresis under value true = gt (plus threshold hysteresis) value ≡ false
  PastBand threshold hysteresis last value above = Unit {0}

  abbrev pub Rested : ℕ → ℕ → ℕ → Type 0
  Rested cooldown_s last_ms now_ms =
      0 < cooldown_s → 0 < last_ms → last_ms + cooldown_s * 1000 ≤ now_ms

  -- The step that a side has, and that there is one.
  abbrev pub IsStepOf : AutomationStep → AutomationStep → Bool → AutomationStep → Type 0
  IsStepOf upper lower true step = (step ≡ upper) × (is_empty step.action ≡ false)
  IsStepOf upper lower false step = (step ≡ lower) × (is_empty step.action ≡ false)

  -- A sequence of actions after one at a time and on a side, by the upper and the lower step.
  abbrev pub IsPaced :
      AutomationStep → AutomationStep → Float → Float → ℕ → ℕ → Branch → List Act → Type 0
  IsPaced upper lower threshold hysteresis cooldown_s last_ms last [] = Unit {0}
  IsPaced upper lower threshold hysteresis cooldown_s last_ms last (a ∷ acts_after) =
      (gt a.value threshold ≡ a.above)
      × IsStepOf upper lower a.above a.step
      × PastBand threshold hysteresis last a.value a.above
      × Rested cooldown_s last_ms a.now_ms
      × IsPaced upper lower threshold hysteresis cooldown_s a.now_ms (branch_of a.above) acts_after

  not_held :
      (rule : Rule Float) (value : Float) (above : Bool) (last : Branch)
      → is_held floats rule value above last ≡ false
      → PastBand rule.threshold rule.hysteresis last value above
  unfolding is_held
  not_held rule value true unknown h = tt
  not_held rule value false unknown h = tt
  not_held rule value true over h = tt
  not_held rule value false over h = h
  not_held rule value true under h = h
  not_held rule value false under h = tt

  not_cooling :
      (now_ms : ℕ) (rule : Rule Float)
      → is_cooling floats now_ms rule ≡ false
      → Rested rule.cooldown_s rule.last_action_ms now_ms
  unfolding is_cooling
  not_cooling now_ms rule h cooldown last = ground (arith, h, cooldown, last)

  own_step :
      (rule : Rule Float) (side : Bool) (step : AutomationStep)
      → (if side then rule.above else rule.below) ≡ step
      → is_empty (if side then rule.above else rule.below).action ≡ false
      → IsStepOf rule.above rule.below side step
  own_step rule true step e g = (sym e, subst (λ s. is_empty s.action ≡ false) e g)
  own_step rule false step e g = (sym e, subst (λ s. is_empty s.action ≡ false) e g)

  -- What an action tells of the value, the step and the times.
  judge_value-acts :
      (now_ms : ℕ) (rule : Rule Float) (value : Float) (above : Bool) (step : AutomationStep)
      → acted (judge_value floats now_ms rule value) ≡ some (above, step)
      → (gt value rule.threshold ≡ above)
        × IsStepOf rule.above rule.below above step
        × PastBand rule.threshold rule.hysteresis rule.last_branch value above
        × Rested rule.cooldown_s rule.last_action_ms now_ms
  unfolding judge_value
  judge_value-acts now_ms rule value above step h =
      let side = gt value rule.threshold in
      let own = if side then rule.above else rule.below in
      elim (Bool-cases (is_held floats rule value side rule.last_branch)) [
        | inl e ↦ absurd (cc (rw e at h))
        | inr e ↦ elim (Bool-cases (is_cooling floats now_ms rule)) [
          | inl f ↦ absurd (cc (rw (e, f) at h))
          | inr f ↦ elim (Bool-cases (is_empty own.action)) [
            | inl g ↦ absurd (cc (rw (e, f, g) at h))
            | inr g ↦
                let both = rw (e, f, g) at h in
                let is : side ≡ above = cc both in
                let ran : own ≡ step = cc both in
                (
                  is,
                  subst (λ a. IsStepOf rule.above rule.below a step) is
                      (own_step rule side step ran g),
                  subst (PastBand rule.threshold rule.hysteresis rule.last_branch value) is
                      (not_held rule value side rule.last_branch e),
                  not_cooling now_ms rule f,
                )
          ]
        ]
      ]

  -- As it goes on from a rule.
  abbrev Paced : Rule Float → List Act → Type 0
  Paced rule actions =
      IsPaced rule.above rule.below rule.threshold rule.hysteresis rule.cooldown_s
        rule.last_action_ms rule.last_branch actions

  settle_own :
      (now_ms : ℕ) (above : Bool) (s : Rule Float)
      → s.used ≡ true
      → settle floats now_ms s.id above s ≡ settled floats now_ms above s
  unfolding settle
  settle_own now_ms above s u =
      if_cases (λ r. r ≡ settled floats now_ms above s) (s.used && str_eq s.id s.id) _ _ (λ e. refl)
        (λ e. absurd (ground (arith, e, u, str_eq_refl s.id)))

  go_on :
      (now_ms : ℕ) (value : Float) (looks : List Look) (s : Rule Float) (v : Verdict)
      → judge_value floats now_ms s value ≡ v
      → s.used ≡ true
      → ((r : Rule Float) → Paced r (run_rule r looks))
      → Paced s (
          add_act now_ms
            (some value)
            (acted v)
            (run_rule (settle_verdict floats now_ms s.id v s) looks))
  go_on now_ms value looks s (acts above step) j u ih =
      let (side, is_step, past, rested) = judge_value-acts now_ms s value above step (ap acted j) in
      let own = settle_own now_ms above s u in
      (side, is_step, past, rested, rw own (ih (settled floats now_ms above s)))
  go_on now_ms value looks s unread j u ih = ih s
  go_on now_ms value looks s held j u ih = ih s
  go_on now_ms value looks s cooling j u ih = ih s
  go_on now_ms value looks s no_action j u ih = ih s

  claim-is :
      (now_ms : ℕ) (rule s : Rule Float)
      → claim now_ms rule ≡ some s
      → (record rule { last_check_ms = now_ms } ≡ s) × (rule.used ≡ true)
  unfolding claim
  claim-is now_ms rule s c =
      elim (Bool-cases (not rule.used || not rule.enabled || not (is_rule_due now_ms rule))) [
        | inl e ↦ absurd (cc (rw e at c))
        | inr e ↦ (cc (rw e at c), ground (arith, e))
      ]

  look_at :
      (now_ms : ℕ) (reading : Option Float) (looks : List Look) (rule : Rule Float)
      (snapshot : Option (Rule Float))
      → claim now_ms rule ≡ snapshot
      → ((r : Rule Float) → Paced r (run_rule r looks))
      → Paced rule (
          add_act now_ms reading
            (check_claimed floats now_ms reading rule snapshot).1
            (run_rule (check_claimed floats now_ms reading rule snapshot).0 looks))
  unfolding check_claimed
  look_at now_ms none looks rule none c ih = ih rule
  look_at now_ms (some value) looks rule none c ih = ih rule
  look_at now_ms none looks rule (some s) c ih =
      let (is, u) = claim-is now_ms rule s c in
      subst (λ s. Paced rule (run_rule s looks)) is (ih (record rule { last_check_ms = now_ms }))
  look_at now_ms (some value) looks rule (some s) c ih =
      let (is, u) = claim-is now_ms rule s c in
      let go =
        λ (s : Rule Float). go_on now_ms value looks s (judge_value floats now_ms s value) refl in
      subst
        (λ s. Paced rule (
          add_act now_ms (some value) (acted (judge_value floats now_ms s value)) (
            run_rule (settle_verdict floats now_ms s.id (judge_value floats now_ms s value) s)
              looks)))
        is (go (record rule { last_check_ms = now_ms }) u ih)

  -- The actions of a rule over any sequence of looks, between which nothing but the rule's own checks
  -- writes it: each runs the step of the side of the threshold on which the value is, which has an action; it follows an action
  -- of the other side only if the value is past the band around the threshold; and where the rule
  -- has a cooldown and the last action's time is not zero, it comes no sooner after it than that.
  pub run_rule-IsPaced :
      (rule : Rule Float) (looks : List Look)
      → IsPaced rule.above rule.below rule.threshold rule.hysteresis rule.cooldown_s
          rule.last_action_ms rule.last_branch
          (run_rule rule looks)
  unfolding run_rule check_rule
  run_rule-IsPaced rule [] = tt
  run_rule-IsPaced rule ((now_ms, reading) ∷ looks) =
      look_at now_ms reading looks rule (claim now_ms rule) refl (λ r. run_rule-IsPaced r looks)
