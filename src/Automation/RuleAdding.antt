-- ===== src/Automation/RuleAdding.antt =====
-- main/automation/automation_engine.c: a rule is put into the table with its limits, or the list of the
-- rules in use stays as it was; and what others do to a slot while its rule's action goes on stays.
use esp32_agent_mesh.Prelude.{
  if_cases, find_index, Bytes, codes, is_empty, ok, is_ok, ℕ, ◌^◌, ◌≤◌, ◌<◌, ◌≡◌, refl, ◌⊎◌, inl,
  inr, Bool, true, false, not, ◌||◌, Option, none, some, List, [], arith,
}
use esp32_agent_mesh.Prelude.Int.{ℤ, pos, negsuc}
use esp32_agent_mesh.Mesh.Json.{JsonApi, parse_object}
use esp32_agent_mesh.Mesh.Rows.{Row}
use esp32_agent_mesh.Automation.Steps.{to_uint32, json_get_string, json_get_int}
use esp32_agent_mesh.Automation.Tables.{unknown, Floats, Rule, gen_id, is_free_rule}
use esp32_agent_mesh.Automation.Rules.{
  RuleOutcome, lift_interval, cap_cooldown, described_rule, is_branch, place_rule, slot_rule,
  add_rule_locked, rule_of, create_rule,
}
use esp32_agent_mesh.Automation.Slots.{IsAdded, Write, free-Write}
use esp32_agent_mesh.Automation.Adding.{HasAction}
use esp32_agent_mesh.Automation.Running.{active_rules}

pub record HasLimits {F : Type 0} (r : Rule F) : Type 0 where
  pub checks : 1 ≤ r.interval_s
  pub checks_in : r.interval_s < 2 ^ 32
  pub rests : r.cooldown_s ≤ 300
  pub above_acts : HasAction r.above
  pub below_acts : HasAction r.below
  pub is_new : (r.last_check_ms ≡ 0) × (r.last_action_ms ≡ 0) × (r.last_branch ≡ unknown)

pub record IsRuleCreated {F : Type 0} (rules : List (Rule F)) (o : RuleOutcome F) : Type 0 where
  pub rule : Rule F
  pub added : IsAdded (λ r. r.used) rule (active_rules rules) (active_rules o.rules)
  pub limits : HasLimits rule

abbrev pub RuleCreatedOrNot : {F : Type 0} → List (Rule F) → RuleOutcome F → Type 0
RuleCreatedOrNot rules o =
    ((o.status ≡ ok) × IsRuleCreated rules o)
    ⊎ ((is_ok o.status ≡ false) × (active_rules o.rules ≡ active_rules rules) × (o.effects ≡ []))

to_uint32-lt : (z : ℤ) → to_uint32 z < 2 ^ 32
unfolding to_uint32
to_uint32-lt (pos n) = omega arith
to_uint32-lt (negsuc n) = omega arith

lifted : (n : ℕ) → n < 2 ^ 32 → (1 ≤ lift_interval n) × (lift_interval n < 2 ^ 32)
lifted n h = (ground arith, ground arith)

capped : (n : ℕ) → cap_cooldown n ≤ 300
capped n = ground arith

module _ (api : JsonApi) (floats : Floats api.Json) (print_row : Row api.Json → Option Bytes)
    (opened : Bool) (rules : List (Rule floats.Float)) where
  described-limits :
      (id name : Bytes) (root : api.Json) (above below : Option api.Json)
      → is_empty (described_rule api floats id name root above below).above.action ≡ false
      → is_empty (described_rule api floats id name root above below).below.action ≡ false
      → HasLimits (described_rule api floats id name root above below)
  unfolding described_rule
  described-limits id name root above below a b =
      let interval = to_uint32 (json_get_int api root (codes "interval_s") (pos 10)) in
      let (some_s, in_range) =
        lifted interval (to_uint32-lt (json_get_int api root (codes "interval_s") (pos 10))) in
      record {
        checks = some_s;
        checks_in = in_range;
        rests = capped (to_uint32 (json_get_int api root (codes "cooldown_s") (pos 30)));
        above_acts = a;
        below_acts = b;
        is_new = (refl, refl, refl);
      }

  place_rule_sound :
      (slot : ℕ) (rule : Rule floats.Float)
      → Write (λ (r : Rule floats.Float). r.used) rules slot
      → rule.used ≡ true
      → (is_empty rule.above.action ≡ false → is_empty rule.below.action ≡ false → HasLimits rule)
      → RuleCreatedOrNot rules (place_rule api floats print_row opened rules slot rule)
  unfolding place_rule
  place_rule_sound slot rule write u limits =
      if_cases (RuleCreatedOrNot rules) (is_empty rule.above.action || is_empty rule.below.action) _
        _ (λ e. inr (refl, write.1 (record rule { used = false }) refl, refl))
        (λ e. inl (
          refl,
          record {
            rule = rule;
            added = write.0 rule u;
            limits = limits (ground (arith, e)) (ground (arith, e));
          },
        ))

  slot_rule_sound :
      (rule : Rule floats.Float) (slot : Option ℕ)
      → find_index is_free_rule rules ≡ slot
      → rule.used ≡ true
      → (is_empty rule.above.action ≡ false → is_empty rule.below.action ≡ false → HasLimits rule)
      → RuleCreatedOrNot rules (slot_rule api floats print_row opened rules rule slot)
  unfolding slot_rule
  slot_rule_sound rule none h u limits = inr (refl, refl, refl)
  slot_rule_sound rule (some slot) h u limits =
      place_rule_sound slot rule (free-Write (λ (r : Rule floats.Float). r.used) rules slot h) u
        limits

  add_rule_locked_sound :
      (time_us : ℕ) (root : api.Json)
      → RuleCreatedOrNot rules (add_rule_locked api floats print_row opened time_us root rules)
  unfolding add_rule_locked
  add_rule_locked_sound time_us root =
      let above = api.item root (codes "above") in
      let below = api.item root (codes "below") in
      let id = gen_id (codes "rule") time_us in
      let name = (json_get_string api root (codes "name") [] 32).1 in
      if_cases (RuleCreatedOrNot rules) (not (json_get_string api root (codes "name") [] 32).0) _ _
        (λ e. inr (refl, refl, refl))
        (λ e.
          if_cases (RuleCreatedOrNot rules)
            (not (is_branch api floats above) || not (is_branch api floats below)) _ _
            (λ f. inr (refl, refl, refl))
            (λ f.
              slot_rule_sound (described_rule api floats id name root above below)
                (find_index is_free_rule rules) refl (unfold described_rule in refl)
                (described-limits id name root above below)))

  rule_parsed_sound :
      (time_us : ℕ) (root : Option api.Json)
      → RuleCreatedOrNot rules (rule_of api floats print_row opened time_us rules root)
  unfolding rule_of
  rule_parsed_sound time_us none = inr (refl, refl, refl)
  rule_parsed_sound time_us (some root) = add_rule_locked_sound time_us root

  -- A request for a rule ends in one of two ways. Its status is ok, and the list of the rules in use
  -- has one more, that is checked at most every second, rests five minutes at most, has an action on
  -- both sides and has not acted yet; or the status is an error, the list is as before, and nothing
  -- is saved or announced.
  pub create_rule-RuleCreatedOrNot :
      (time_us : ℕ) (input_json : Bytes)
      → RuleCreatedOrNot rules (create_rule api floats print_row opened time_us input_json rules)
  unfolding create_rule
  create_rule-RuleCreatedOrNot time_us input_json =
      rule_parsed_sound time_us (parse_object api input_json)
