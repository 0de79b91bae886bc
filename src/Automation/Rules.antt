-- ===== src/Automation/Rules.antt =====
-- main/automation/automation_engine.c: the creation of a rule, and the rules in their file.
use esp32_agent_mesh.Prelude.{
  ltb, if◌then◌else◌, set, select, find_index, Bytes, codes, str_eq, copy_field, is_empty, EspErr,
  ok, fail, no_mem, invalid_arg, ℕ, Bool, true, false, not, ◌||◌, Option, none, some, List, [], ◌∷◌,
  ◌++◌, map,
}
use esp32_agent_mesh.Prelude.Int.{pos}
use esp32_agent_mesh.Mesh.Json.{JsonApi, parse_object}
use esp32_agent_mesh.Mesh.Rows.{text, number, truth, tree, Row}
use esp32_agent_mesh.Automation.Steps.{
  to_uint32, json_get_string, json_get_int, json_get_bool, fill_step_from_json, step_to_json,
}
use esp32_agent_mesh.Automation.Tables.{
  Metric, temperature, humidity, unknown, Floats, Rule, gen_id, is_free_rule,
}
use esp32_agent_mesh.Automation.Workflows.{
  AutomationReply, invalid_json, name_missing, branches_missing, rule_limit, actions_missing,
  rule_created, rule_unsaved,
}

pub data RuleEffect (F : Type 0) : Type 0 where
  announces_rule : Rule F → RuleEffect F
  -- The file as it is written, or the code of the failure.
  saves : Bytes → RuleEffect F

pub record RuleOutcome (F : Type 0) : Type 0 where
  pub status : EspErr
  pub reply : AutomationReply
  pub rules : List (Rule F)
  pub effects : List (RuleEffect F)

abbrev pub refused_rule : {F : Type 0} → EspErr → AutomationReply → List (Rule F) → RuleOutcome F
refused_rule e reply rules = record { status = e; reply = reply; rules = rules; effects = [] }

abbrev pub metric_word : Metric → Bytes
metric_word humidity = codes "humidity_percent"
metric_word temperature = codes "temperature_c"

unfoldable pub metric_named : Bytes → Metric
metric_named word = if str_eq word (codes "humidity_percent") then humidity else temperature

abbrev pub lift_interval : ℕ → ℕ
lift_interval interval_s = if ltb interval_s 1 then 1 else interval_s

abbrev pub cap_cooldown : ℕ → ℕ
cap_cooldown cooldown_s = if ltb 300 cooldown_s then 300 else cooldown_s

module _ (api : JsonApi) (floats : Floats api.Json) where
  open api use {Json, is_object, item, print}
  open floats use {
    Float, gt, zero_f, one_f, thirty_five_f, float_value, number_item, elements, object_item,
    array_item,
  }

  unfoldable pub float_in : Float → Option Json → Float
  float_in default_value none = default_value
  float_in default_value (some j) = elim (float_value j) [ none ↦ default_value | some x ↦ x ]

  -- `(float)json_get_double(root, key, default_value)`
  unfoldable pub json_get_double : Json → Bytes → Float → Float
  unfolding float_in
  json_get_double root key default_value = float_in default_value (item root key)

  unfoldable pub printed_sensor_args : Option Bytes → Bytes
  printed_sensor_args none = []
  printed_sensor_args (some json) = copy_field 256 json

  -- On the item "sensor_args".
  unfoldable pub read_sensor_args : Option Json → Bytes
  unfolding printed_sensor_args
  read_sensor_args none = []
  read_sensor_args (some args) = if is_object args then printed_sensor_args (print args) else []

  abbrev pub lift_hysteresis : Float → Float
  lift_hysteresis h = if gt zero_f h then zero_f else h

  -- The rule that the input describes.
  unfoldable pub described_rule : Bytes → Bytes → Json → Option Json → Option Json → Rule Float
  unfolding json_get_double read_sensor_args metric_named json_get_int json_get_bool to_uint32
      fill_step_from_json json_get_string
  described_rule id name root above below = record {
    used = true;
    id = id;
    name = name;
    enabled = json_get_bool api root (codes "enabled") true;
    metric = metric_named (json_get_string api root (codes "metric") [] 32).1;
    threshold = json_get_double root (codes "threshold") thirty_five_f;
    hysteresis = lift_hysteresis (json_get_double root (codes "hysteresis_c") one_f);
    interval_s = lift_interval (to_uint32 (json_get_int api root (codes "interval_s") (pos 10)));
    cooldown_s = cap_cooldown (to_uint32 (json_get_int api root (codes "cooldown_s") (pos 30)));
    last_check_ms = 0;
    last_action_ms = 0;
    last_branch = unknown;
    sensor_args_json = read_sensor_args (item root (codes "sensor_args"));
    above = fill_step_from_json api above (some (codes "control_agent"));
    below = fill_step_from_json api below (some (codes "control_agent"));
  }

  -- The sensor's arguments, where they parse as an object.
  unfoldable pub add_sensor_args : Option Json → Row Json → Row Json
  add_sensor_args none row = row
  add_sensor_args (some args) row = (codes "sensor_args", tree args) ∷ row

  unfoldable pub saved_sensor_args : Bytes → Row Json → Row Json
  unfolding add_sensor_args
  saved_sensor_args [] row = row
  saved_sensor_args (b ∷ bs) row = add_sensor_args (parse_object api (b ∷ bs)) row

  -- A rule's object in the file, and the file's.
  unfoldable pub rule_row : Rule Float → Row Json
  unfolding saved_sensor_args step_to_json
  rule_row rule =
      (codes "id", text rule.id)
      ∷ (codes "name", text rule.name)
      ∷ (codes "enabled", truth rule.enabled)
      ∷ (codes "metric", text (metric_word rule.metric))
      ∷ (codes "threshold", tree (number_item rule.threshold))
      ∷ (codes "hysteresis", tree (number_item rule.hysteresis))
      ∷ (codes "interval_s", number (pos rule.interval_s))
      ∷ (codes "cooldown_s", number (pos rule.cooldown_s))
      ∷ saved_sensor_args rule.sensor_args_json (
          (codes "above", tree (object_item (step_to_json api rule.above)))
          ∷ (codes "below", tree (object_item (step_to_json api rule.below)))
          ∷ [])

  unfoldable pub rules_row : List (Rule Float) → Row Json
  unfolding rule_row
  rules_row rules =
      (codes "rules", tree (array_item (map rule_row (select (λ r. r.used) rules)))) ∷ []

  abbrev pub is_branch : Option Json → Bool
  is_branch none = false
  is_branch (some j) = is_object j

  -- `print_row` as in the tool, `opened` whether the file can be opened.
  module _ (print_row : Row Json → Option Bytes) (opened : Bool) where
    unfoldable pub write_rules : Option Bytes → EspErr × List (RuleEffect Float)
    write_rules none = (no_mem, [])
    write_rules (some json) = if opened then (ok, saves json ∷ []) else (fail, [])

    unfoldable pub persist_rules_locked : List (Rule Float) → EspErr × List (RuleEffect Float)
    unfolding write_rules rules_row
    persist_rules_locked rules = write_rules (print_row (rules_row rules))

    unfoldable pub created_reply : EspErr → Rule Float → AutomationReply
    created_reply ok rule = rule_created rule.id
    created_reply e rule = rule_unsaved e

    -- A rule without one of its actions is not kept, though its slot is written.
    unfoldable pub place_rule : List (Rule Float) → ℕ → Rule Float → RuleOutcome Float
    unfolding persist_rules_locked created_reply
    place_rule rules slot rule =
        if is_empty rule.above.action || is_empty rule.below.action
        then refused_rule invalid_arg actions_missing
            (set rules slot (record rule { used = false }))
        else (let placed = set rules slot rule in
            let (save_err, written) = persist_rules_locked placed in
            record {
              status = ok;
              reply = created_reply save_err rule;
              rules = placed;
              effects = written ++ (announces_rule rule ∷ []);
            })

    unfoldable pub slot_rule : List (Rule Float) → Rule Float → Option ℕ → RuleOutcome Float
    unfolding place_rule
    slot_rule rules rule none = refused_rule no_mem rule_limit rules
    slot_rule rules rule (some slot) = place_rule rules slot rule

    unfoldable pub add_rule_locked : ℕ → Json → List (Rule Float) → RuleOutcome Float
    unfolding slot_rule described_rule gen_id
    add_rule_locked time_us root rules =
        let (named, name) = json_get_string api root (codes "name") [] 32 in
        let above = item root (codes "above") in
        let below = item root (codes "below") in
        let id = gen_id (codes "rule") time_us in
        if not named
        then refused_rule invalid_arg name_missing rules
        else if not (is_branch above) || not (is_branch below)
        then refused_rule invalid_arg branches_missing rules
        else slot_rule rules (described_rule id name root above below)
            (find_index is_free_rule rules)

    -- On the parsed input.
    unfoldable pub rule_of : ℕ → List (Rule Float) → Option Json → RuleOutcome Float
    unfolding add_rule_locked
    rule_of time_us rules none = refused_rule invalid_arg invalid_json rules
    rule_of time_us rules (some root) = add_rule_locked time_us root rules

    unfoldable pub create_rule : ℕ → Bytes → List (Rule Float) → RuleOutcome Float
    unfolding rule_of
    create_rule time_us input_json rules = rule_of time_us rules (parse_object api input_json)

  -- A rule as it is loaded.
  unfoldable pub loaded_rule : Json → Rule Float
  unfolding json_get_double read_sensor_args metric_named json_get_int json_get_bool to_uint32
      fill_step_from_json json_get_string
  loaded_rule j = record {
    used = true;
    id = (json_get_string api j (codes "id") [] 24).1;
    name = (json_get_string api j (codes "name") [] 32).1;
    enabled = json_get_bool api j (codes "enabled") true;
    metric = metric_named (json_get_string api j (codes "metric") [] 32).1;
    threshold = json_get_double j (codes "threshold") zero_f;
    hysteresis = json_get_double j (codes "hysteresis") one_f;
    interval_s = to_uint32 (json_get_int api j (codes "interval_s") (pos 10));
    cooldown_s = to_uint32 (json_get_int api j (codes "cooldown_s") (pos 30));
    last_check_ms = 0;
    last_action_ms = 0;
    last_branch = unknown;
    sensor_args_json = read_sensor_args (item j (codes "sensor_args"));
    above = fill_step_from_json api (item j (codes "above")) (some (codes "control_agent"));
    below = fill_step_from_json api (item j (codes "below")) (some (codes "control_agent"));
  }

  -- The loop over the file's items; it ends early when no slot is free.
  unfoldable pub load_rule_items : List Json → List (Rule Float) → List (Rule Float)
  unfolding loaded_rule
  load_rule_items [] rules = rules
  load_rule_items (j ∷ js) rules = elim (is_object j) [
    | false ↦ load_rule_items js rules
    | true ↦ elim (find_index is_free_rule rules) [
      | none ↦ rules
      | some slot ↦ load_rule_items js (set rules slot (loaded_rule j))
    ]
  ]

  -- On the item "rules" as an array.
  unfoldable pub load_array : Option (List Json) → List (Rule Float) → List (Rule Float)
  unfolding load_rule_items
  load_array none rules = rules
  load_array (some items) rules = load_rule_items items rules

  abbrev pub array_of : Option Json → Option (List Json)
  array_of none = none
  array_of (some j) = elements j

  unfoldable pub load_root : Option Json → List (Rule Float) → List (Rule Float)
  unfolding load_array
  load_root none rules = rules
  load_root (some root) rules = load_array (array_of (item root (codes "rules"))) rules

  -- What the file holds, if it can be opened, and whether there is memory for it.
  unfoldable pub load_rules_locked :
      Bool → Option Bytes → List (Rule Float) → EspErr × List (Rule Float)
  unfolding load_root
  load_rules_locked allocated none rules = (ok, rules)
  load_rules_locked allocated (some []) rules = (ok, rules)
  load_rules_locked allocated (some (b ∷ bs)) rules =
      if allocated then (ok, load_root (parse_object api (b ∷ bs)) rules) else (no_mem, rules)
