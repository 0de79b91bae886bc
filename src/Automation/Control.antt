-- ===== src/Automation/Control.antt =====
-- main/automation/automation_engine.c: the start and stop of the engine, and the removal of an item.
use esp32_agent_mesh.Prelude.{
  if◌then◌else◌, length, get_elem?, set, replicate, select, find_index, Bytes, EspErr, ok, fail,
  no_mem, invalid_arg, not_found, ℕ, Bool, true, false, not, Option, none, some, List, [], ◌∷◌,
  ◌++◌, map,
}
use esp32_agent_mesh.Mesh.Json.{JsonApi}
use esp32_agent_mesh.Mesh.Rows.{Row}
use esp32_agent_mesh.Automation.Tables.{
  no_workflow, Metric, Floats, Rule, no_rule, max_workflows, max_rules, Engine, is_workflow,
  is_rule,
}
use esp32_agent_mesh.Automation.Workflows.{
  AutomationReply, id_missing, item_not_found, removed_workflow, removed_rule, free_slot,
}
use esp32_agent_mesh.Automation.Rules.{RuleEffect, persist_rules_locked, load_rules_locked}

pub record EngineState (F : Type 0) : Type 0 where
  pub lock_made : Bool
  pub task_running : Bool
  pub tables : Engine F

pub record Removal (F : Type 0) : Type 0 where
  pub status : EspErr
  pub reply : AutomationReply
  pub tables : Engine F
  pub effects : List (RuleEffect F)

abbrev pub unused_rule : {F : Type 0} → List (Rule F) → ℕ → Option (Rule F) → List (Rule F)
unused_rule rules slot none = rules
unused_rule rules slot (some r) = set rules slot (record r { used = false })

-- `made` says what `xSemaphoreCreateMutex` does.
unfoldable pub ensure_lock : {F : Type 0} → Bool → EngineState F → EspErr × EngineState F
ensure_lock made s =
    if not s.lock_made
    then (if made then ok else no_mem, record s { lock_made = made })
    else (ok, s)

-- `created` says whether `xTaskCreatePinnedToCore` makes the task.
unfoldable pub automation_engine_start :
    {F : Type 0} → Bool → EngineState F → EspErr × EngineState F
automation_engine_start created s =
    if s.task_running
    then (ok, s)
    else if not created
    then (fail, record s { task_running = false })
    else (ok, record s { task_running = true })

unfoldable pub automation_engine_stop : {F : Type 0} → EngineState F → EngineState F
automation_engine_stop s = if s.task_running then record s { task_running = false } else s

module _ (api : JsonApi) (floats : Floats api.Json) where
  open api use {Json}
  open floats use {Float, zero_f}

  abbrev pub empty_tables : Engine Float
  empty_tables = record {
    workflows = replicate max_workflows no_workflow;
    rules = replicate max_rules (no_rule zero_f);
  }

  unfoldable pub init_locked :
      Bool → Option Bytes → EspErr × EngineState Float → EspErr × EngineState Float
  unfolding load_rules_locked
  init_locked allocated file (ok, s) =
      let (err, rules) = load_rules_locked api floats allocated file empty_tables.rules in
      (err, record s { tables = record empty_tables { rules = rules } })
  init_locked allocated file (e, s) = (e, s)

  unfoldable pub automation_engine_init :
      Bool → Bool → Option Bytes → EngineState Float → EspErr × EngineState Float
  unfolding ensure_lock init_locked
  automation_engine_init made allocated file s = init_locked allocated file (ensure_lock made s)

  module _ (print_row : Row Json → Option Bytes) (opened : Bool) where
    unfoldable pub remove_rule : Bytes → Engine Float → Option ℕ → Removal Float
    unfolding persist_rules_locked
    remove_rule id e none = record {
      status = not_found;
      reply = item_not_found;
      tables = e;
      effects = [];
    }
    remove_rule id e (some slot) =
        let rules = unused_rule e.rules slot (get_elem? e.rules slot) in
        let (save_err, written) = persist_rules_locked api floats print_row opened rules in
        record {
          status = ok;
          reply = removed_rule id save_err;
          tables = record e { rules = rules };
          effects = written;
        }

    unfoldable pub remove_workflow : Bytes → Engine Float → Option ℕ → Removal Float
    unfolding remove_rule
    remove_workflow id e none = remove_rule id e (find_index (is_rule id) e.rules)
    remove_workflow id e (some slot) = record {
      status = ok;
      reply = removed_workflow id;
      tables = record e { workflows = free_slot e.workflows slot (get_elem? e.workflows slot) };
      effects = [];
    }

    -- An absent id is an empty one.
    unfoldable pub automation_engine_remove : Bytes → Engine Float → Removal Float
    unfolding remove_workflow
    automation_engine_remove [] e = record {
      status = invalid_arg;
      reply = id_missing;
      tables = e;
      effects = [];
    }
    automation_engine_remove (b ∷ bs) e =
        remove_workflow (b ∷ bs) e (find_index (is_workflow (b ∷ bs)) e.workflows)

-- The lines of `automation_engine_list`, before they are cut to the output.
pub data ListLine (F : Type 0) : Type 0 where
  workflow_line : Bytes → Bytes → ℕ → Bool → ListLine F
  rule_line : Bytes → Bytes → Metric → F → ℕ → ℕ → Bool → ListLine F

unfoldable pub automation_engine_list : {F : Type 0} → Engine F → List (ListLine F)
automation_engine_list e =
    map (λ w. workflow_line w.id w.name (length w.steps) w.enabled)
      (select (λ w. w.used) e.workflows)
    ++ map (λ r. rule_line r.id r.name r.metric r.threshold r.interval_s r.cooldown_s r.enabled)
        (select (λ r. r.used) e.rules)
