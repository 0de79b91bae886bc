-- ===== src/Automation/Tests.antt =====
-- The automation engine on a toy JSON library whose floats are numbers, and the theorems at concrete
-- workflows, rules and looks.
use esp32_agent_mesh.Prelude.{
  ltb, ◌==◌, if◌then◌else◌, length, take, replicate, find_index, Bytes, codes, str_eq, same_name,
  EspErr, ok, fail, ℕ, ◌+◌, ◌-◌, ◌≡◌, refl, true, false, Option, none, some, List, [], ◌∷◌, map,
}
use esp32_agent_mesh.Prelude.Int.{pos, negsuc}
use esp32_agent_mesh.Mesh.Json.{parse_object, json_string}
use esp32_agent_mesh.Mesh.Rows.{Row}
use esp32_agent_mesh.Mesh.Toy.{
  Toy, str, num, obj, arr, Fields, end, field, find_field, toy_elements, find_doc, toy, toy_fields,
}
use esp32_agent_mesh.Automation.Steps.{AutomationStep, no_step, json_get_string}
use esp32_agent_mesh.Automation.Tables.{
  Workflow, no_workflow, unknown, Floats, Rule, no_rule, max_workflows, max_rules, Engine,
}
use esp32_agent_mesh.Automation.Workflows.{WorkflowOutcome, create_workflow, workflow_task}
use esp32_agent_mesh.Automation.Rules.{create_rule}
use esp32_agent_mesh.Automation.Control.{automation_engine_remove}
use esp32_agent_mesh.Automation.Checking.{check_rule}
use esp32_agent_mesh.Automation.Adding.{
  active_workflows, CreatedOrNot, create_workflow-CreatedOrNot,
}
use esp32_agent_mesh.Automation.Running.{
  executed, reported, results, up_to_error, FreedOrAbsent, workflow_task_ends, IsRemoval,
  automation_engine_remove-IsRemoval,
}
use esp32_agent_mesh.Automation.RuleAdding.{RuleCreatedOrNot, create_rule-RuleCreatedOrNot}
use esp32_agent_mesh.Automation.Pacing.{Act, run_rule, IsPaced, run_rule-IsPaced}

abbrev step_fields : Fields
step_fields = field (codes "action") (str (codes "servo_write")) end

abbrev workflow_doc : Toy
workflow_doc = obj (
    field (codes "name") (str (codes "wave")) (
      field (codes "steps") (arr (field [] (obj step_fields) (field [] (obj step_fields) end)))
        end))

abbrev rule_doc : Toy
rule_doc = obj (
    field (codes "name") (str (codes "cool")) (
      field (codes "above") (obj step_fields) (
        field (codes "below") (obj step_fields) (field (codes "interval_s") (num (negsuc 0)) end))))

abbrev docs : List (Bytes × Toy)
docs = (codes "wf", workflow_doc) ∷ (codes "rule", rule_doc) ∷ []

abbrev floats : Floats Toy
floats = record {
  Float = ℕ;
  gt = λ a b. ltb b a;
  plus = λ a b. a + b;
  minus = λ a b. a - b;
  zero_f = 0;
  one_f = 1;
  thirty_five_f = 35;
  float_value = λ j. elim j [ num (pos n) ↦ some n | _ ↦ none ];
  number_item = λ n. num (pos n);
  scan = λ s. none;
  elements = λ j. elim j [ arr fs ↦ some (toy_elements fs) | _ ↦ none ];
  object_item = λ row. obj (toy_fields row);
  array_item = λ rows. obj end;
}

abbrev no_workflows : List Workflow
no_workflows = replicate max_workflows no_workflow

abbrev made : WorkflowOutcome
made = create_workflow (toy docs) floats true true 5 (codes "wf") no_workflows

made_ok : (made.status ≡ ok) × (length (active_workflows made.table) ≡ 1)
unfolding create_workflow parse_object find_doc find_field str_eq same_name json_get_string
    json_string find_index
made_ok = (refl, refl)

create_workflow-CreatedOrNot_example : CreatedOrNot no_workflows made
create_workflow-CreatedOrNot_example =
    create_workflow-CreatedOrNot (toy docs) floats true true 5 no_workflows (codes "wf")

abbrev servo_step : ℕ → AutomationStep
servo_step delay_ms = record no_step { action = codes "servo_write"; delay_ms = delay_ms }

abbrev running : Workflow
running = record {
  used = true;
  id = codes "wf-1";
  name = codes "wave";
  enabled = true;
  steps = servo_step 0 ∷ servo_step 10 ∷ servo_step 0 ∷ [];
}

abbrev fails_second : ℕ → AutomationStep → EspErr
fails_second i step = if i == 1 then fail else ok

ran :
    (workflow_task fails_second running (no_workflow ∷ running ∷ [])).1
    ≡ no_workflow ∷ record running { used = false } ∷ []
unfolding workflow_task find_index str_eq
ran = refl

workflow_task_ends_example :
    (executed (workflow_task fails_second running (no_workflow ∷ running ∷ [])).0
      ≡ take (up_to_error (results fails_second 0 running.steps)) running.steps)
    × (reported (workflow_task fails_second running (no_workflow ∷ running ∷ [])).0
        ≡ take
            (up_to_error (results fails_second 0 running.steps))
            (results fails_second 0 running.steps))
    × FreedOrAbsent running.id
        (no_workflow ∷ running ∷ [])
        (workflow_task fails_second running (no_workflow ∷ running ∷ [])).1
workflow_task_ends_example = workflow_task_ends fails_second running (no_workflow ∷ running ∷ [])

abbrev no_rules : List (Rule ℕ)
no_rules = replicate max_rules (no_rule 0)

abbrev no_print : Row Toy → Option Bytes
no_print row = none

create_rule-RuleCreatedOrNot_example :
    RuleCreatedOrNot no_rules
      (create_rule (toy docs) floats no_print true 5 (codes "rule") no_rules)
create_rule-RuleCreatedOrNot_example =
    create_rule-RuleCreatedOrNot (toy docs) floats no_print true no_rules 5 (codes "rule")

abbrev tables : Engine ℕ
tables = record { workflows = running ∷ []; rules = no_rules }

automation_engine_remove-IsRemoval_example :
    IsRemoval
      (toy docs)
      floats
      no_print
      true
      (codes "wf-1")
      tables
      (automation_engine_remove (toy docs) floats no_print true (codes "wf-1") tables)
automation_engine_remove-IsRemoval_example =
    automation_engine_remove-IsRemoval (toy docs) floats no_print true 119 (codes "f-1") tables

-- Acts above 35 and at or below it, with a band of 2, every second, resting two seconds.
abbrev fan : Rule ℕ
fan = record (no_rule 0) {
  used = true;
  enabled = true;
  threshold = 35;
  hysteresis = 2;
  interval_s = 1;
  cooldown_s = 2;
  above = servo_step 0;
  below = servo_step 9;
}

abbrev looks : List (ℕ × Option ℕ)
looks =
    (1000, some 40)
    ∷ (1500, some 40)
    ∷ (2000, some 40)
    ∷ (4000, some 34)
    ∷ (5000, none)
    ∷ (6000, some 33)
    ∷ []

fan_acts : map (λ (a : Act floats). a.now_ms) (run_rule floats fan looks) ≡ 1000 ∷ 6000 ∷ []
unfolding run_rule check_rule str_eq
fan_acts = refl

run_rule-IsPaced_example :
    IsPaced floats (servo_step 0) (servo_step 9) 35 2 2 0 unknown (run_rule floats fan looks)
run_rule-IsPaced_example = run_rule-IsPaced floats fan looks
