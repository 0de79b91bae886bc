-- ===== src/Automation/Running.antt =====
-- main/automation/automation_engine.c: which steps of a workflow are executed, that its slot is free when
-- it has ended, and what the removal of an item does.
use esp32_agent_mesh.Prelude.{
  ltb, if◌then◌else◌, Bool-cases, get_elem?, take, All, select, find_index, Bytes, str_eq, EspErr,
  ok, not_found, is_ok, ℕ, suc, ◌+◌, ◌≡◌, refl, ap, ◌⊎◌, inl, inr, Bool, false, Option, none, some,
  List, [], ◌∷◌,
}
use esp32_agent_mesh.Mesh.Json.{JsonApi}
use esp32_agent_mesh.Mesh.Rows.{Row}
use esp32_agent_mesh.Automation.Steps.{AutomationStep}
use esp32_agent_mesh.Automation.Tables.{
  Workflow, no_workflow, Floats, Rule, Engine, is_workflow, is_rule,
}
use esp32_agent_mesh.Automation.Workflows.{
  WorkflowEffect, executes, reports, run_steps, free_slot, vacated, workflow_task,
}
use esp32_agent_mesh.Automation.Control.{
  Removal, unused_rule, remove_rule, remove_workflow, automation_engine_remove,
}
use esp32_agent_mesh.Automation.Slots.{IsRemoved, used-IsRemoved, none-All}
use esp32_agent_mesh.Automation.Adding.{active_workflows}

abbrev pub executed : List WorkflowEffect → List AutomationStep
executed [] = []
executed (executes step ∷ es) = step ∷ executed es
executed (e ∷ es) = executed es

abbrev pub reported : List WorkflowEffect → List EspErr
reported [] = []
reported (reports i err ∷ es) = err ∷ reported es
reported (e ∷ es) = reported es

-- What all the steps would come to, and how many are done up to the first error.
abbrev pub results : (ℕ → AutomationStep → EspErr) → ℕ → List AutomationStep → List EspErr
results run i [] = []
results run i (step ∷ steps) = run i step ∷ results run (i + 1) steps

pub up_to_error : List EspErr → ℕ
up_to_error [] = 0
up_to_error (e ∷ es) = if is_ok e then suc (up_to_error es) else 1

run_steps-prefix :
    (run : ℕ → AutomationStep → EspErr) (i : ℕ) (steps : List AutomationStep)
    → (executed (run_steps run i steps) ≡ take (up_to_error (results run i steps)) steps)
      × (reported (run_steps run i steps)
          ≡ take (up_to_error (results run i steps)) (results run i steps))
unfolding run_steps up_to_error
run_steps-prefix run i [] = (refl, refl)
run_steps-prefix run i (step ∷ steps) =
    let (a, b) = run_steps-prefix run (i + 1) steps in
    elim (Bool-cases (ltb 0 step.delay_ms)) [
      | inl d ↦ elim (Bool-cases (is_ok (run i step))) [
        | inl e ↦ rw (d, e) (ap (◌∷◌ step) a, ap (◌∷◌ (run i step)) b)
        | inr e ↦ rw (d, e) (refl, refl)
      ]
      | inr d ↦ elim (Bool-cases (is_ok (run i step))) [
        | inl e ↦ rw (d, e) (ap (◌∷◌ step) a, ap (◌∷◌ (run i step)) b)
        | inr e ↦ rw (d, e) (refl, refl)
      ]
    ]

-- The list of the workflows in use has lost the first with the id, or there is none and it is as it was.
abbrev pub FreedOrAbsent : Bytes → List Workflow → List Workflow → Type 0
FreedOrAbsent id before after =
    IsRemoved (λ (w : Workflow). w.used) (λ w. str_eq w.id id) (active_workflows before)
      (active_workflows after)
    ⊎ (All (λ w. str_eq w.id id ≡ false) (active_workflows before) × (after ≡ before))

free_slot-IsRemoved :
    (id : Bytes) (table : List Workflow) (slot : ℕ)
    → find_index (is_workflow id) table ≡ some slot
    → IsRemoved
        (λ (w : Workflow). w.used)
        (λ (w : Workflow). str_eq w.id id)
        (active_workflows table)
        (active_workflows (free_slot table slot (get_elem? table slot)))
free_slot-IsRemoved id table slot h =
    let (w, at, removed) =
      used-IsRemoved (λ (w : Workflow). w.used) (λ w. str_eq w.id id) table slot
        (λ w. record w { used = false }) (λ w. refl) h in
    rw at removed

vacated-freed :
    (id : Bytes) (table : List Workflow) (slot : Option ℕ)
    → find_index (is_workflow id) table ≡ slot
    → FreedOrAbsent id table (vacated table slot)
vacated-freed id table none h =
    inr (none-All (λ (w : Workflow). w.used) (λ w. str_eq w.id id) table h, refl)
vacated-freed id table (some slot) h = inl (free_slot-IsRemoved id table slot h)

-- The task of a workflow, whatever its steps come to, executes them in order up to the first that
-- fails or to the last, reports what each came to, and ends: the list of the workflows in use then
-- has lost the first with the workflow's id, or had none and is as it was.
pub workflow_task_ends :
    (run : ℕ → AutomationStep → EspErr) (workflow : Workflow) (table : List Workflow)
    → (executed (workflow_task run workflow table).0
        ≡ take (up_to_error (results run 0 workflow.steps)) workflow.steps)
      × (reported (workflow_task run workflow table).0
          ≡ take (up_to_error (results run 0 workflow.steps)) (results run 0 workflow.steps))
      × FreedOrAbsent workflow.id table (workflow_task run workflow table).1
unfolding workflow_task
workflow_task_ends run workflow table =
    let (a, b) = run_steps-prefix run 0 workflow.steps in
    (a, b, vacated-freed workflow.id table (find_index (is_workflow workflow.id) table) refl)

abbrev pub active_rules : {F : Type 0} → List (Rule F) → List (Rule F)
active_rules = select (λ r. r.used)

module _ (api : JsonApi) (floats : Floats api.Json) (print_row : Row api.Json → Option Bytes)
    (opened : Bool) where
  -- The three ways in which a removal ends.
  pub data IsRemoval (id : Bytes) (e : Engine floats.Float) (o : Removal floats.Float)
      : Type 0 where
    of_workflow :
        o.status ≡ ok
        → IsRemoved
            (λ (w : Workflow). w.used)
            (λ w. str_eq w.id id)
            (active_workflows e.workflows)
            (active_workflows o.tables.workflows)
        → o.tables.rules ≡ e.rules
        → IsRemoval id e o
    of_rule :
        o.status ≡ ok
        → All (λ w. str_eq w.id id ≡ false) (active_workflows e.workflows)
        → IsRemoved
            (λ (r : Rule floats.Float). r.used)
            (λ r. str_eq r.id id)
            (active_rules e.rules)
            (active_rules o.tables.rules)
        → o.tables.workflows ≡ e.workflows
        → IsRemoval id e o
    of_nothing :
        o.status ≡ not_found
        → All (λ w. str_eq w.id id ≡ false) (active_workflows e.workflows)
        → All (λ r. str_eq r.id id ≡ false) (active_rules e.rules)
        → o.tables ≡ e
        → IsRemoval id e o

  unused_rule-IsRemoved :
      (id : Bytes) (rules : List (Rule floats.Float)) (slot : ℕ)
      → find_index (is_rule id) rules ≡ some slot
      → IsRemoved
          (λ (r : Rule floats.Float). r.used)
          (λ (r : Rule floats.Float). str_eq r.id id)
          (active_rules rules)
          (active_rules (unused_rule rules slot (get_elem? rules slot)))
  unused_rule-IsRemoved id rules slot h =
      let (r, at, removed) =
        used-IsRemoved (λ (r : Rule floats.Float). r.used) (λ r. str_eq r.id id) rules slot
          (λ r. record r { used = false }) (λ r. refl) h in
      rw at removed

  remove_rule-IsRemoval :
      (id : Bytes) (e : Engine floats.Float) (slot : Option ℕ)
      → find_index (is_rule id) e.rules ≡ slot
      → All (λ w. str_eq w.id id ≡ false) (active_workflows e.workflows)
      → IsRemoval id e (remove_rule api floats print_row opened id e slot)
  unfolding remove_rule
  remove_rule-IsRemoval id e none h no_workflow =
      of_nothing refl no_workflow
        (none-All (λ (r : Rule floats.Float). r.used) (λ r. str_eq r.id id) e.rules h) refl
  remove_rule-IsRemoval id e (some slot) h no_workflow =
      of_rule refl no_workflow (unused_rule-IsRemoved id e.rules slot h) refl

  remove_workflow-IsRemoval :
      (id : Bytes) (e : Engine floats.Float) (slot : Option ℕ)
      → find_index (is_workflow id) e.workflows ≡ slot
      → IsRemoval id e (remove_workflow api floats print_row opened id e slot)
  unfolding remove_workflow
  remove_workflow-IsRemoval id e none h =
      remove_rule-IsRemoval id e (find_index (is_rule id) e.rules) refl
        (none-All (λ (w : Workflow). w.used) (λ w. str_eq w.id id) e.workflows h)
  remove_workflow-IsRemoval id e (some slot) h =
      of_workflow refl (free_slot-IsRemoved id e.workflows slot h) refl

  -- A removal by an id that is not empty takes the first workflow in use with that id and leaves the
  -- rules; or, where there is none, takes the first rule in use with it and leaves the workflows; or,
  -- where there is neither, says so and leaves all as it was.
  pub automation_engine_remove-IsRemoval :
      (b : ℕ) (bs : Bytes) (e : Engine floats.Float)
      → IsRemoval (b ∷ bs) e (automation_engine_remove api floats print_row opened (b ∷ bs) e)
  unfolding automation_engine_remove
  automation_engine_remove-IsRemoval b bs e =
      remove_workflow-IsRemoval (b ∷ bs) e (find_index (is_workflow (b ∷ bs)) e.workflows) refl
