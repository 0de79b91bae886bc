-- ===== src/Automation/Workflows.antt =====
-- main/automation/automation_engine.c: the creation of a workflow, and the task that runs it.
-- What the output says.
use esp32_agent_mesh.Prelude.{
  ltb, ◌==◌, if◌then◌else◌, length, get_elem?, set, find_index, Bytes, codes, is_empty, EspErr, ok,
  no_mem, invalid_arg, is_ok, ℕ, ◌+◌, Bool, true, false, not, ◌||◌, Option, none, some, List, [],
  ◌∷◌, ◌++◌,
}
use esp32_agent_mesh.Mesh.Json.{JsonApi, parse_object}
use esp32_agent_mesh.Automation.Steps.{AutomationStep, json_get_string, fill_step_from_json}
use esp32_agent_mesh.Automation.Tables.{
  Workflow, no_workflow, Floats, max_steps, gen_id, is_free_workflow, is_workflow,
}

pub data AutomationReply : Type 0 where
  invalid_json name_missing steps_missing steps_out_of_range workflow_limit out_of_memory :
      AutomationReply
  task_failed branches_missing rule_limit actions_missing id_missing item_not_found :
      AutomationReply
  step_without_action : ℕ → AutomationReply
  workflow_created : Bytes → ℕ → AutomationReply
  rule_created removed_workflow : Bytes → AutomationReply
  rule_unsaved : EspErr → AutomationReply
  removed_rule : Bytes → EspErr → AutomationReply

pub data WorkflowEffect : Type 0 where
  announces starts : Workflow → WorkflowEffect
  waits_ms : ℕ → WorkflowEffect
  executes : AutomationStep → WorkflowEffect
  reports : ℕ → EspErr → WorkflowEffect

pub record WorkflowOutcome : Type 0 where
  pub status : EspErr
  pub reply : AutomationReply
  pub table : List Workflow
  pub effects : List WorkflowEffect

-- The end of `add_workflow_locked`, with the slot's new contents: `allocated` and `created` are what
-- `calloc` and `xTaskCreate` say.
unfoldable pub start_workflow : Bool → Bool → List Workflow → ℕ → Workflow → WorkflowOutcome
start_workflow allocated created table slot wf =
    if not allocated
    then record {
      status = no_mem;
      reply = out_of_memory;
      table = set table slot (record wf { used = false });
      effects = [];
    }
    else if not created
    then record {
      status = no_mem;
      reply = task_failed;
      table = set table slot (record wf { used = false });
      effects = announces wf ∷ [];
    }
    else record {
      status = ok;
      reply = workflow_created wf.id (length wf.steps);
      table = set table slot wf;
      effects = announces wf ∷ starts wf ∷ [];
    }

abbrev pub refused_workflow : EspErr → AutomationReply → List Workflow → WorkflowOutcome
refused_workflow e reply table = record { status = e; reply = reply; table = table; effects = [] }

-- The steps up to the first without an action, and the number of that one.
abbrev pub Filled : Type 0
Filled = List AutomationStep × Option ℕ

abbrev pub fill_next : AutomationStep → ℕ → Filled → Filled
fill_next step n (steps, bad) = if is_empty step.action then ([], some n) else (step ∷ steps, bad)

unfoldable pub place_workflow :
    Bool → Bool → Bytes → Bytes → List Workflow → ℕ → Filled → WorkflowOutcome
unfolding start_workflow
place_workflow allocated created id name table slot (steps, some n) =
    refused_workflow invalid_arg (step_without_action n) (set table slot no_workflow)
place_workflow allocated created id name table slot (steps, none) =
    start_workflow allocated created table slot
      (record { used = true; id = id; name = name; enabled = true; steps = steps })

module _ (api : JsonApi) (floats : Floats api.Json) where
  open api use {Json, item}
  open floats use {elements}

  unfoldable pub fill_steps : ℕ → List Json → Filled
  unfolding fill_step_from_json
  fill_steps n [] = ([], none)
  fill_steps n (j ∷ js) =
      fill_next (fill_step_from_json api (some j) (some (codes "control_agent"))) n
        (fill_steps (n + 1) js)

  abbrev pub array_in : Option Json → Option (List Json)
  array_in none = none
  array_in (some j) = elements j

  -- `allocated`, `created` and `id` as above; the id is made from the time.
  module _ (allocated created : Bool) (time_us : ℕ) where
    unfoldable pub slot_workflow : Bytes → List Workflow → List Json → Option ℕ → WorkflowOutcome
    unfolding place_workflow fill_steps gen_id
    slot_workflow name table steps none = refused_workflow no_mem workflow_limit table
    slot_workflow name table steps (some slot) =
        place_workflow allocated created (gen_id (codes "wf") time_us) name table slot
          (fill_steps 1 steps)

    -- On the item "steps" as an array.
    unfoldable pub count_steps : Bytes → List Workflow → Option (List Json) → WorkflowOutcome
    unfolding slot_workflow
    count_steps name table none = refused_workflow invalid_arg steps_missing table
    count_steps name table (some steps) =
        if length steps == 0 || ltb max_steps (length steps)
        then refused_workflow invalid_arg steps_out_of_range table
        else slot_workflow name table steps (find_index is_free_workflow table)

    unfoldable pub add_workflow_locked : Json → List Workflow → WorkflowOutcome
    unfolding count_steps json_get_string
    add_workflow_locked root table =
        let (named, name) = json_get_string api root (codes "name") [] 32 in
        if not named
        then refused_workflow invalid_arg name_missing table
        else count_steps name table (array_in (item root (codes "steps")))

    -- On the parsed input.
    unfoldable pub created_of : List Workflow → Option Json → WorkflowOutcome
    unfolding add_workflow_locked
    created_of table none = refused_workflow invalid_arg invalid_json table
    created_of table (some root) = add_workflow_locked root table

    unfoldable pub create_workflow : Bytes → List Workflow → WorkflowOutcome
    unfolding created_of
    create_workflow input_json table = created_of table (parse_object api input_json)

-- The task's loop. `run` is what the execution of the i-th step comes to.
unfoldable pub run_steps :
    (ℕ → AutomationStep → EspErr) → ℕ → List AutomationStep → List WorkflowEffect
run_steps run i [] = []
run_steps run i (step ∷ steps) =
    let err = run i step in
    let rest = run_steps run (i + 1) steps in
    let delays = if ltb 0 step.delay_ms then waits_ms step.delay_ms ∷ [] else [] in
    delays ++ (executes step ∷ reports (i + 1) err ∷ (if is_ok err then rest else []))

abbrev pub free_slot : List Workflow → ℕ → Option Workflow → List Workflow
free_slot table slot none = table
free_slot table slot (some w) = set table slot (record w { used = false })

abbrev pub vacated : List Workflow → Option ℕ → List Workflow
vacated table none = table
vacated table (some slot) = free_slot table slot (get_elem? table slot)

-- After the loop, with the table as it is then.
unfoldable pub finish_workflow : Bytes → List Workflow → List Workflow
finish_workflow id table = vacated table (find_index (is_workflow id) table)

unfoldable pub workflow_task :
    (ℕ → AutomationStep → EspErr) → Workflow → List Workflow → List WorkflowEffect × List Workflow
unfolding run_steps finish_workflow
workflow_task run workflow table =
    (run_steps run 0 workflow.steps, finish_workflow workflow.id table)
