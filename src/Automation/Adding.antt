-- ===== src/Automation/Adding.antt =====
-- main/automation/automation_engine.c: a workflow is put into the table, or the table stays as it was.
use esp32_agent_mesh.Prelude.{
  ltb, ◌==◌, Bool-cases, if_cases, length, All, select, find_index, Bytes, codes, is_empty, ok,
  is_ok, ℕ, suc, ◌+◌, ◌≤◌, ◌≡◌, refl, ap, ◌⊎◌, inl, inr, Bool, true, false, not, ◌||◌, Option, none,
  some, List, [], ◌∷◌, arith,
}
use esp32_agent_mesh.Mesh.Json.{JsonApi, parse_object}
use esp32_agent_mesh.Automation.Steps.{AutomationStep, json_get_string, fill_step_from_json}
use esp32_agent_mesh.Automation.Tables.{
  Workflow, no_workflow, Floats, max_steps, gen_id, is_free_workflow,
}
use esp32_agent_mesh.Automation.Workflows.{
  WorkflowEffect, announces, starts, WorkflowOutcome, start_workflow, Filled, place_workflow,
  fill_steps, array_in, slot_workflow, count_steps, add_workflow_locked, created_of,
  create_workflow,
}
use esp32_agent_mesh.Automation.Slots.{IsAdded, Write, free-Write}

abbrev pub active_workflows : List Workflow → List Workflow
active_workflows = select (λ w. w.used)

abbrev pub HasAction : AutomationStep → Type 0
HasAction step = is_empty step.action ≡ false

pub record IsCreated (table : List Workflow) (o : WorkflowOutcome) : Type 0 where
  pub workflow : Workflow
  pub added : IsAdded (λ w. w.used) workflow (active_workflows table) (active_workflows o.table)
  pub started : o.effects ≡ announces workflow ∷ starts workflow ∷ []
  pub is_on : workflow.enabled ≡ true
  pub some_steps : 1 ≤ length workflow.steps
  pub few_steps : length workflow.steps ≤ max_steps
  pub have_actions : All HasAction workflow.steps

abbrev pub is_start : WorkflowEffect → Bool
is_start (starts w) = true
is_start _ = false

-- Either one workflow more, or as many as before.
abbrev pub CreatedOrNot : List Workflow → WorkflowOutcome → Type 0
CreatedOrNot table o =
    ((o.status ≡ ok) × IsCreated table o)
    ⊎ ((is_ok o.status ≡ false)
        × (active_workflows o.table ≡ active_workflows table)
        × All (λ e. is_start e ≡ false) o.effects)

fill_steps-done :
    (api : JsonApi) (floats : Floats api.Json) (n : ℕ) (js : List api.Json)
    → (fill_steps api floats n js).1 ≡ none
    → (length (fill_steps api floats n js).0 ≡ length js)
      × All HasAction (fill_steps api floats n js).0
unfolding fill_steps
fill_steps-done api floats n [] h = (refl, tt)
fill_steps-done api floats n (j ∷ js) h =
    let step = fill_step_from_json api (some j) (some (codes "control_agent")) in
    elim (Bool-cases (is_empty step.action)) [
      | inl e ↦ absurd (cc (rw e at h))
      | inr e ↦
          let (l, a) = fill_steps-done api floats (n + 1) js (rw e at h) in rw e (ap suc l, (e, a))
    ]

module _ (allocated created : Bool) (table : List Workflow) (slot : ℕ)
    (write : Write (λ (w : Workflow). w.used) table slot) where
  start_workflow_sound :
      (wf : Workflow)
      → wf.used ≡ true
      → wf.enabled ≡ true
      → 1 ≤ length wf.steps
      → length wf.steps ≤ max_steps
      → All HasAction wf.steps
      → CreatedOrNot table (start_workflow allocated created table slot wf)
  unfolding start_workflow
  start_workflow_sound wf u on a b acts =
      if_cases (CreatedOrNot table) (not allocated) _ _
        (λ e. inr (refl, write.1 (record wf { used = false }) refl, tt))
        (λ e.
          if_cases (CreatedOrNot table) (not created) _ _
            (λ f. inr (refl, write.1 (record wf { used = false }) refl, (refl, tt)))
            (λ f. inl (
              refl,
              record {
                workflow = wf;
                added = write.0 wf u;
                started = refl;
                is_on = on;
                some_steps = a;
                few_steps = b;
                have_actions = acts;
              },
            )))

  place_workflow_sound :
      (id name : Bytes) (filled : Filled)
      → (filled.1 ≡ none
          → (1 ≤ length filled.0) × (length filled.0 ≤ max_steps) × All HasAction filled.0)
      → CreatedOrNot table (place_workflow allocated created id name table slot filled)
  unfolding place_workflow
  place_workflow_sound id name (steps, some n) h = inr (refl, write.1 no_workflow refl, tt)
  place_workflow_sound id name (steps, none) h =
      let (a, b, acts) = h refl in
      start_workflow_sound
        (record { used = true; id = id; name = name; enabled = true; steps = steps }) refl refl a b
        acts

module _ (api : JsonApi) (floats : Floats api.Json) (allocated created : Bool) (time_us : ℕ)
    (table : List Workflow) where
  slot_workflow_sound :
      (name : Bytes) (steps : List api.Json) (slot : Option ℕ)
      → find_index is_free_workflow table ≡ slot
      → 1 ≤ length steps
      → length steps ≤ max_steps
      → CreatedOrNot table
          (slot_workflow api floats allocated created time_us name table steps slot)
  unfolding slot_workflow
  slot_workflow_sound name steps none h a b = inr (refl, refl, tt)
  slot_workflow_sound name steps (some slot) h a b =
      place_workflow_sound allocated created table slot (free-Write (λ w. w.used) table slot h)
        (gen_id (codes "wf") time_us) name (fill_steps api floats 1 steps)
        (λ e.
          let (l, acts) = fill_steps-done api floats 1 steps e in
          (omega (arith, l), omega (arith, l), acts))

  count_steps_sound :
      (name : Bytes) (steps : Option (List api.Json))
      → CreatedOrNot table (count_steps api floats allocated created time_us name table steps)
  unfolding count_steps
  count_steps_sound name none = inr (refl, refl, tt)
  count_steps_sound name (some steps) =
      if_cases (CreatedOrNot table) (length steps == 0 || ltb max_steps (length steps)) _ _
        (λ e. inr (refl, refl, tt))
        (λ e.
          slot_workflow_sound name steps (find_index is_free_workflow table) refl
            (ground (arith, e)) (ground (arith, e)))

  add_workflow_locked_sound :
      (root : api.Json)
      → CreatedOrNot table (add_workflow_locked api floats allocated created time_us root table)
  unfolding add_workflow_locked
  add_workflow_locked_sound root =
      if_cases (CreatedOrNot table) (not (json_get_string api root (codes "name") [] 32).0) _ _
        (λ e. inr (refl, refl, tt))
        (λ e.
          count_steps_sound (json_get_string api root (codes "name") [] 32).1
            (array_in api floats (api.item root (codes "steps"))))

  parsed_sound :
      (root : Option api.Json)
      → CreatedOrNot table (created_of api floats allocated created time_us table root)
  unfolding created_of
  parsed_sound none = inr (refl, refl, tt)
  parsed_sound (some root) = add_workflow_locked_sound root

  -- A request for a workflow ends in one of two ways. Its status is ok, and the list of the workflows
  -- in use has one more, that is enabled, has one to eight steps, all with an action, and is
  -- announced and started; or the status is an error, the list is as before, and nothing is started.
  pub create_workflow-CreatedOrNot :
      (input_json : Bytes)
      → CreatedOrNot table (create_workflow api floats allocated created time_us input_json table)
  unfolding create_workflow
  create_workflow-CreatedOrNot input_json = parsed_sound (parse_object api input_json)
