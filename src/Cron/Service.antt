-- ===== src/Cron/Service.antt =====
-- main/cron/cron_service.c: the table of jobs. `s_jobs` up to `s_job_count` is a list; the cells
-- behind the count are never read.
use esp32_agent_mesh.Prelude.{
  leb, if◌then◌else◌, length, get_elem?, set, remove_at, find_index, Bytes, str_eq, EspErr, ok,
  fail, no_mem, not_found, ℕ, zero, suc, Bool, true, false, not, ◌&&◌, Option, none, some, List, [],
  ◌∷◌, ◌++◌, map,
}
use esp32_agent_mesh.Prelude.Int.{pos}
use esp32_agent_mesh.Bus.Messages.{Msg}
use esp32_agent_mesh.Cron.Jobs.{
  Job, max_cron_jobs, Calendar, is_at, initial_next_run, recompute, after_run, sanitize_destination,
  is_due, job_msg,
}

-- What a visit of the loop in `cron_process_due_jobs` does to the job at `i`.
pub data Visit : Type 0 where
  pass : Visit
  keep : Job → Visit
  drop_job : Visit

module _ (local_time : Calendar) where
  unfoldable pub visit : ℕ → Job → Visit
  unfolding is_due after_run
  visit now job =
      if not (is_due now job)
      then pass
      else if is_at job.kind && job.delete_after_run
      then drop_job
      else keep (after_run local_time job.kind now job)

-- The bus that the messages go to, and whether `strdup` of a message succeeds.
module _ {B : Type 0} (push : Msg → B → EspErr × B) (duplicated : Bytes → Bool) where
  -- A push that fails is logged, and the message is freed.
  unfoldable pub deliver : Job → B → B
  deliver job b = if duplicated job.message then (push (job_msg job) b).1 else b

  -- The loop, at index `i`, on fuel: a visit moves on or shortens the list.
  unfoldable pub process_from : Calendar → ℕ → ℕ → ℕ → List Job → B → Bool → List Job × B × Bool
  process_from local_time now zero i jobs b changed = (jobs, b, changed)
  process_from local_time now (suc fuel) i jobs b changed = elim (get_elem? jobs i) [
    | none ↦ (jobs, b, changed)
    | some job ↦ elim (visit local_time now job) [
      | pass ↦ process_from local_time now fuel (suc i) jobs b changed
      | keep job' ↦ process_from local_time now fuel (suc i) (set jobs i job') (deliver job b) true
      | drop_job ↦ process_from local_time now fuel i (remove_at jobs i) (deliver job b) true
    ]
  ]

  -- The jobs, the bus, and whether the table is saved.
  unfoldable pub process_due_jobs : Calendar → ℕ → List Job → B → List Job × B × Bool
  unfolding process_from
  process_due_jobs local_time now jobs b =
      process_from local_time now (suc (length jobs)) 0 jobs b false

-- `cron_add_job`: `fresh_id` is what `cron_generate_id` wrote. The job as stored is the last entry.
unfoldable pub add_job : Calendar → ℕ → Bytes → Job → List Job → EspErr × List Job
unfolding sanitize_destination initial_next_run
add_job local_time now fresh_id job jobs =
    if leb max_cron_jobs (length jobs)
    then (no_mem, jobs)
    else let named = record job { id = fresh_id } in
      let ready = record (sanitize_destination named).0 { enabled = true; last_run = pos 0 } in
      (ok, jobs ++ initial_next_run local_time ready.kind now ready ∷ [])

unfoldable pub remove_found : Option ℕ → List Job → EspErr × List Job
remove_found none jobs = (not_found, jobs)
remove_found (some i) jobs = (ok, remove_at jobs i)

unfoldable pub remove_job : Bytes → List Job → EspErr × List Job
unfolding remove_found
remove_job job_id jobs = remove_found (find_index (λ job. str_eq job.id job_id) jobs) jobs

-- `cron_service_start`: `started` is what `xTaskCreate` comes to. The last part is whether the task
-- runs.
unfoldable pub service_start : Calendar → ℕ → Bool → List Job → Bool → EspErr × List Job × Bool
unfolding recompute
service_start local_time now started jobs running =
    if running
    then (ok, jobs, true)
    else (if started then ok else fail, map (recompute local_time now) jobs, started)

unfoldable pub service_stop : Bool → Bool
service_stop running = false
