-- ===== src/Cron/Table.antt =====
-- main/cron/cron_service.c: what the operations on the table promise.
use esp32_agent_mesh.Prelude.{
  Bool-cases, length, remove_at, All, select, remove_at-append, All-mono, find_index,
  find_index_split, Bytes, str_eq, str_eq_iff, EspErr, ok, not_found, ℕ, ◌<◌, ◌≡◌, refl, sym, ap,
  subst, ◌∙◌, ◌≢◌, ◌⊎◌, inl, inr, Bool, true, false, some, List, [], ◌∷◌, ◌++◌, arith,
}
use esp32_agent_mesh.Prelude.Int.{pos, ltb_ℤ}
use esp32_agent_mesh.Bus.Messages.{Msg}
use esp32_agent_mesh.Cron.Jobs.{
  CronKind, every, at, daily, Job, Calendar, next_daily_epoch, after_run, is_due,
}
use esp32_agent_mesh.Cron.Service.{process_due_jobs, remove_found, remove_job}
use esp32_agent_mesh.Cron.Due.{
  is_one_shot, run_table, run_table_pass, run_table_drop, run_table_keep, process_due_jobs_lem,
}

-- The next day at a given time is later than now, whatever the time zone does.
abbrev pub IsForward : Calendar → ℕ → Type 0
IsForward local_time now = (hour minute : ℕ) → ltb_ℤ (pos now) (local_time now 1 hour minute) ≡ true

-- A recurring job has an interval.
abbrev pub IsPaced : Job → Type 0
IsPaced job = job.kind ≡ every → 0 < job.interval_s

pub next_daily_later :
    (local_time : Calendar) (now hour minute : ℕ)
    → IsForward local_time now
    → ltb_ℤ (pos now) (next_daily_epoch local_time hour minute now) ≡ true
unfolding next_daily_epoch
next_daily_later local_time now hour minute f = ground (arith, f hour minute)

after_run_idle :
    (local_time : Calendar) (now : ℕ) (job : Job) (kind : CronKind)
    → job.kind ≡ kind
    → IsForward local_time now
    → IsPaced job
    → is_due now (after_run local_time kind now job) ≡ false
unfolding is_due after_run
after_run_idle local_time now job every e f p = ground (arith, p e)
after_run_idle local_time now job at e f p = refl
after_run_idle local_time now job daily e f p =
    ground (arith, next_daily_later local_time now job.hour job.minute f)

run_table-idle :
    (local_time : Calendar) (now : ℕ) (jobs : List Job)
    → IsForward local_time now
    → All IsPaced jobs
    → All (λ job. is_due now job ≡ false) (run_table local_time now jobs)
run_table-idle local_time now [] f a = tt
run_table-idle local_time now (job ∷ jobs) f a =
    let rest = run_table-idle local_time now jobs f a.1 in
    elim (Bool-cases (is_due now job)) [
      | inr idle ↦ rw (run_table_pass local_time now job jobs idle) (idle, rest)
      | inl due ↦ elim (Bool-cases (is_one_shot job)) [
        | inl once ↦ rw (run_table_drop local_time now job jobs due once) rest
        | inr again ↦
            rw (run_table_keep local_time now job jobs due again)
              (after_run_idle local_time now job job.kind refl f a.0, rest)
      ]
    ]

-- After a pass no job is due at that time any more, if every recurring job has an interval of at
-- least a second and the calendar's next day is later.
pub process_due_jobs-idle :
    {B : Type 0} (push : Msg → B → EspErr × B) (duplicated : Bytes → Bool) (local_time : Calendar)
    (now : ℕ) (jobs : List Job) (b : B)
    → IsForward local_time now
    → All IsPaced jobs
    → All (λ job. is_due now job ≡ false) (process_due_jobs push duplicated local_time now jobs b).0
process_due_jobs-idle push duplicated local_time now jobs b f a =
    rw (process_due_jobs_lem push duplicated local_time now jobs b)
      (run_table-idle local_time now jobs f a)

at_over :
    (local_time : Calendar) (now later : ℕ) (job : Job)
    → job.kind ≡ at
    → is_due later (after_run local_time job.kind now job) ≡ false
unfolding is_due after_run
at_over local_time now later job e =
    subst (λ k. is_due later (after_run local_time k now job) ≡ false) (sym e) refl

one_shot_over :
    (local_time : Calendar) (now later : ℕ) (jobs : List Job)
    → All (λ job. (job.kind ≡ at) × (is_due now job ≡ true)) jobs
    → select (is_due later) (run_table local_time now jobs) ≡ []
one_shot_over local_time now later [] a = refl
one_shot_over local_time now later (job ∷ jobs) a =
    let rest = one_shot_over local_time now later jobs a.1 in
    elim (Bool-cases (is_one_shot job)) [
      | inl once ↦ rw (run_table_drop local_time now job jobs a.0.1 once) rest
      | inr again ↦
          rw (run_table_keep local_time now job jobs a.0.1 again)
            (rw (at_over local_time now later job a.0.0) rest)
    ]

-- A one-shot job fires at most once, whether it is deleted or kept: in a table of one-shot jobs
-- that are all due, after the pass that fires them, no pass at any time delivers anything.
pub one_shot_once :
    {B : Type 0} (push : Msg → B → EspErr × B) (duplicated : Bytes → Bool) (local_time : Calendar)
    (now later : ℕ) (jobs : List Job) (b c : B)
    → All (λ job. (job.kind ≡ at) × (is_due now job ≡ true)) jobs
    → (process_due_jobs push duplicated local_time later
        (process_due_jobs push duplicated local_time now jobs b).0
        c).1
      ≡ c
one_shot_once push duplicated local_time now later jobs b c a =
    rw (process_due_jobs_lem push duplicated local_time now jobs b) (
      rw (process_due_jobs_lem push duplicated local_time later (run_table local_time now jobs) c)
        (rw (one_shot_over local_time now later jobs a)))

others_differ :
    (job_id : Bytes) (jobs : List Job)
    → All (λ (job : Job). str_eq job.id job_id ≡ false) jobs
    → All (λ (job : Job). job.id ≢ job_id) jobs
others_differ job_id jobs =
    All-mono (λ (job : Job). str_eq job.id job_id ≡ false) (λ (job : Job). job.id ≢ job_id) jobs
      (λ job n e. cc (n, (str_eq_iff job.id job_id).1 e))

removed :
    (job_id : Bytes) (jobs front rest : List Job) (job : Job)
    → jobs ≡ front ++ job ∷ rest
    → find_index (λ (j : Job). str_eq j.id job_id) jobs ≡ some (length front)
    → remove_job job_id jobs ≡ (ok, front ++ rest)
unfolding remove_job
removed job_id jobs front rest job e found =
    rw (found, remove_found)
      (ap (λ (js : List Job). (ok, js))
        (ap (λ (js : List Job). remove_at js (length front)) e ∙ remove_at-append front rest job))

-- `cron_remove_job` takes out the first job with the given id and leaves the order of the others, or
-- reports that there is none and changes nothing.
pub remove_job_lem :
    (job_id : Bytes) (jobs : List Job)
    → ((remove_job job_id jobs ≡ (not_found, jobs)) × All (λ (job : Job). job.id ≢ job_id) jobs)
      ⊎ ((front : List Job) × (job : Job) × (rest : List Job) × (jobs ≡ front ++ job ∷ rest)
          × (job.id ≡ job_id)
          × All (λ (job : Job). job.id ≢ job_id) front
          × (remove_job job_id jobs ≡ (ok, front ++ rest)))
unfolding remove_job
remove_job_lem job_id jobs = elim (find_index_split (λ (job : Job). str_eq job.id job_id) jobs) [
  | inl (nowhere, others) ↦ inl (rw (nowhere, remove_found), others_differ job_id jobs others)
  | inr (front, job, rest, e, hit, before, found) ↦ inr (
    front,
    job,
    rest,
    e,
    (str_eq_iff job.id job_id).0 hit,
    others_differ job_id front before,
    removed job_id jobs front rest job e found,
  )
]
