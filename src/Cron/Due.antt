-- ===== src/Cron/Due.antt =====
-- main/cron/cron_service.c: `cron_process_due_jobs` against a description with no index and no
-- shifting: which jobs fire, which stay, and what becomes of them.
use esp32_agent_mesh.Prelude.{
  if◌then◌else◌, Bool-cases, length, length-append, is_nil, select, get_elem?-append, get_elem?-end,
  set-append, remove_at-append, Bytes, EspErr, ℕ, zero, suc, ◌<◌, ◌≡◌, ◌∙◌, inl, inr, Bool, true,
  false, not, ◌&&◌, ◌||◌, List, [], ◌∷◌, ◌++◌, map, append_assoc, append-nil, arith,
}
use esp32_agent_mesh.Bus.Messages.{Msg}
use esp32_agent_mesh.Cron.Jobs.{Job, Calendar, is_at, after_run, is_due}
use esp32_agent_mesh.Cron.Service.{
  pass, keep, drop_job, visit, deliver, process_from, process_due_jobs,
}

abbrev pub is_one_shot : Job → Bool
is_one_shot job = is_at job.kind && job.delete_after_run

module _ (local_time : Calendar) (now : ℕ) where
  abbrev pub stays : Job → Bool
  stays job = not (is_due now job && is_one_shot job)

  abbrev pub updated : Job → Job
  updated job = if is_due now job then after_run local_time job.kind now job else job

  -- The table afterwards.
  abbrev pub run_table : List Job → List Job
  run_table jobs = map updated (select stays jobs)

  pub run_table_pass :
      (job : Job) (rest : List Job)
      → is_due now job ≡ false
      → run_table (job ∷ rest) ≡ job ∷ run_table rest
  run_table_pass job rest idle = rw idle (rw idle)

  pub run_table_drop :
      (job : Job) (rest : List Job)
      → is_due now job ≡ true
      → is_one_shot job ≡ true
      → run_table (job ∷ rest) ≡ run_table rest
  run_table_drop job rest due once = rw (due, once)

  pub run_table_keep :
      (job : Job) (rest : List Job)
      → is_due now job ≡ true
      → is_one_shot job ≡ false
      → run_table (job ∷ rest) ≡ after_run local_time job.kind now job ∷ run_table rest
  run_table_keep job rest due again = rw (due, again) (rw due)

module _ {B : Type 0} (push : Msg → B → EspErr × B) (duplicated : Bytes → Bool) where
  abbrev pub deliver_all : List Job → B → B
  deliver_all [] b = b
  deliver_all (job ∷ jobs) b = deliver_all jobs (deliver push duplicated job b)

  module _ (local_time : Calendar) (now : ℕ) where
    visit_idle : (job : Job) → is_due now job ≡ false → visit local_time now job ≡ pass
    unfolding visit
    visit_idle job idle = rw idle

    visit_once :
        (job : Job)
        → is_due now job ≡ true
        → is_one_shot job ≡ true
        → visit local_time now job ≡ drop_job
    unfolding visit
    visit_once job due once = rw (due, once)

    visit_again :
        (job : Job)
        → is_due now job ≡ true
        → is_one_shot job ≡ false
        → visit local_time now job ≡ keep (after_run local_time job.kind now job)
    unfolding visit
    visit_again job due again = rw (due, again)

    abbrev outcome : List Job → List Job → B → Bool → List Job × B × Bool
    outcome front rest b changed = (
      front ++ run_table local_time now rest,
      deliver_all (select (is_due now) rest) b,
      changed || not (is_nil (select (is_due now) rest)),
    )

    -- One more job in front of the index.
    moved_on :
        (fuel : ℕ) (front : List Job) (job : Job) (rest : List Job) (b : B) (changed : Bool)
        → process_from push duplicated local_time now fuel
            (length (front ++ job ∷ []))
            ((front ++ job ∷ []) ++ rest)
            b
            changed
          ≡ outcome (front ++ job ∷ []) rest b changed
        → process_from push duplicated local_time now fuel
            (suc (length front))
            (front ++ job ∷ rest)
            b
            changed
          ≡ (
            front ++ job ∷ run_table local_time now rest,
            deliver_all (select (is_due now) rest) b,
            changed || not (is_nil (select (is_due now) rest)),
          )
    moved_on fuel front job rest b changed h =
        let e : length (front ++ job ∷ []) ≡ suc (length front) =
          omega (arith, length-append front (job ∷ [])) in
        rw
          (
            e,
            append_assoc front (job ∷ []) rest,
            append_assoc front (job ∷ []) (run_table local_time now rest),
          )
          at h

    process_from_lem :
        (fuel : ℕ) (front rest : List Job) (b : B) (changed : Bool)
        → length rest < fuel
        → process_from push duplicated local_time now fuel (length front) (front ++ rest) b changed
          ≡ (
            front ++ run_table local_time now rest,
            deliver_all (select (is_due now) rest) b,
            changed || not (is_nil (select (is_due now) rest)),
          )
    unfolding process_from
    process_from_lem zero front rest b changed h = absurd (omega arith)
    process_from_lem (suc fuel) front [] b changed h =
        rw (append-nil front, get_elem?-end front, process_from) (ground (arith, append-nil front))
    process_from_lem (suc fuel) front (job ∷ rest) b changed h =
        elim (Bool-cases (is_due now job)) [
          | inr idle ↦
              rw
                (
                  get_elem?-append front rest job,
                  visit_idle job idle,
                  process_from,
                  run_table_pass local_time now job rest idle,
                  idle,
                )
                (moved_on fuel front job rest b changed
                  (process_from_lem fuel (front ++ job ∷ []) rest b changed (omega arith)))
          | inl due ↦ elim (Bool-cases (is_one_shot job)) [
            | inl once ↦
                rw
                  (
                    get_elem?-append front rest job,
                    visit_once job due once,
                    process_from,
                    remove_at-append front rest job,
                    run_table_drop local_time now job rest due once,
                    due,
                  )
                  (process_from_lem fuel front rest (deliver push duplicated job b) true
                      (omega arith)
                    ∙ ground arith)
            | inr again ↦
                let job' = after_run local_time job.kind now job in
                rw
                  (
                    get_elem?-append front rest job,
                    visit_again job due again,
                    process_from,
                    set-append front rest job job',
                    run_table_keep local_time now job rest due again,
                    due,
                  )
                  (moved_on fuel front job' rest (deliver push duplicated job b) true (
                      process_from_lem fuel (front ++ job' ∷ []) rest
                        (deliver push duplicated job b) true (omega arith))
                    ∙ ground arith)
          ]
        ]

    -- One pass of the loop, index arithmetic and shifting included, is the plain description: the due
    -- jobs, and no others, are delivered in table order; the due one-shot jobs go; the other due jobs
    -- get their new times; all else keeps its place; and the table is saved exactly if a job was due.
    pub process_due_jobs_lem :
        (jobs : List Job) (b : B)
        → process_due_jobs push duplicated local_time now jobs b ≡ (
          run_table local_time now jobs,
          deliver_all (select (is_due now) jobs) b,
          not (is_nil (select (is_due now) jobs)),
        )
    unfolding process_due_jobs
    process_due_jobs_lem jobs b = process_from_lem (suc (length jobs)) [] jobs b false (omega arith)
