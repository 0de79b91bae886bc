-- ===== src/Cron/Adding.antt =====
-- main/cron/cron_service.c: what `cron_add_job` promises.
use esp32_agent_mesh.Prelude.{
  leb, if◌then◌else◌, Bool-cases, length, Bytes, codes, copy_field, is_empty, ok, no_mem, ℕ, ◌≤◌,
  ◌<◌, ◌≡◌, refl, ◌≢◌, ◌⊎◌, inl, inr, true, false, List, [], ◌∷◌, ◌++◌, arith,
}
use esp32_agent_mesh.Prelude.Int.{pos, ltb_ℤ, leb_ℤ}
use esp32_agent_mesh.Bus.Messages.{chan_system}
use esp32_agent_mesh.Cron.Jobs.{
  CronKind, every, at, daily, Job, max_cron_jobs, Calendar, initial_next_run, sanitize_destination,
}
use esp32_agent_mesh.Cron.Service.{add_job}
use esp32_agent_mesh.Cron.Table.{IsForward, IsPaced, next_daily_later}

-- What `cron_add_job` appends: a job that can be delivered, and that is due in the future or, if it
-- is a one-shot whose time has passed, switched off.
pub record IsAdded (now : ℕ) (fresh_id : Bytes) (job new : Job) : Type 0 where
  pub named : new.id ≡ fresh_id
  pub same_message : new.message ≡ job.message
  pub same_kind : new.kind ≡ job.kind
  pub has_channel : new.channel ≢ []
  pub has_chat_id : new.chat_id ≢ []
  pub never_ran : new.last_run ≡ pos 0
  pub timed :
      ((new.enabled ≡ true) × (ltb_ℤ (pos now) new.next_run ≡ true))
      ⊎ ((new.kind ≡ at) × (new.enabled ≡ false) × (leb_ℤ job.at_epoch (pos now) ≡ true))

ready_job : Bytes → Job → Job
ready_job fresh_id job = record (sanitize_destination (record job { id = fresh_id })).0 {
  enabled = true;
  last_run = pos 0;
}

or_else_ne : (c d : Bytes) → d ≢ [] → (if is_empty c then d else c) ≢ []
or_else_ne [] d h = h
or_else_ne (x ∷ xs) d h = λ e. cc e

module _ (local_time : Calendar) (now : ℕ) (fresh_id : Bytes) (job : Job) where
  initial_IsAdded :
      (kind : CronKind)
      → job.kind ≡ kind
      → IsForward local_time now
      → IsPaced job
      → IsAdded now fresh_id job (initial_next_run local_time kind now (ready_job fresh_id job))
  unfolding initial_next_run ready_job sanitize_destination
  initial_IsAdded every e f p = record {
    named = refl;
    same_message = refl;
    same_kind = refl;
    has_channel = or_else_ne job.channel (copy_field 16 chan_system) (λ h. cc h);
    has_chat_id = or_else_ne job.chat_id (copy_field 96 (codes "cron")) (λ h. cc h);
    never_ran = refl;
    timed = inl (refl, ground (arith, p e));
  }
  initial_IsAdded at e f p = elim (Bool-cases (ltb_ℤ (pos now) job.at_epoch)) [
    | inl future ↦ rw future (record {
      named = refl;
      same_message = refl;
      same_kind = refl;
      has_channel = or_else_ne job.channel (copy_field 16 chan_system) (λ h. cc h);
      has_chat_id = or_else_ne job.chat_id (copy_field 96 (codes "cron")) (λ h. cc h);
      never_ran = refl;
      timed = inl (refl, future);
    })
    | inr past ↦ rw past (record {
      named = refl;
      same_message = refl;
      same_kind = refl;
      has_channel = or_else_ne job.channel (copy_field 16 chan_system) (λ h. cc h);
      has_chat_id = or_else_ne job.chat_id (copy_field 96 (codes "cron")) (λ h. cc h);
      never_ran = refl;
      timed = inr (e, refl, ground (arith, past));
    })
  ]
  initial_IsAdded daily e f p = record {
    named = refl;
    same_message = refl;
    same_kind = refl;
    has_channel = or_else_ne job.channel (copy_field 16 chan_system) (λ h. cc h);
    has_chat_id = or_else_ne job.chat_id (copy_field 96 (codes "cron")) (λ h. cc h);
    never_ran = refl;
    timed = inl (refl, next_daily_later local_time now job.hour job.minute f);
  }

  -- `cron_add_job` refuses a job only when the table holds 16, and then changes nothing; else it
  -- appends one job with the generated id, the given message and kind, a channel and a chat id that
  -- are not empty, and a next run in the future, or, for a one-shot whose time has passed, switched
  -- off. It is assumed that a recurring job has an interval of at least a second, and that the next
  -- day at a given time is later than now.
  pub add_job_lem :
      (jobs : List Job)
      → IsForward local_time now
      → IsPaced job
      → ((16 ≤ length jobs) × (add_job local_time now fresh_id job jobs ≡ (no_mem, jobs)))
        ⊎ ((length jobs < 16)
            × ((new : Job) × (add_job local_time now fresh_id job jobs ≡ (ok, jobs ++ new ∷ []))
                × IsAdded now fresh_id job new))
  unfolding add_job ready_job
  add_job_lem jobs f p = elim (Bool-cases (leb max_cron_jobs (length jobs))) [
    | inl full ↦ inl (ground (arith, full), rw full)
    | inr room ↦ inr (
      ground (arith, room),
      (
        initial_next_run local_time job.kind now (ready_job fresh_id job),
        rw room (unfold sanitize_destination in refl),
        initial_IsAdded job.kind refl f p,
      ),
    )
  ]
