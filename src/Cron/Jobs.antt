-- ===== src/Cron/Jobs.antt =====
-- main/cron/cron_service.c and cron_service.h: one job, and the times at which it runs.
-- `time(NULL)` is a number of seconds that is not negative; the times of a job come from a file too,
-- so they are signed.
use esp32_agent_mesh.Prelude.{
  if◌then◌else◌, Bytes, codes, copy_field, is_empty, ℕ, ◌+◌, Bool, true, false, not, ◌&&◌, ◌||◌,
}
use esp32_agent_mesh.Prelude.Int.{ℤ, pos, ltb_ℤ, leb_ℤ}
use esp32_agent_mesh.Bus.Messages.{Msg, chan_system}

-- `cron_kind_t`
pub data CronKind : Type 0 where
  every at daily : CronKind

-- `cron_job_t`
pub record Job : Type 0 where
  pub id : Bytes
  pub name : Bytes
  pub enabled : Bool
  pub kind : CronKind
  pub interval_s : ℕ
  pub at_epoch : ℤ
  pub hour : ℕ
  pub minute : ℕ
  pub message : Bytes
  pub channel : Bytes
  pub chat_id : Bytes
  pub last_run : ℤ
  pub next_run : ℤ
  pub delete_after_run : Bool

abbrev pub max_cron_jobs : ℕ
max_cron_jobs = 16

-- The calendar of the C library: `local_time now days hour minute` is what `mktime` makes of the
-- local date of `now`, that many days on, at hour:minute:00.
abbrev pub Calendar : Type 0
Calendar = ℕ → ℕ → ℕ → ℕ → ℤ

abbrev pub is_every : CronKind → Bool
is_every every = true
is_every _ = false

abbrev pub is_at : CronKind → Bool
is_at at = true
is_at _ = false

module _ (local_time : Calendar) where
  unfoldable pub next_daily_epoch : ℕ → ℕ → ℕ → ℤ
  next_daily_epoch hour minute now =
      let next = local_time now 0 hour minute in
      if leb_ℤ next (pos now) then local_time now 1 hour minute else next

  unfoldable pub initial_next_run : CronKind → ℕ → Job → Job
  unfolding next_daily_epoch
  initial_next_run every now job = record job { next_run = pos (now + job.interval_s) }
  initial_next_run at now job =
      if ltb_ℤ (pos now) job.at_epoch
      then record job { next_run = job.at_epoch }
      else record job { next_run = pos 0; enabled = false }
  initial_next_run daily now job = record job {
    next_run = next_daily_epoch job.hour job.minute now;
  }

  -- The body of the loop in `cron_service_start`, on one job that needs it.
  unfoldable pub recomputed : CronKind → ℕ → Job → Job
  unfolding next_daily_epoch
  recomputed every now job = record job { next_run = pos (now + job.interval_s) }
  recomputed at now job =
      if ltb_ℤ (pos now) job.at_epoch then record job { next_run = job.at_epoch } else job
  recomputed daily now job = record job { next_run = next_daily_epoch job.hour job.minute now }

  unfoldable pub recompute : ℕ → Job → Job
  unfolding recomputed
  recompute now job =
      if job.enabled && leb_ℤ job.next_run (pos 0) then recomputed job.kind now job else job

  -- What a run does to a job that stays in the table.
  unfoldable pub after_run : CronKind → ℕ → Job → Job
  unfolding next_daily_epoch
  after_run every now job = record job { last_run = pos now; next_run = pos (now + job.interval_s) }
  after_run at now job = record job { last_run = pos now; enabled = false; next_run = pos 0 }
  after_run daily now job = record job {
    last_run = pos now;
    next_run = next_daily_epoch job.hour job.minute now;
  }

-- `cron_sanitize_destination`, and whether it changed anything.
unfoldable pub sanitize_destination : Job → Job × Bool
sanitize_destination job = (
  record job {
    channel = if is_empty job.channel then copy_field 16 chan_system else job.channel;
    chat_id = if is_empty job.chat_id then copy_field 96 (codes "cron") else job.chat_id;
  },
  is_empty job.channel || is_empty job.chat_id,
)

-- The three tests at the head of the loop in `cron_process_due_jobs`.
unfoldable pub is_due : ℕ → Job → Bool
is_due now job =
    job.enabled && not (leb_ℤ job.next_run (pos 0)) && not (ltb_ℤ (pos now) job.next_run)

-- What a run of the job pushes to the inbound queue.
abbrev pub job_msg : Job → Msg
job_msg job = record {
  channel = copy_field 16 job.channel;
  chat_id = copy_field 96 job.chat_id;
  flags = 0;
  content = job.message;
}
