-- ===== src/Cron/Tests.antt =====
-- The scheduler on small tables, and its theorems at inputs that meet their hypotheses.
use esp32_agent_mesh.Prelude.{
  length, All, is_nil, select, Bytes, codes, EspErr, ok, no_mem, ℕ, ◌+◌, ◌*◌, ◌/◌, ◌≤◌, ◌<◌, ◌≡◌,
  refl, subst, ◌⊎◌, Bool, true, false, not, none, some, List, [], ◌∷◌, ◌++◌, arith,
}
use esp32_agent_mesh.Prelude.Int.{pos}
use esp32_agent_mesh.Bus.Messages.{Msg}
use esp32_agent_mesh.Cron.Jobs.{every, at, daily, Job, Calendar, is_due, job_msg}
use esp32_agent_mesh.Cron.Service.{visit, deliver, process_due_jobs, add_job}
use esp32_agent_mesh.Cron.Due.{run_table, deliver_all, process_due_jobs_lem}
use esp32_agent_mesh.Cron.Table.{IsForward, one_shot_once}
use esp32_agent_mesh.Cron.Adding.{IsAdded, add_job_lem}
use esp32_agent_mesh.Cron.Storage.{
  Row, value_of, JobsJson, IsFaithful, load_jobs, saved_text, save_jobs,
}
use esp32_agent_mesh.Cron.Saved.{rows, IsKept}
use esp32_agent_mesh.Cron.Restart.{load_jobs-save}

-- Days of 100 seconds, an hour of 10, a minute of 1.
abbrev toy_time : Calendar
toy_time now days hour minute = pos (now / 100 * 100 + days * 100 + hour * 10 + minute)

toy_time-IsForward : (now : ℕ) → IsForward toy_time now
toy_time-IsForward now hour minute = ground arith

abbrev base : Job
base = record {
  id = codes "a";
  name = codes "n";
  enabled = true;
  kind = every;
  interval_s = 30;
  at_epoch = pos 0;
  hour = 0;
  minute = 0;
  message = codes "go";
  channel = codes "cli";
  chat_id = codes "1";
  last_run = pos 0;
  next_run = pos 40;
  delete_after_run = false;
}

abbrev once : Job
once = record base { id = codes "b"; kind = at; at_epoch = pos 40; delete_after_run = true }

abbrev later : Job
later = record base { id = codes "c"; next_run = pos 90 }

abbrev table : List Job
table = once ∷ base ∷ later ∷ []

abbrev collect : Msg → List Msg → EspErr × List Msg
collect m ms = (ok, ms ++ m ∷ [])

abbrev all_copied : Bytes → Bool
all_copied s = true

pass_at_50 : process_due_jobs collect all_copied toy_time 50 table [] ≡ (
  record base { last_run = pos 50; next_run = pos 80 } ∷ later ∷ [],
  job_msg once ∷ job_msg base ∷ [],
  true,
)
unfolding process_due_jobs visit deliver
pass_at_50 = refl

process_due_jobs_lem_example : process_due_jobs collect all_copied toy_time 50 table [] ≡ (
  run_table toy_time 50 table,
  deliver_all collect all_copied (select (is_due 50) table) [],
  not (is_nil (select (is_due 50) table)),
)
process_due_jobs_lem_example = process_due_jobs_lem collect all_copied toy_time 50 table []

one_shot_once_example :
    (process_due_jobs collect all_copied toy_time 70
      (process_due_jobs collect all_copied toy_time 50 (once ∷ []) []).0
      []).1
    ≡ []
unfolding is_due
one_shot_once_example =
    one_shot_once collect all_copied toy_time 50 70 (once ∷ []) [] [] ((refl, refl), tt)

add_job_lem_example :
    ((16 ≤ length table) × (add_job toy_time 50 (codes "d") later table ≡ (no_mem, table)))
    ⊎ ((length table < 16)
        × ((new : Job) × (add_job toy_time 50 (codes "d") later table ≡ (ok, table ++ new ∷ []))
            × IsAdded 50 (codes "d") later new))
add_job_lem_example =
    add_job_lem toy_time 50 (codes "d") later table (toy_time-IsForward 50) (ground arith)

abbrev kept_table : List Job
kept_table =
    (record base {
      id = codes "0000000a";
      kind = daily;
      interval_s = 0;
      at_epoch = pos 0;
      hour = 8;
      minute = 30;
      channel = codes "cli";
      chat_id = codes "c";
    })
    ∷ []

-- A library that knows one text.
abbrev one_text : JobsJson
one_text = record {
  Item = Row;
  field = value_of;
  parse = λ text. some (some (rows kept_table));
  print = λ rs. some (codes "{}");
}

one_text-IsFaithful : IsFaithful one_text (rows kept_table) (codes "{}")
one_text-IsFaithful = record {
  items = rows kept_table;
  parsed = refl;
  reads = ((λ key v h. h), tt);
}

kept_table-IsKept : All IsKept kept_table
kept_table-IsKept = (
  record {
    same_kind = refl;
    id_fits = omega arith;
    name_fits = omega arith;
    message_fits = omega arith;
    channel_fits = omega arith;
    chat_id_fits = omega arith;
    has_channel = refl;
    has_chat_id = refl;
    timed = (refl, refl, omega arith, omega arith);
  },
  tt,
)

text_reads :
    (text : Bytes)
    → saved_text one_text kept_table ≡ some text
    → IsFaithful one_text (rows kept_table) text × (0 < length text) × (length text ≤ 8192)
unfolding saved_text
text_reads text h =
    subst (λ t. IsFaithful one_text (rows kept_table) t × (0 < length t) × (length t ≤ 8192)) (cc h)
      (one_text-IsFaithful, omega arith, omega arith)

load_jobs-save_example :
    load_jobs one_text (save_jobs one_text true 2 kept_table none).1 true []
    ≡ (ok, kept_table, false)
unfolding save_jobs saved_text
load_jobs-save_example =
    load_jobs-save one_text true 2 kept_table [] none refl (omega arith) kept_table-IsKept
      text_reads
