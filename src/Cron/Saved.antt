-- ===== src/Cron/Saved.antt =====
-- main/cron/cron_service.c: what is saved is loaded again.
use esp32_agent_mesh.Prelude.{
  length, Bytes, codes, str_eq, is_empty, copy_field_whole, ℕ, ◌≤◌, ◌<◌, ◌≡◌, refl, ap, ◌∙◌, Bool,
  false, ◌||◌, Option, some, List, map, arith,
}
use esp32_agent_mesh.Prelude.Int.{ℤ, pos, ltb_ℤ}
use esp32_agent_mesh.Cron.Jobs.{CronKind, every, at, daily, Job, sanitize_destination}
use esp32_agent_mesh.Cron.Storage.{
  Field, string, truth, number, Row, value_of, read_timing, plain_job, load_named, load_item,
  kind_word, job_row,
}

abbrev pub IsTimed : CronKind → Job → Type 0
IsTimed every job = (job.at_epoch ≡ pos 0) × (job.hour ≡ 0) × (job.minute ≡ 0)
IsTimed at job = (job.interval_s ≡ 0) × (job.hour ≡ 0) × (job.minute ≡ 0)
IsTimed daily job =
    (job.interval_s ≡ 0) × (job.at_epoch ≡ pos 0) × (job.hour ≤ 23) × (job.minute ≤ 59)

-- A job as the table holds it: texts that fit their fields, a destination, and no field set that
-- does not go with the kind.
pub record IsStored (kind : CronKind) (job : Job) : Type 0 where
  pub same_kind : job.kind ≡ kind
  pub id_fits : length job.id < 9
  pub name_fits : length job.name < 32
  pub message_fits : length job.message < 256
  pub channel_fits : length job.channel < 16
  pub chat_id_fits : length job.chat_id < 96
  pub has_channel : is_empty job.channel ≡ false
  pub has_chat_id : is_empty job.chat_id ≡ false
  pub timed : IsTimed kind job

-- What a reader gets of a written item.
abbrev pub Gives : (Bytes → Option Field) → Row → Type 0
Gives get row = (key : Bytes) (v : Field) → value_of row key ≡ some v → get key ≡ some v

record Common (get : Bytes → Option Field) (kind : CronKind) (job : Job) : Type 0 where
  got_id : get (codes "id") ≡ some (string job.id)
  got_name : get (codes "name") ≡ some (string job.name)
  got_enabled : get (codes "enabled") ≡ some (truth job.enabled)
  got_kind : get (codes "kind") ≡ some (string (kind_word kind))
  got_message : get (codes "message") ≡ some (string job.message)
  got_channel : get (codes "channel") ≡ some (string job.channel)
  got_chat_id : get (codes "chat_id") ≡ some (string job.chat_id)
  got_last_run : get (codes "last_run") ≡ some (number job.last_run)
  got_next_run : get (codes "next_run") ≡ some (number job.next_run)
  got_delete : get (codes "delete_after_run") ≡ some (truth job.delete_after_run)

common_values :
    (kind : CronKind) (job : Job)
    → (value_of (job_row kind job) (codes "id") ≡ some (string job.id))
      × (value_of (job_row kind job) (codes "name") ≡ some (string job.name))
      × (value_of (job_row kind job) (codes "enabled") ≡ some (truth job.enabled))
      × (value_of (job_row kind job) (codes "kind") ≡ some (string (kind_word kind)))
      × (value_of (job_row kind job) (codes "message") ≡ some (string job.message))
      × (value_of (job_row kind job) (codes "channel") ≡ some (string job.channel))
      × (value_of (job_row kind job) (codes "chat_id") ≡ some (string job.chat_id))
      × (value_of (job_row kind job) (codes "last_run") ≡ some (number job.last_run))
      × (value_of (job_row kind job) (codes "next_run") ≡ some (number job.next_run))
      × (value_of (job_row kind job) (codes "delete_after_run") ≡ some (truth job.delete_after_run))
unfolding job_row str_eq
common_values every job = (refl, refl, refl, refl, refl, refl, refl, refl, refl, refl)
common_values at job = (refl, refl, refl, refl, refl, refl, refl, refl, refl, refl)
common_values daily job = (refl, refl, refl, refl, refl, refl, refl, refl, refl, refl)

row-Common :
    (get : Bytes → Option Field) (kind : CronKind) (job : Job)
    → Gives get (job_row kind job)
    → Common get kind job
row-Common get kind job g =
    let (i, n, e, k, m, c, t, l, x, d) = common_values kind job in
    record {
      got_id = g (codes "id") (string job.id) i;
      got_name = g (codes "name") (string job.name) n;
      got_enabled = g (codes "enabled") (truth job.enabled) e;
      got_kind = g (codes "kind") (string (kind_word kind)) k;
      got_message = g (codes "message") (string job.message) m;
      got_channel = g (codes "channel") (string job.channel) c;
      got_chat_id = g (codes "chat_id") (string job.chat_id) t;
      got_last_run = g (codes "last_run") (number job.last_run) l;
      got_next_run = g (codes "next_run") (number job.next_run) x;
      got_delete = g (codes "delete_after_run") (truth job.delete_after_run) d;
    }

-- The job as read, before its kind is.
plain_job-stored :
    (get : Bytes → Option Field) (kind : CronKind) (job : Job)
    → Common get kind job
    → IsStored kind job
    → sanitize_destination (plain_job get job.id job.name job.message)
      ≡ (record job { kind = every; interval_s = 0; at_epoch = pos 0; hour = 0; minute = 0 }, false)
unfolding sanitize_destination
plain_job-stored get kind job c v = rw (
  c.got_enabled,
  c.got_channel,
  c.got_chat_id,
  c.got_last_run,
  c.got_next_run,
  c.got_delete,
  copy_field_whole 9 job.id v.id_fits,
  copy_field_whole 32 job.name v.name_fits,
  copy_field_whole 256 job.message v.message_fits,
  copy_field_whole 16 job.channel v.channel_fits,
  copy_field_whole 96 job.chat_id v.chat_id_fits,
  v.has_channel,
  v.has_chat_id,
)

abbrev untimed : Job → Job
untimed job = record job { kind = every; interval_s = 0; at_epoch = pos 0; hour = 0; minute = 0 }

same_timing :
    (job : Job) (k : CronKind) (i : ℕ) (a : ℤ) (h m : ℕ)
    → job.kind ≡ k
    → job.interval_s ≡ i
    → job.at_epoch ≡ a
    → job.hour ≡ h
    → job.minute ≡ m
    → some (record job { kind = k; interval_s = i; at_epoch = a; hour = h; minute = m }) ≡ some job
same_timing job k i a h m p q r s t = rw⁻¹ (p, q, r, s, t) refl

read_timing-job_row :
    (get : Bytes → Option Field) (kind : CronKind) (job : Job)
    → Gives get (job_row kind job)
    → IsStored kind job
    → read_timing get (kind_word kind) (untimed job) ≡ some job
unfolding read_timing job_row str_eq
read_timing-job_row get every job g v =
    let (no_at, no_hour, no_minute) = v.timed in
    let interval : get (codes "interval_s") ≡ some (number (pos job.interval_s)) =
      g (codes "interval_s") (number (pos job.interval_s)) refl in
    rw interval
      (same_timing job every job.interval_s (pos 0) 0 0 v.same_kind refl no_at no_hour no_minute)
read_timing-job_row get at job g v =
    let (no_interval, no_hour, no_minute) = v.timed in
    let epoch : get (codes "at_epoch") ≡ some (number job.at_epoch) =
      g (codes "at_epoch") (number job.at_epoch) refl in
    rw epoch (same_timing job at 0 job.at_epoch 0 0 v.same_kind no_interval refl no_hour no_minute)
read_timing-job_row get daily job g v =
    let (no_interval, no_at, hours, minutes) = v.timed in
    let hour : get (codes "hour") ≡ some (number (pos job.hour)) =
      g (codes "hour") (number (pos job.hour)) refl in
    let minute : get (codes "minute") ≡ some (number (pos job.minute)) =
      g (codes "minute") (number (pos job.minute)) refl in
    let in_hours : (ltb_ℤ (pos job.hour) (pos 0) || ltb_ℤ (pos 23) (pos job.hour)) ≡ false =
      ground (arith, hours) in
    let in_minutes : (ltb_ℤ (pos job.minute) (pos 0) || ltb_ℤ (pos 59) (pos job.minute)) ≡ false =
      ground (arith, minutes) in
    rw (hour, minute)
      (ground (
        arith,
        hours,
        minutes,
        in_hours,
        in_minutes,
        same_timing job daily 0 (pos 0) job.hour job.minute v.same_kind no_interval no_at refl refl,
      ))

pub load_item-job_row :
    (get : Bytes → Option Field) (kind : CronKind) (job : Job)
    → Gives get (job_row kind job)
    → IsStored kind job
    → load_item get ≡ (some job, false)
unfolding load_item load_named
load_item-job_row get kind job g v =
    let c = row-Common get kind job g in
    let stored = plain_job-stored get kind job c v in
    rw (c.got_id, c.got_name, c.got_kind, c.got_message)
      (ap (λ (r : Job × Bool). (read_timing get (kind_word kind) r.0, r.1)) stored
        ∙ ap (λ (j : Option Job). (j, false)) (read_timing-job_row get kind job g v))

abbrev pub rows : List Job → List Row
rows jobs = map (λ job. job_row job.kind job) jobs

abbrev pub IsKept : Job → Type 0
IsKept job = IsStored job.kind job
