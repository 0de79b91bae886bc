-- ===== src/Cron/Storage.antt =====
-- main/cron/cron_service.c: the table in its file, `cron_load_jobs` and `cron_save_jobs`.
use esp32_agent_mesh.Prelude.{
  ltb, leb, ◌==◌, if◌then◌else◌, length, take, Bytes, codes, str_eq, copy_field, EspErr, ok, fail,
  no_mem, ℕ, ◌≡◌, Bool, true, false, not, ◌||◌, Option, none, some, List, [], ◌∷◌, ◌++◌, map,
}
use esp32_agent_mesh.Prelude.Int.{ℤ, pos, negsuc, pos_part, ltb_ℤ}
use esp32_agent_mesh.Bus.Messages.{chan_system}
use esp32_agent_mesh.Cron.Jobs.{
  CronKind, every, at, daily, Job, max_cron_jobs, sanitize_destination,
}

-- A value in the file. A number is its `valuedouble` without the fraction.
pub data Field : Type 0 where
  string : Bytes → Field
  truth : Bool → Field
  number : ℤ → Field
  other : Field

abbrev pub Row : Type 0
Row = List (Bytes × Field)

abbrev pub value_of : Row → Bytes → Option Field
value_of [] key = none
value_of ((k, v) ∷ row) key = if str_eq k key then some v else value_of row key

-- The items give what the rows hold.
abbrev pub Reads : {I : Type 0} → (I → Bytes → Option Field) → List I → List Row → Type 0
Reads field [] [] = Unit {0}
Reads field (i ∷ is) (r ∷ rs) =
    ((key : Bytes) (v : Field) → value_of r key ≡ some v → field i key ≡ some v) × Reads field is rs
Reads field _ _ = ⊥

-- What the service uses of cJSON: a tree is built from rows and printed; a text is parsed, and its
-- "jobs", where they are an array, are items whose fields can be asked for.
pub record JobsJson : Type 1 where
  pub Item : Type 0
  pub field : Item → Bytes → Option Field
  pub parse : Bytes → Option (Option (List Item))
  pub print : List Row → Option Bytes

-- The library reads a text that it printed as it documents: "jobs" is an array of as many items as
-- there were rows, and each gives the values of its row.
pub record IsFaithful (json : JobsJson) (rows : List Row) (text : Bytes) : Type 0 where
  pub items : List json.Item
  pub parsed : json.parse text ≡ some (some items)
  pub reads : Reads json.field items rows

abbrev pub text_or_none : Option Field → Option Bytes
text_or_none (some (string s)) = some s
text_or_none _ = none

abbrev pub number_or : ℤ → Option Field → ℤ
number_or d (some (number n)) = n
number_or d _ = d

abbrev pub truth_or : Bool → Option Field → Bool
truth_or d none = d
truth_or d (some (truth b)) = b
truth_or d (some _) = false

abbrev pub default_to : Bytes → Option Bytes → Bytes
default_to d none = d
default_to d (some s) = s

-- The kind with the fields that go with it, or none for an unknown kind or an hour or a minute out
-- of range. The cast to `uint32_t` is that of a number in its range.
unfoldable pub read_timing : (Bytes → Option Field) → Bytes → Job → Option Job
read_timing get kind_str job =
    if str_eq kind_str (codes "every")
    then some (record job {
      kind = every;
      interval_s = pos_part (number_or (pos 0) (get (codes "interval_s")));
    })
    else if str_eq kind_str (codes "at")
    then some (record job { kind = at; at_epoch = number_or (pos 0) (get (codes "at_epoch")) })
    else if str_eq kind_str (codes "daily")
    then (let h = number_or (negsuc 0) (get (codes "hour")) in
        let m = number_or (negsuc 0) (get (codes "minute")) in
        if ltb_ℤ h (pos 0) || ltb_ℤ (pos 23) h || ltb_ℤ m (pos 0) || ltb_ℤ (pos 59) m
        then none
        else some (record job { kind = daily; hour = pos_part h; minute = pos_part m }))
    else none

-- The job before its kind is read; the zeroes are those of `memset`.
abbrev pub plain_job : (Bytes → Option Field) → Bytes → Bytes → Bytes → Job
plain_job get id name message = record {
  id = copy_field 9 id;
  name = copy_field 32 name;
  enabled = truth_or true (get (codes "enabled"));
  kind = every;
  interval_s = 0;
  at_epoch = pos 0;
  hour = 0;
  minute = 0;
  message = copy_field 256 message;
  channel = copy_field 16 (default_to chan_system (text_or_none (get (codes "channel"))));
  chat_id = copy_field 96 (default_to (codes "cron") (text_or_none (get (codes "chat_id"))));
  last_run = number_or (pos 0) (get (codes "last_run"));
  next_run = number_or (pos 0) (get (codes "next_run"));
  delete_after_run = truth_or false (get (codes "delete_after_run"));
}

-- An item's job, if it has one, and whether a destination was repaired.
unfoldable pub load_named :
    (Bytes → Option Field)
    → Option Bytes
    → Option Bytes
    → Option Bytes
    → Option Bytes
    → Option Job × Bool
unfolding read_timing sanitize_destination
load_named get (some id) (some name) (some kind_str) (some message) =
    let (job, repaired) = sanitize_destination (plain_job get id name message) in
    (read_timing get kind_str job, repaired)
load_named get _ _ _ _ = (none, false)

unfoldable pub load_item : (Bytes → Option Field) → Option Job × Bool
unfolding load_named
load_item get =
    load_named get (text_or_none (get (codes "id"))) (text_or_none (get (codes "name")))
      (text_or_none (get (codes "kind"))) (text_or_none (get (codes "message")))

abbrev pub kind_word : CronKind → Bytes
kind_word every = codes "every"
kind_word at = codes "at"
kind_word daily = codes "daily"

abbrev pub timing_fields : CronKind → Job → Row → Row
timing_fields every job row = (codes "interval_s", number (pos job.interval_s)) ∷ row
timing_fields at job row = (codes "at_epoch", number job.at_epoch) ∷ row
timing_fields daily job row =
    (codes "hour", number (pos job.hour)) ∷ (codes "minute", number (pos job.minute)) ∷ row

-- The item that is written for a job.
unfoldable pub job_row : CronKind → Job → Row
job_row kind job =
    (codes "id", string job.id)
    ∷ (codes "name", string job.name)
    ∷ (codes "enabled", truth job.enabled)
    ∷ (codes "kind", string (kind_word kind))
    ∷ timing_fields kind job (
        (codes "message", string job.message)
        ∷ (codes "channel", string job.channel)
        ∷ (codes "chat_id", string job.chat_id)
        ∷ (codes "last_run", number job.last_run)
        ∷ (codes "next_run", number job.next_run)
        ∷ (codes "delete_after_run", truth job.delete_after_run)
        ∷ [])

abbrev pub with_loaded : Option Job → List Job → List Job
with_loaded none jobs = jobs
with_loaded (some job) jobs = jobs ++ job ∷ []

module _ (json : JobsJson) where
  open json use {Item, field, parse, print}

  -- The loop: the jobs loaded so far, and whether one was repaired.
  unfoldable pub load_items : List Item → List Job → Bool → List Job × Bool
  unfolding load_item
  load_items [] jobs repaired = (jobs, repaired)
  load_items (item ∷ items) jobs repaired =
      let (loaded, fixed) = load_item (field item) in
      let rest = load_items items (with_loaded loaded jobs) (repaired || fixed) in
      if leb max_cron_jobs (length jobs) then (jobs, repaired) else rest

  unfoldable pub loaded_jobs : Option (Option (List Item)) → List Job × Bool
  unfolding load_items
  loaded_jobs (some (some items)) = load_items items [] false
  loaded_jobs _ = ([], false)

  -- `file` is what can be read of the file, and `has_room` the outcome of the allocation. The table,
  -- the status, and whether the table is saved again.
  unfoldable pub load_jobs : Option Bytes → Bool → List Job → EspErr × List Job × Bool
  unfolding loaded_jobs
  load_jobs none has_room jobs = (ok, [], false)
  load_jobs (some text) has_room jobs =
      if length text == 0 || ltb 8192 (length text)
      then (ok, [], false)
      else if not has_room
      then (no_mem, jobs, false)
      else (ok, (loaded_jobs (parse text)).0, (loaded_jobs (parse text)).1)

  -- The text that goes to the file, or none for want of memory.
  unfoldable pub saved_text : List Job → Option Bytes
  unfolding job_row
  saved_text jobs = print (map (λ job. job_row job.kind job) jobs)

  -- `cron_save_jobs`: whether the file opens for writing, and how many bytes `fwrite` takes. The
  -- status, and what is in the file.
  unfoldable pub write_text : Bool → ℕ → Option Bytes → Option Bytes → EspErr × Option Bytes
  write_text opens written none file = (no_mem, file)
  write_text opens written (some text) file =
      if opens
      then (if written == length text then ok else fail, some (take written text))
      else (fail, file)

  unfoldable pub save_jobs : Bool → ℕ → List Job → Option Bytes → EspErr × Option Bytes
  unfolding write_text saved_text
  save_jobs opens written jobs file = write_text opens written (saved_text jobs) file
