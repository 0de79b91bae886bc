-- ===== src/Cron/Restart.antt =====
-- main/cron/cron_service.c: the table survives a restart.
use esp32_agent_mesh.Prelude.{
  ltb, leb, ◌==◌, Bool-cases, length, All, length-append, take_all, Bytes, ok, ℕ, ◌+◌, ◌≤◌, ◌<◌,
  ◌≡◌, refl, sym, ap, ap₂, ◌∙◌, inl, inr, Bool, true, false, ◌||◌, Option, none, some, List, [],
  ◌∷◌, ◌++◌, append_assoc, append-nil, arith,
}
use esp32_agent_mesh.Cron.Jobs.{Job, max_cron_jobs}
use esp32_agent_mesh.Cron.Storage.{
  Reads, JobsJson, IsFaithful, load_items, loaded_jobs, load_jobs, saved_text, write_text,
  save_jobs,
}
use esp32_agent_mesh.Cron.Saved.{load_item-job_row, rows, IsKept}

module _ (json : JobsJson) where
  open json use {Item, field}

  load_items-rows :
      (items : List Item) (jobs before : List Job) (repaired : Bool)
      → Reads field items (rows jobs)
      → All IsKept jobs
      → length before + length jobs ≤ max_cron_jobs
      → load_items json items before repaired ≡ (before ++ jobs, repaired)
  unfolding load_items
  load_items-rows [] [] before repaired g a h = ap (λ js. (js, repaired)) (sym (append-nil before))
  load_items-rows [] (job ∷ jobs) before repaired g a h = absurd g
  load_items-rows (item ∷ items) [] before repaired g a h = absurd g
  load_items-rows (item ∷ items) (job ∷ jobs) before repaired (g, gs) (a, others) h =
      let room : leb max_cron_jobs (length before) ≡ false = ground (arith, h) in
      let one = load_item-job_row (field item) job.kind job g a in
      let left : length (before ++ job ∷ []) + length jobs ≤ max_cron_jobs =
        omega (arith, h, length-append before (job ∷ [])) in
      rw (room, one)
        (load_items-rows items jobs (before ++ job ∷ []) (repaired || false) gs others left
          ∙ ap₂ (λ js r. (js, r)) (append_assoc before (job ∷ []) jobs) (ground arith))

  -- The text of a saved table loads as the table.
  load_jobs-saved :
      (jobs old : List Job) (text : Bytes)
      → length jobs ≤ max_cron_jobs
      → All IsKept jobs
      → saved_text json jobs ≡ some text
      → IsFaithful json (rows jobs) text
      → 0 < length text
      → length text ≤ 8192
      → load_jobs json (some text) true old ≡ (ok, jobs, false)
  unfolding load_jobs loaded_jobs
  load_jobs-saved jobs old text few kept saved faithful some_text short =
      let small : (length text == 0 || ltb 8192 (length text)) ≡ false =
        ground (arith, some_text, short) in
      rw (small, faithful.parsed)
        (ap (λ (r : List Job × Bool). (ok, r.0, r.1))
          (load_items-rows faithful.items jobs [] false faithful.reads kept (omega (arith, few))))

  write_text-ok :
      (opens : Bool) (written : ℕ) (text file : Option Bytes)
      → (write_text json opens written text file).0 ≡ ok
      → (saved : Bytes) × (text ≡ some saved)
        × ((write_text json opens written text file).1 ≡ some saved)
  unfolding write_text
  write_text-ok opens written none file h = absurd (cc h)
  write_text-ok false written (some text) file h = absurd (cc h)
  write_text-ok true written (some text) file h = elim (Bool-cases (written == length text)) [
    | inl whole ↦ (text, refl, ap some (take_all written text (ground (arith, whole))))
    | inr cut ↦ absurd (cc (rw cut at h))
  ]

  -- A save that reports success is undone by a load: the table after a restart is the table that was
  -- saved. It is assumed that the jobs are at most 16, with texts that fit their fields, a
  -- destination and only the times of their kind; that the text takes 1 to 8192 bytes; and that the
  -- JSON library reads the text that it printed.
  pub load_jobs-save :
      (opens : Bool) (written : ℕ) (jobs old : List Job) (file : Option Bytes)
      → (save_jobs json opens written jobs file).0 ≡ ok
      → length jobs ≤ max_cron_jobs
      → All IsKept jobs
      → ((text : Bytes)
          → saved_text json jobs ≡ some text
          → IsFaithful json (rows jobs) text × (0 < length text) × (length text ≤ 8192))
      → load_jobs json (save_jobs json opens written jobs file).1 true old ≡ (ok, jobs, false)
  unfolding save_jobs
  load_jobs-save opens written jobs old file saved few kept reads =
      let (text, printed, stored) = write_text-ok opens written (saved_text json jobs) file saved in
      let (faithful, some_text, short) = reads text printed in
      ap (λ f. load_jobs json f true old) stored
      ∙ load_jobs-saved jobs old text few kept printed faithful some_text short
