-- ===== src/Heartbeat/Worker.antt =====
-- main/heartbeat/heartbeat.c: the timer's callback and the worker task that it starts. The critical
-- sections are steps; between the two of a callback other tasks may act, but not the callback, which
-- the one timer task runs.
use esp32_agent_mesh.Prelude.{ltb, ℕ, suc, ◌≤◌, ◌≡◌, refl, Bool, true, false, ◌||◌, arith}

-- `s_heartbeat_worker_running`, whether a callback is between its critical sections, how many worker
-- tasks have not cleared the flag yet, and how many have and still have to delete themselves.
pub record Heart : Type 0 where
  pub running : Bool
  pub creating : Bool
  pub workers : ℕ
  pub leaving : ℕ

abbrev pub still : Heart
still = record { running = false; creating = false; workers = 0; leaving = 0 }

pub data Step : Heart → Heart → Type 0 where
  -- The callback finds the flag set.
  tick_busy :
      (n m : ℕ)
      → Step
          (record { running = true; creating = false; workers = n; leaving = m })
          (record { running = true; creating = false; workers = n; leaving = m })
  -- The callback sets the flag.
  tick :
      (n m : ℕ)
      → Step
          (record { running = false; creating = false; workers = n; leaving = m })
          (record { running = true; creating = true; workers = n; leaving = m })
  -- `xTaskCreate` succeeds.
  created :
      (r : Bool) (n m : ℕ)
      → Step
          (record { running = r; creating = true; workers = n; leaving = m })
          (record { running = r; creating = false; workers = suc n; leaving = m })
  -- `xTaskCreate` fails, and the callback takes the flag back.
  refused :
      (r : Bool) (n m : ℕ)
      → Step
          (record { running = r; creating = true; workers = n; leaving = m })
          (record { running = false; creating = false; workers = n; leaving = m })
  -- A worker that has sent the message clears the flag.
  finished :
      (r c : Bool) (n m : ℕ)
      → Step
          (record { running = r; creating = c; workers = suc n; leaving = m })
          (record { running = false; creating = c; workers = n; leaving = suc m })
  -- It deletes itself.
  deleted :
      (r c : Bool) (n m : ℕ)
      → Step
          (record { running = r; creating = c; workers = n; leaving = suc m })
          (record { running = r; creating = c; workers = n; leaving = m })

pub data Reach : Heart → Type 0 where
  start : Reach still
  next : (h k : Heart) → Reach h → Step h k → Reach k

-- The flag is set exactly while a worker that has not cleared it is there or about to be.
pub record IsSingle (h : Heart) : Type 0 where
  pub at_most_one : h.workers ≤ 1
  pub flagged : h.running ≡ (h.creating || ltb 0 h.workers)
  pub apart : h.creating ≡ true → h.workers ≡ 0

Step-IsSingle : (h k : Heart) → Step h k → IsSingle h → IsSingle k
Step-IsSingle _ _ (tick_busy n m) v = v
Step-IsSingle _ _ (tick n m) v =
    let none_left : n ≡ 0 = ground (arith, v.flagged) in
    record { at_most_one = v.at_most_one; flagged = refl; apart = λ e. none_left }
Step-IsSingle _ _ (created r n m) v =
    let none_yet : n ≡ 0 = v.apart refl in
    record {
      at_most_one = omega (arith, none_yet);
      flagged = ground (arith, v.flagged);
      apart = λ e. absurd (cc e);
    }
Step-IsSingle _ _ (refused r n m) v =
    let none_yet : n ≡ 0 = v.apart refl in
    record {
      at_most_one = v.at_most_one;
      flagged = ground (arith, none_yet);
      apart = λ e. none_yet;
    }
Step-IsSingle _ _ (finished r c n m) v =
    let last : n ≡ 0 = omega (arith, v.at_most_one) in
    let done : c ≡ false = ground (arith, v.apart) in
    record {
      at_most_one = omega (arith, last);
      flagged = ground (arith, last, done);
      apart = λ e. last;
    }
Step-IsSingle _ _ (deleted r c n m) v = record {
  at_most_one = v.at_most_one;
  flagged = v.flagged;
  apart = v.apart;
}

-- However ticks, task creations, workers that clear the flag and workers that delete themselves
-- interleave, there is never more than one worker that has not cleared the flag, so that no two send
-- at once; the flag is set exactly while there is one or one is about to be created.
pub Reach-IsSingle : (h : Heart) → Reach h → IsSingle h
Reach-IsSingle _ start = record { at_most_one = omega arith; flagged = refl; apart = λ e. refl }
Reach-IsSingle _ (next h k r s) = Step-IsSingle h k s (Reach-IsSingle h r)
