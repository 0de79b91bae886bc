-- ===== src/Heartbeat/Tests.antt =====
-- The heartbeat at concrete files and timers, and the theorems there.
use esp32_agent_mesh.Prelude.{
  All, Bytes, codes, skip_spaces, ◌≡◌, refl, ◌↔◌, true, false, some, List, [], ◌∷◌, arith,
}
use esp32_agent_mesh.Heartbeat.Content.{fgets, is_actionable, heartbeat_has_tasks}
use esp32_agent_mesh.Heartbeat.Worker.{
  Heart, still, tick, created, Reach, start, next, IsSingle, Reach-IsSingle,
}
use esp32_agent_mesh.Heartbeat.Timer.{Timer}
use esp32_agent_mesh.Heartbeat.Tasks.{unlines, IsIdle, file_of, heartbeat_has_tasks-IsIdle}

abbrev quiet : List Bytes
quiet = codes "# Title" ∷ codes "- [x] done" ∷ codes "   " ∷ []

abbrev busy : List Bytes
busy = codes "# Title" ∷ codes "- [ ] water" ∷ []

quiet_sleeps : heartbeat_has_tasks (some (unlines quiet)) ≡ false
unfolding heartbeat_has_tasks fgets is_actionable skip_spaces
quiet_sleeps = refl

busy_wakes : heartbeat_has_tasks (some (unlines busy)) ≡ true
unfolding heartbeat_has_tasks fgets is_actionable skip_spaces
busy_wakes = refl

heartbeat_has_tasks-IsIdle_example :
    (heartbeat_has_tasks (some (file_of quiet (codes "- [ ] water"))) ≡ false)
    ↔ (All IsIdle quiet × IsIdle (codes "- [ ] water"))
heartbeat_has_tasks-IsIdle_example =
    heartbeat_has_tasks-IsIdle quiet (codes "- [ ] water") (ground arith) (ground arith)

abbrev one_worker : Heart
one_worker = record { running = true; creating = false; workers = 1; leaving = 0 }

started_once : Reach one_worker
started_once =
    next (record { running = true; creating = true; workers = 0; leaving = 0 }) one_worker
      (next still (record { running = true; creating = true; workers = 0; leaving = 0 }) start
        (tick 0 0))
      (created true 0 0)

Reach-IsSingle_example : IsSingle one_worker
Reach-IsSingle_example = Reach-IsSingle one_worker started_once

abbrev no_timer : Timer
no_timer = record { made = false; ticking = false }
