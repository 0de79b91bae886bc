-- ===== src/Heartbeat/Timer.antt =====
-- main/heartbeat/heartbeat.c: starting and stopping the timer.
use esp32_agent_mesh.Prelude.{if◌then◌else◌, EspErr, ok, fail, ◌≡◌, Bool, true, false, not}

-- `s_heartbeat_timer`, and whether the timer runs.
pub record Timer : Type 0 where
  pub made : Bool
  pub ticking : Bool

-- `creates` and `starts` are what `xTimerCreate` and `xTimerStart` come to.
unfoldable pub heartbeat_start : Bool → Bool → Timer → EspErr × Timer
heartbeat_start creates starts t =
    if t.made
    then (ok, t)
    else if not creates
    then (fail, t)
    else if not starts
    then (fail, record { made = true; ticking = false })
    else (ok, record { made = true; ticking = true })

unfoldable pub heartbeat_stop : Timer → Timer
heartbeat_stop t = if t.made then record { made = false; ticking = false } else t

-- After a first start that failed because the timer could not be started, every further start
-- reports success and leaves the timer as it is, not running.
pub heartbeat_start-failed :
    (creates starts : Bool) (t : Timer)
    → t.made ≡ false
    → let failed = heartbeat_start true false t in
      (failed.0 ≡ fail)
      × (heartbeat_start creates starts failed.1 ≡ (ok, record { made = true; ticking = false }))
unfolding heartbeat_start
heartbeat_start-failed creates starts t n = (rw n, rw n)
