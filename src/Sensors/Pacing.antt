-- ===== src/Sensors/Pacing.antt =====
-- main/drivers/sgp30.c: when a reading measures, and what it then is.
use esp32_agent_mesh.Prelude.{
  ltb, Bool-cases, if_cases, EspErr, ok, invalid_state, is_ok, ℕ, ◌+◌, ◌<◌, ◌≡◌, refl, ap, inl, inr,
  true, not, ◌&&◌, Option, none, some, arith,
}
use esp32_agent_mesh.Sensors.Sgp30.{Sgp30}
use esp32_agent_mesh.Sensors.Air.{
  I2cTransfer, sgp30_measure_once, measure_interval_us, Sgp30Reading, reading_at, measured_at,
  measured, sgp30_read_air_quality,
}

-- What a successful reading leaves: a device with a sample.
pub record IsSampled (r : EspErr × Option Sgp30Reading × Sgp30) : Type 0 where
  pub with_dev : r.2.dev ≡ true
  pub with_sample : r.2.has_sample ≡ true

measured-IsSampled :
    (t : I2cTransfer) (now_us : ℕ) (d : Sgp30)
    → d.dev ≡ true
    → (measured t now_us d).0 ≡ ok
    → IsSampled (measured t now_us d)
unfolding measured
measured-IsSampled t now_us d on h = elim (Bool-cases (is_ok (sgp30_measure_once t).0)) [
  | inl e ↦ simp e (record { with_dev = on; with_sample = refl })
  | inr e ↦ absurd (cc (ap is_ok (rw e at h), e))
]

abbrev Succeeds : EspErr × Option Sgp30Reading × Sgp30 → Type 0
Succeeds r = r.0 ≡ ok → IsSampled r

read-IsSampled :
    (t : I2cTransfer) (now_us later_us : ℕ) (d : Sgp30)
    → Succeeds (sgp30_read_air_quality t now_us later_us d)
unfolding sgp30_read_air_quality
read-IsSampled t now_us later_us d =
    if_cases Succeeds (not d.dev) (invalid_state, none, d) _ (λ off h. absurd (cc h))
      (λ on.
        if_cases Succeeds (d.has_sample && ltb now_us (d.last_measure_us + measure_interval_us))
          (ok, some (reading_at now_us true d), d) (measured t (measured_at now_us later_us d) d)
          (λ young h. record { with_dev = ground (arith, on); with_sample = ground (arith, young) })
          (λ old h. measured-IsSampled t (measured_at now_us later_us d) d (ground (arith, on)) h))

read_again :
    (u : I2cTransfer) (next_us after_us : ℕ) (d : Sgp30)
    → d.dev ≡ true
    → d.has_sample ≡ true
    → next_us < d.last_measure_us + measure_interval_us
    → sgp30_read_air_quality u next_us after_us d ≡ (ok, some (reading_at next_us true d), d)
unfolding sgp30_read_air_quality
read_again u next_us after_us d on sampled soon =
    let young : (d.has_sample && ltb next_us (d.last_measure_us + measure_interval_us)) ≡ true =
      ground (arith, sampled, soon) in
    simp (on, young) refl

-- After a reading that succeeded, a reading within a second of the measurement behind it does not
-- measure: whatever the sensor would do, it succeeds, gives that measurement's values again, marked
-- as cached, and changes nothing.
pub sgp30_read_air_quality-cached :
    (t u : I2cTransfer) (now_us later_us next_us after_us : ℕ) (d : Sgp30)
    → let first = sgp30_read_air_quality t now_us later_us d in
      first.0 ≡ ok
      → next_us < first.2.last_measure_us + measure_interval_us
      → sgp30_read_air_quality u next_us after_us first.2
        ≡ (ok, some (reading_at next_us true first.2), first.2)
sgp30_read_air_quality-cached t u now_us later_us next_us after_us d h soon =
    let s = read-IsSampled t now_us later_us d h in
    read_again u next_us after_us (sgp30_read_air_quality t now_us later_us d).2 s.with_dev
      s.with_sample soon
