-- ===== src/Sensors/Startup.antt =====
-- main/drivers/sgp30.c: a start succeeds as a whole or leaves nothing behind.
use esp32_agent_mesh.Prelude.{
  if◌then◌else◌, Bool-cases, EspErr, ok, is_ok, ℕ, ◌≡◌, refl, sym, ap₂, subst, inl, inr, Bool, true,
  false, ◌&&◌, ◌||◌, List, [], ◌∷◌, ◌++◌, append-nil, arith,
}
use esp32_agent_mesh.Prelude.Int.{ℤ, pos, leb_ℤ, eq_ℤ}
use esp32_agent_mesh.Sensors.Sgp30.{
  Sgp30Config, Sgp30, idle_sgp30, I2cRelease, release_device, release_bus, sgp30_deinit, I2cOutcome,
  same_config, start_bus, sgp30_valid_gpio_pair, sgp30_init,
}

-- The first of the four steps that failed, by its error, and what had been made by then.
pub data FailsWith (io : I2cOutcome) : EspErr → List I2cRelease → Type 0 where
  at_bus : is_ok io.new_bus ≡ false → FailsWith io io.new_bus []
  at_probe :
      is_ok io.new_bus ≡ true → is_ok io.probe ≡ false → FailsWith io io.probe (release_bus ∷ [])
  at_device :
      is_ok io.new_bus ≡ true
      → is_ok io.probe ≡ true
      → is_ok io.add_device ≡ false
      → FailsWith io io.add_device (release_bus ∷ [])
  at_command :
      is_ok io.new_bus ≡ true
      → is_ok io.probe ≡ true
      → is_ok io.add_device ≡ true
      → is_ok io.transmit ≡ false
      → FailsWith io io.transmit (release_device ∷ release_bus ∷ [])

-- What is to be released of a device: its own handle before the bus's.
abbrev pub handles_of : Bool → Bool → List I2cRelease
handles_of true true = release_device ∷ release_bus ∷ []
handles_of true false = release_device ∷ []
handles_of false true = release_bus ∷ []
handles_of false false = []

-- A start of a device: nothing was to be done; or what it had is released and it is on as configured;
-- or what it had and what was made is released, the error is that of the step that failed, and
-- nothing is left.
pub data IsSettled (io : I2cOutcome) (now_us : ℕ) (cfg : Sgp30Config) (d : Sgp30)
    : EspErr × List I2cRelease × Sgp30 → Type 0 where
  kept : same_config cfg d ≡ true → IsSettled io now_us cfg d (ok, [], d)
  started :
      (d' : Sgp30)
      → same_config cfg d ≡ false
      → is_ok io.new_bus && is_ok io.probe && is_ok io.add_device && is_ok io.transmit ≡ true
      → same_config cfg d' ≡ true
      → d'.init_us ≡ now_us
      → d'.has_sample ≡ false
      → IsSettled io now_us cfg d (ok, handles_of d.dev d.bus, d')
  gave_up :
      (err : EspErr) (made : List I2cRelease)
      → same_config cfg d ≡ false
      → FailsWith io err made
      → IsSettled io now_us cfg d (err, handles_of d.dev d.bus ++ made, idle_sgp30)

eq_ℤ-refl : (z : ℤ) → eq_ℤ z z ≡ true
eq_ℤ-refl z = ground arith

handles_of-released :
    (dev bus : Bool)
    → (if dev then release_device ∷ [] else []) ++ (if bus then release_bus ∷ [] else [])
      ≡ handles_of dev bus
handles_of-released true true = refl
handles_of-released true false = refl
handles_of-released false true = refl
handles_of-released false false = refl

-- From the creation of the bus on, after what was there has been released.
module _ (io : I2cOutcome) (now_us : ℕ) (cfg : Sgp30Config) where
  pub data Began : EspErr × List I2cRelease × Sgp30 → Type 0 where
    went :
        (d' : Sgp30)
        → is_ok io.new_bus && is_ok io.probe && is_ok io.add_device && is_ok io.transmit ≡ true
        → same_config cfg d' ≡ true
        → d'.init_us ≡ now_us
        → d'.has_sample ≡ false
        → Began (ok, [], d')
    failed_at :
        (err : EspErr) (made : List I2cRelease)
        → FailsWith io err made
        → Began (err, made, idle_sgp30)

  start_bus-Began : (d : Sgp30) → d.bus ≡ false → d.dev ≡ false → Began (start_bus io now_us cfg d)
  unfolding start_bus sgp30_deinit
  start_bus-Began d no_bus no_dev = elim (Bool-cases (is_ok io.new_bus)) [
    | inr e ↦ rw (e, no_bus, no_dev) (failed_at io.new_bus [] (at_bus e))
    | inl e ↦ elim (Bool-cases (is_ok io.probe)) [
      | inr f ↦ rw (e, f, no_dev) (failed_at io.probe _ (at_probe e f))
      | inl f ↦ elim (Bool-cases (is_ok io.add_device)) [
        | inr g ↦ rw (e, f, g, no_dev) (failed_at io.add_device _ (at_device e f g))
        | inl g ↦ elim (Bool-cases (is_ok io.transmit)) [
          | inr h ↦ rw (e, f, g, h) (failed_at io.transmit _ (at_command e f g h))
          | inl h ↦
              rw (e, f, g, h)
                (went _ (rw (e, f, g, h) refl)
                  (rw
                    (
                      eq_ℤ-refl cfg.sda_gpio,
                      eq_ℤ-refl cfg.scl_gpio,
                      eq_ℤ-refl cfg.i2c_port,
                      eq_ℤ-refl cfg.scl_hz,
                    )
                    refl)
                  refl refl)
        ]
      ]
    ]
  ]

  -- After the handles of a device were released.
  behind :
      (d : Sgp30) (r : EspErr × List I2cRelease × Sgp30)
      → same_config cfg d ≡ false
      → Began r
      → IsSettled io now_us cfg d (r.0, handles_of d.dev d.bus ++ r.1, r.2)
  behind d _ new (went d' all same at fresh) =
      subst (λ hs. IsSettled io now_us cfg d (ok, hs, d'))
        (sym (append-nil (handles_of d.dev d.bus))) (started d' new all same at fresh)
  behind d _ new (failed_at err made f) = gave_up err made new f

module _ (gpio_is_valid : ℤ → Bool) where
  -- `sgp30_init` with pins and a clock that pass its checks: on a device that is on with the same
  -- configuration it does nothing; else it releases the handles that the device has, the device's
  -- before the bus's, and then either all four steps succeed and the device is on as configured,
  -- with no sample yet, or it reports the error of the first step that failed, releases what was
  -- made until then, in the same order, and leaves the device as `sgp30_deinit` does.
  pub sgp30_init-IsSettled :
      (io : I2cOutcome) (now_us : ℕ) (cfg : Sgp30Config) (d : Sgp30)
      → sgp30_valid_gpio_pair gpio_is_valid cfg.sda_gpio cfg.scl_gpio ≡ true
      → leb_ℤ cfg.scl_hz (pos 0) ≡ false
      → IsSettled io now_us cfg d (sgp30_init gpio_is_valid io now_us cfg d)
  unfolding sgp30_init sgp30_deinit
  sgp30_init-IsSettled io now_us cfg d pins clock = elim (Bool-cases (same_config cfg d)) [
    | inl same ↦ rw (pins, clock, same) (kept same)
    | inr new ↦ elim (Bool-cases (d.bus || d.dev)) [
      | inl held ↦
          rw (pins, clock, new, held, handles_of-released d.dev d.bus)
            (behind io now_us cfg d (start_bus io now_us cfg idle_sgp30) new
              (start_bus-Began io now_us cfg idle_sgp30 refl refl))
      | inr free ↦
          let no_bus : d.bus ≡ false = ground (arith, free) in
          let no_dev : d.dev ≡ false = ground (arith, free) in
          let settled =
            behind io now_us cfg d (start_bus io now_us cfg d) new
              (start_bus-Began io now_us cfg d no_bus no_dev) in
          rw (pins, clock, new, free)
            (subst
              (λ hs. IsSettled io now_us cfg d (
                (start_bus io now_us cfg d).0,
                hs ++ (start_bus io now_us cfg d).1,
                (start_bus io now_us cfg d).2,
              ))
              (ap₂ handles_of no_dev no_bus) settled)
    ]
  ]
