-- ===== src/Sensors/Sgp30.antt =====
-- main/drivers/sgp30.c and sgp30.h: starting and stopping the air quality sensor. The I2C driver of the
-- SDK is not in the repository: what its calls return are arguments.
use esp32_agent_mesh.Prelude.{
  if◌then◌else◌, EspErr, ok, invalid_arg, is_ok, ℕ, Bool, true, false, not, ◌&&◌, ◌||◌, List, [],
  ◌∷◌, ◌++◌,
}
use esp32_agent_mesh.Prelude.Int.{ℤ, pos, negsuc, leb_ℤ, eq_ℤ}

-- `sgp30_config_t`, whose pull-up flag only goes to the SDK.
pub record Sgp30Config : Type 0 where
  pub sda_gpio : ℤ
  pub scl_gpio : ℤ
  pub i2c_port : ℤ
  pub scl_hz : ℤ

-- `sgp30_dev_t`; a handle is there or not.
pub record Sgp30 : Type 0 where
  pub bus : Bool
  pub dev : Bool
  pub sda_gpio : ℤ
  pub scl_gpio : ℤ
  pub i2c_port : ℤ
  pub scl_hz : ℤ
  pub init_us : ℕ
  pub last_measure_us : ℕ
  pub last_co2eq_ppm : ℕ
  pub last_tvoc_ppb : ℕ
  pub has_sample : Bool

-- What `sgp30_dev_init_default` and `sgp30_deinit` leave.
abbrev pub idle_sgp30 : Sgp30
idle_sgp30 = record {
  bus = false;
  dev = false;
  sda_gpio = negsuc 0;
  scl_gpio = negsuc 0;
  i2c_port = negsuc 0;
  scl_hz = pos 0;
  init_us = 0;
  last_measure_us = 0;
  last_co2eq_ppm = 0;
  last_tvoc_ppb = 0;
  has_sample = false;
}

-- Handles of the driver that are released: the device's, then the bus's.
pub data I2cRelease : Type 0 where
  release_device release_bus : I2cRelease

unfoldable pub sgp30_deinit : Sgp30 → List I2cRelease × Sgp30
sgp30_deinit d = (
  (if d.dev then release_device ∷ [] else []) ++ (if d.bus then release_bus ∷ [] else []),
  idle_sgp30,
)

-- The outcomes of the four calls of `sgp30_init`, in order.
pub record I2cOutcome : Type 0 where
  pub new_bus : EspErr
  pub probe : EspErr
  pub add_device : EspErr
  pub transmit : EspErr

abbrev pub same_config : Sgp30Config → Sgp30 → Bool
same_config cfg d =
    d.bus
    && d.dev
    && eq_ℤ d.sda_gpio cfg.sda_gpio
    && eq_ℤ d.scl_gpio cfg.scl_gpio
    && eq_ℤ d.i2c_port cfg.i2c_port
    && eq_ℤ d.scl_hz cfg.scl_hz

-- A step that failed is undone by `sgp30_deinit`.
abbrev pub undone : EspErr → Sgp30 → EspErr × List I2cRelease × Sgp30
undone err d = let (released, d') = sgp30_deinit d in (err, released, d')

-- From the creation of the bus on.
unfoldable pub start_bus : I2cOutcome → ℕ → Sgp30Config → Sgp30 → EspErr × List I2cRelease × Sgp30
unfolding sgp30_deinit
start_bus io now_us cfg d =
    let with_bus = record d { bus = true } in
    let with_dev = record with_bus { dev = true } in
    if not (is_ok io.new_bus)
    then undone io.new_bus d
    else if not (is_ok io.probe)
    then undone io.probe with_bus
    else if not (is_ok io.add_device)
    then undone io.add_device with_bus
    else if not (is_ok io.transmit)
    then undone io.transmit with_dev
    else (
      ok,
      [],
      record with_dev {
        sda_gpio = cfg.sda_gpio;
        scl_gpio = cfg.scl_gpio;
        i2c_port = cfg.i2c_port;
        scl_hz = cfg.scl_hz;
        init_us = now_us;
        last_measure_us = 0;
        last_co2eq_ppm = 0;
        last_tvoc_ppb = 0;
        has_sample = false;
      },
    )

module _ (gpio_is_valid : ℤ → Bool) where
  unfoldable pub sgp30_valid_gpio_pair : ℤ → ℤ → Bool
  sgp30_valid_gpio_pair sda scl = gpio_is_valid sda && gpio_is_valid scl

  -- The status, the handles that were released, and the device.
  unfoldable pub sgp30_init :
      I2cOutcome → ℕ → Sgp30Config → Sgp30 → EspErr × List I2cRelease × Sgp30
  unfolding start_bus sgp30_valid_gpio_pair
  sgp30_init io now_us cfg d =
      if not (sgp30_valid_gpio_pair cfg.sda_gpio cfg.scl_gpio) || leb_ℤ cfg.scl_hz (pos 0)
      then (invalid_arg, [], d)
      else if same_config cfg d
      then (ok, [], d)
      else if d.bus || d.dev
      then (let (released, fresh) = sgp30_deinit d in
          let (err, more, d') = start_bus io now_us cfg fresh in (err, released ++ more, d'))
      else start_bus io now_us cfg d
