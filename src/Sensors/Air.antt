-- ===== src/Sensors/Air.antt =====
-- main/drivers/sgp30.c: the checksum of a word, a measurement, and a reading.
use esp32_agent_mesh.Prelude.{
  ltb, leb, ◌==◌, if◌then◌else◌, EspErr, ok, invalid_state, invalid_crc, is_ok, ℕ, zero, suc, ◌+◌,
  ◌-◌, ◌*◌, ◌/◌, ◌%◌, Bool, true, false, not, ◌&&◌, Option, none, some,
}
use esp32_agent_mesh.Sensors.Sgp30.{Sgp30}

-- Exclusive or of so many bits.
unfoldable pub xor : ℕ → ℕ → ℕ → ℕ
xor zero a b = 0
xor (suc bits) a b = (a % 2 + b % 2) % 2 + 2 * xor bits (a / 2) (b / 2)

-- One bit of the checksum, of polynomial 0x31.
unfoldable pub crc_bit : ℕ → ℕ
unfolding xor
crc_bit crc = if leb 128 crc then xor 8 (crc * 2 % 256) 49 else crc * 2

unfoldable pub crc_bits : ℕ → ℕ → ℕ
unfolding crc_bit
crc_bits zero crc = crc
crc_bits (suc bits) crc = crc_bits bits (crc_bit crc)

unfoldable pub sgp30_crc_word : ℕ → ℕ → ℕ
unfolding crc_bits xor
sgp30_crc_word a b = crc_bits 8 (xor 8 (crc_bits 8 (xor 8 255 a)) b)

-- What `i2c_master_transmit` and `i2c_master_receive` come to, and the six bytes received.
pub record I2cTransfer : Type 0 where
  pub sent : EspErr
  pub received : EspErr
  pub co2_high : ℕ
  pub co2_low : ℕ
  pub co2_crc : ℕ
  pub tvoc_high : ℕ
  pub tvoc_low : ℕ
  pub tvoc_crc : ℕ

abbrev pub is_intact : I2cTransfer → Bool
is_intact t =
    (sgp30_crc_word t.co2_high t.co2_low == t.co2_crc)
    && (sgp30_crc_word t.tvoc_high t.tvoc_low == t.tvoc_crc)

-- The status, and the two values if it is ESP_OK.
unfoldable pub sgp30_measure_once : I2cTransfer → EspErr × ℕ × ℕ
sgp30_measure_once t =
    if not (is_ok t.sent)
    then (t.sent, 0, 0)
    else if not (is_ok t.received)
    then (t.received, 0, 0)
    else if not (is_intact t)
    then (invalid_crc, 0, 0)
    else (ok, t.co2_high * 256 + t.co2_low, t.tvoc_high * 256 + t.tvoc_low)

abbrev pub measure_interval_us : ℕ
measure_interval_us = 1000000

abbrev pub warmup_us : ℕ
warmup_us = 15000000

-- `sgp30_reading_t`
pub record Sgp30Reading : Type 0 where
  pub co2eq_ppm : ℕ
  pub tvoc_ppb : ℕ
  pub warming_up : Bool
  pub cached : Bool
  pub warmup_remaining_us : ℕ

abbrev pub reading_at : ℕ → Bool → Sgp30 → Sgp30Reading
reading_at now_us cached d = record {
  co2eq_ppm = d.last_co2eq_ppm;
  tvoc_ppb = d.last_tvoc_ppb;
  warming_up = ltb now_us (d.init_us + warmup_us);
  cached = cached;
  warmup_remaining_us = d.init_us + warmup_us - now_us;
}

-- The time of the measurement: before the first one the driver waits out an interval since the start
-- and reads the timer again.
abbrev pub measured_at : ℕ → ℕ → Sgp30 → ℕ
measured_at now_us later_us d =
    if not d.has_sample && ltb now_us (d.init_us + measure_interval_us) then later_us else now_us

unfoldable pub measured : I2cTransfer → ℕ → Sgp30 → EspErr × Option Sgp30Reading × Sgp30
unfolding sgp30_measure_once
measured t now_us d =
    let (err, co2, tvoc) = sgp30_measure_once t in
    let d' = record d {
      last_co2eq_ppm = co2;
      last_tvoc_ppb = tvoc;
      last_measure_us = now_us;
      has_sample = true;
    } in
    if is_ok err then (ok, some (reading_at now_us false d'), d') else (err, none, d)

-- `now_us` is the timer at the call, `later_us` after the wait. The reading is written on ESP_OK.
unfoldable pub sgp30_read_air_quality :
    I2cTransfer → ℕ → ℕ → Sgp30 → EspErr × Option Sgp30Reading × Sgp30
unfolding measured
sgp30_read_air_quality t now_us later_us d =
    if not d.dev
    then (invalid_state, none, d)
    else if d.has_sample && ltb now_us (d.last_measure_us + measure_interval_us)
    then (ok, some (reading_at now_us true d), d)
    else measured t (measured_at now_us later_us d) d
