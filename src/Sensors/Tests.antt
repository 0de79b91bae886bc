-- ===== src/Sensors/Tests.antt =====
-- The sensor at concrete outcomes, and the theorems there.
use esp32_agent_mesh.Prelude.{ok, timeout, ◌≡◌, refl, Bool, true}
use esp32_agent_mesh.Prelude.Int.{ℤ, pos}
use esp32_agent_mesh.Sensors.Sgp30.{
  Sgp30Config, Sgp30, idle_sgp30, I2cOutcome, sgp30_valid_gpio_pair, sgp30_init,
}
use esp32_agent_mesh.Sensors.Startup.{IsSettled, sgp30_init-IsSettled}
use esp32_agent_mesh.Sensors.Air.{xor, crc_bits, sgp30_crc_word, I2cTransfer}

-- The example of the sensor's data sheet.
data_sheet_crc : sgp30_crc_word 190 239 ≡ 146
unfolding sgp30_crc_word crc_bits xor
data_sheet_crc = refl

abbrev wired : Sgp30Config
wired = record { sda_gpio = pos 14; scl_gpio = pos 15; i2c_port = pos 0; scl_hz = pos 100000 }

abbrev no_answer : I2cOutcome
no_answer = record { new_bus = ok; probe = timeout; add_device = ok; transmit = ok }

abbrev any_pin : ℤ → Bool
any_pin pin = true

sgp30_init-IsSettled_example :
    IsSettled no_answer 7 wired idle_sgp30 (sgp30_init any_pin no_answer 7 wired idle_sgp30)
unfolding sgp30_valid_gpio_pair
sgp30_init-IsSettled_example = sgp30_init-IsSettled any_pin no_answer 7 wired idle_sgp30 refl refl

abbrev started : Sgp30
started = record idle_sgp30 { bus = true; dev = true; init_us = 7 }

abbrev clean_air : I2cTransfer
clean_air = record {
  sent = ok;
  received = ok;
  co2_high = 1;
  co2_low = 144;
  co2_crc = sgp30_crc_word 1 144;
  tvoc_high = 0;
  tvoc_low = 0;
  tvoc_crc = sgp30_crc_word 0 0;
}

abbrev silent : I2cTransfer
silent = record clean_air { sent = timeout }
