-- ===== src/Gpio/Tests.antt =====
-- The policy at concrete pins, and the theorems at inputs that meet their hypotheses.
use esp32_agent_mesh.Prelude.{codes, skip_spaces, ◌≡◌, refl, Bool, true, false, ◌&&◌, ◌||◌}
use esp32_agent_mesh.Prelude.Int.{ℤ, pos, negsuc, eq_ℤ}
use esp32_agent_mesh.Gpio.Strtol.{read_digits, strtol}
use esp32_agent_mesh.Gpio.Policy.{esp32, esp32s3, pin_in_allowlist, between, pin_is_allowed}
use esp32_agent_mesh.Gpio.Safety.{pin_is_allowed-s3}

abbrev any_valid : ℤ → Bool
any_valid pin = true

some_pins :
    (pin_is_allowed any_valid esp32s3 (pos 46) ≡ true)
    × (pin_is_allowed any_valid esp32s3 (pos 20) ≡ false)
    × (pin_is_allowed any_valid esp32 (pos 7) ≡ false)
    × (pin_is_allowed any_valid esp32s3 (negsuc 0) ≡ false)
unfolding pin_is_allowed pin_in_allowlist strtol skip_spaces read_digits
some_pins = (refl, refl, refl, refl)

odd_text : pin_in_allowlist (pos 9) (codes " x, 4 ,,+9") ≡ true
unfolding pin_in_allowlist strtol skip_spaces read_digits
odd_text = refl

pin_is_allowed-s3_example : pin_is_allowed any_valid esp32s3 (pos 38) ≡ (
    (between 1 18 (pos 38)
      || eq_ℤ (pos 38) (pos 21)
      || eq_ℤ (pos 38) (pos 38)
      || eq_ℤ (pos 38) (pos 46))
    && any_valid (pos 38))
pin_is_allowed-s3_example = pin_is_allowed-s3 any_valid (pos 38)
