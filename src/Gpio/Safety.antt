-- ===== src/Gpio/Safety.antt =====
-- main/tools/gpio_policy.c: what the policy lets through.
use esp32_agent_mesh.Prelude.{
  leb, ◌==◌, All, Bytes, codes, ℕ, ◌≡◌, Bool, true, false, ◌&&◌, ◌||◌, List, [], ◌∷◌, arith,
}
use esp32_agent_mesh.Prelude.Int.{ℤ, pos, negsuc, ltb_ℤ, eq_ℤ}
use esp32_agent_mesh.Gpio.Policy.{
  Target, esp32, esp32s3, other, gpio_allowed_csv, pin_in_allowlist, between, pin_is_allowed,
  pin_forbidden_hint,
}
use esp32_agent_mesh.Gpio.Allowlist.{names, IsEntry, pin_in_allowlist-join}

abbrev pub s3_words : List Bytes
s3_words =
    codes "1"
    ∷ codes "2"
    ∷ codes "3"
    ∷ codes "4"
    ∷ codes "5"
    ∷ codes "6"
    ∷ codes "7"
    ∷ codes "8"
    ∷ codes "9"
    ∷ codes "10"
    ∷ codes "11"
    ∷ codes "12"
    ∷ codes "13"
    ∷ codes "14"
    ∷ codes "15"
    ∷ codes "16"
    ∷ codes "17"
    ∷ codes "18"
    ∷ codes "21"
    ∷ codes "38"
    ∷ codes "46"
    ∷ []

s3_words-IsEntry : All IsEntry s3_words
s3_words-IsEntry = ground arith

listed : (pin : ℤ) → pin_in_allowlist pin gpio_allowed_csv ≡ names pin s3_words
listed pin = pin_in_allowlist-join pin s3_words s3_words-IsEntry

s3_names : (n : ℕ) → names (pos n) s3_words ≡ (leb 1 n && leb n 18 || n == 21 || n == 38 || n == 46)
s3_names n = ground arith

module _ (gpio_is_valid : ℤ → Bool) where
  -- On the ESP32-S3 the pins let through are those of 1-18, 21, 38 and 46 that the SDK takes for
  -- valid, and no others: none of them is negative or one of the USB pins.
  pub pin_is_allowed-s3 :
      (pin : ℤ)
      → pin_is_allowed gpio_is_valid esp32s3 pin ≡ (
          (between 1 18 pin || eq_ℤ pin (pos 21) || eq_ℤ pin (pos 38) || eq_ℤ pin (pos 46))
          && gpio_is_valid pin)
  unfolding pin_is_allowed
  pin_is_allowed-s3 (negsuc n) = ground arith
  pin_is_allowed-s3 (pos n) = rw (listed (pos n), s3_names n) (ground arith)

  -- A pin for which there is a hint is refused, on every target: the hint never speaks of a pin that
  -- the policy lets through. Nor is a negative pin let through.
  pub pin_forbidden_hint-refused :
      (t : Target) (pin : ℤ)
      → (pin_forbidden_hint t pin || ltb_ℤ pin (pos 0)) ≡ true
      → pin_is_allowed gpio_is_valid t pin ≡ false
  unfolding pin_is_allowed pin_forbidden_hint
  pin_forbidden_hint-refused esp32 pin h = ground (arith, h)
  pin_forbidden_hint-refused esp32s3 pin h = ground (arith, h)
  pin_forbidden_hint-refused other pin h = ground (arith, h)
