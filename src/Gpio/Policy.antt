-- ===== src/Gpio/Policy.antt =====
-- main/tools/gpio_policy.c and gpio_policy.h.
use esp32_agent_mesh.Prelude.{
  ◌==◌, if◌then◌else◌, length, Bytes, codes, is_empty, ℕ, zero, suc, Bool, true, false, not, ◌&&◌,
  ◌||◌, none, some, [], ◌∷◌,
}
use esp32_agent_mesh.Prelude.Int.{ℤ, pos, ltb_ℤ, leb_ℤ, eq_ℤ}
use esp32_agent_mesh.Gpio.Strtol.{strtol}

-- `CONFIG_IDF_TARGET_…`
pub data Target : Type 0 where
  esp32 esp32s3 other : Target

abbrev pub gpio_min_pin : ℕ
gpio_min_pin = 1

abbrev pub gpio_max_pin : ℕ
gpio_max_pin = 21

abbrev pub gpio_allowed_csv : Bytes
gpio_allowed_csv = codes "1,2,3,4,5,6,7,8,9,10,11,12,13,14,15,16,17,18,21,38,46"

-- The blanks and commas between two entries.
unfoldable pub skip_gap : Bytes → Bytes
skip_gap [] = []
skip_gap (c ∷ cs) = if c == b' ' || c == b'\t' || c == b',' then skip_gap cs else c ∷ cs

-- `while (*cursor != '\0' && *cursor != ',') cursor++;`
unfoldable pub drop_entry : Bytes → Bytes
drop_entry [] = []
drop_entry (c ∷ cs) = if c == b',' then c ∷ cs else drop_entry cs

-- The loop of `pin_in_allowlist`, on fuel: each round reads at least one byte.
unfoldable pub allowlist_from : ℕ → ℤ → Bytes → Bool
unfolding skip_gap drop_entry
allowlist_from zero pin cursor = false
allowlist_from (suc fuel) pin cursor = elim (strtol (skip_gap cursor)) [
  | none ↦
      let later = allowlist_from fuel pin (drop_entry (skip_gap cursor)) in
      if is_empty (skip_gap cursor) then false else later
  | some (value, rest) ↦
      let later = allowlist_from fuel pin rest in if eq_ℤ value pin then true else later
]

unfoldable pub pin_in_allowlist : ℤ → Bytes → Bool
unfolding allowlist_from
pin_in_allowlist pin csv = allowlist_from (suc (length csv)) pin csv

abbrev pub between : ℕ → ℕ → ℤ → Bool
between low high pin = leb_ℤ (pos low) pin && leb_ℤ pin (pos high)

-- `GPIO_IS_VALID_GPIO` comes from the SDK's driver/gpio.h.
module _ (gpio_is_valid : ℤ → Bool) where
  unfoldable pub pin_is_allowed_impl : ℤ → Bytes → ℕ → ℕ → Bool → Bool → Bool
  pin_is_allowed_impl pin csv min_pin max_pin block_flash block_usb =
      if ltb_ℤ pin (pos 0)
      then false
      else if block_flash && between 6 11 pin
      then false
      else if block_usb && (eq_ℤ pin (pos 19) || eq_ℤ pin (pos 20))
      then false
      else if not (if is_empty csv then between min_pin max_pin pin else pin_in_allowlist pin csv)
      then false
      else gpio_is_valid pin

  unfoldable pub pin_is_allowed : Target → ℤ → Bool
  unfolding pin_is_allowed_impl
  pin_is_allowed esp32 pin =
      pin_is_allowed_impl pin gpio_allowed_csv gpio_min_pin gpio_max_pin true false
  pin_is_allowed esp32s3 pin =
      pin_is_allowed_impl pin gpio_allowed_csv gpio_min_pin gpio_max_pin false true
  pin_is_allowed other pin =
      pin_is_allowed_impl pin gpio_allowed_csv gpio_min_pin gpio_max_pin false false

-- Whether a hint is written.
unfoldable pub pin_forbidden_hint : Target → ℤ → Bool
pin_forbidden_hint esp32 pin = between 6 11 pin
pin_forbidden_hint esp32s3 pin = eq_ℤ pin (pos 19) || eq_ℤ pin (pos 20)
pin_forbidden_hint other pin = false
