-- ===== src/Gpio/Allowlist.antt =====
-- main/tools/gpio_policy.c: on a list of numerals with commas between them, `pin_in_allowlist` finds
-- exactly the pins that the list names.
use esp32_agent_mesh.Prelude.{
  if◌then◌else◌, length, All, length-append, Bytes, skip_spaces, ℕ, zero, suc, ◌≤◌, ◌<◌, ◌≡◌, refl,
  ◌∙◌, ◌≢◌, Bool, true, false, List, [], ◌∷◌, ◌++◌, arith,
}
use esp32_agent_mesh.Prelude.Int.{ℤ, pos, eq_ℤ}
use esp32_agent_mesh.Gpio.Strtol.{strtol, IsNumeral, value_from, Ends, strtol-numeral}
use esp32_agent_mesh.Gpio.Policy.{skip_gap, allowlist_from, pin_in_allowlist}

-- `,w1,w2,…`
abbrev tail_text : List Bytes → Bytes
tail_text [] = []
tail_text (w ∷ ws) = b',' ∷ (w ++ tail_text ws)

-- `w1,w2,…`
abbrev pub join : List Bytes → Bytes
join [] = []
join (w ∷ ws) = w ++ tail_text ws

abbrev pub names : ℤ → List Bytes → Bool
names pin [] = false
names pin (w ∷ ws) = if eq_ℤ (pos (value_from 0 w)) pin then true else names pin ws

-- A numeral that fits a `long`.
abbrev pub IsEntry : Bytes → Type 0
IsEntry w = IsNumeral w × (value_from 0 w ≤ 2147483647)

tail_text-Ends : (ws : List Bytes) → Ends (tail_text ws)
tail_text-Ends [] = tt
tail_text-Ends (w ∷ ws) = refl

skip_gap-numeral : (w rest : Bytes) → IsNumeral w → skip_gap (w ++ rest) ≡ w ++ rest
unfolding skip_gap
skip_gap-numeral [] rest n = absurd (n.0 refl)
skip_gap-numeral (c ∷ cs) rest n = ground (arith, n.1.0)

allowlist_entry :
    (fuel : ℕ) (pin : ℤ) (cursor w rest : Bytes)
    → IsEntry w
    → Ends rest
    → skip_gap cursor ≡ w ++ rest
    → allowlist_from (suc fuel) pin cursor
      ≡ (if eq_ℤ (pos (value_from 0 w)) pin then true else allowlist_from fuel pin rest)
unfolding allowlist_from
allowlist_entry fuel pin cursor w rest n e at =
    rw (at, strtol-numeral w rest n.0 e n.1, allowlist_from)

allowlist_tail :
    (fuel : ℕ) (pin : ℤ) (ws : List Bytes)
    → All IsEntry ws
    → length ws < fuel
    → allowlist_from fuel pin (tail_text ws) ≡ names pin ws
allowlist_tail zero pin ws a h = absurd (omega arith)
allowlist_tail (suc fuel) pin [] a h = unfold allowlist_from strtol skip_spaces in refl
allowlist_tail (suc fuel) pin (w ∷ ws) a h =
    allowlist_entry fuel pin (tail_text (w ∷ ws)) w (tail_text ws) a.0 (tail_text-Ends ws)
      (unfold skip_gap in skip_gap-numeral w (tail_text ws) a.0.0)
    ∙ rw (allowlist_tail fuel pin ws a.1 (omega arith))

length-tail_text : (ws : List Bytes) → length ws ≤ length (tail_text ws)
length-tail_text [] = omega arith
length-tail_text (w ∷ ws) = omega (arith, length-append w (tail_text ws), length-tail_text ws)

length-join : (w : Bytes) (ws : List Bytes) → w ≢ [] → length ws < length (w ++ tail_text ws)
length-join [] ws ne = absurd (ne refl)
length-join (c ∷ cs) ws ne = omega (arith, length-append cs (tail_text ws), length-tail_text ws)

-- On a list of numerals with commas between them, the pins found are those that the list names; the
-- loop's fuel suffices.
pub pin_in_allowlist-join :
    (pin : ℤ) (ws : List Bytes) → All IsEntry ws → pin_in_allowlist pin (join ws) ≡ names pin ws
unfolding pin_in_allowlist
pin_in_allowlist-join pin [] a = unfold strtol skip_spaces in refl
pin_in_allowlist-join pin (w ∷ ws) a =
    allowlist_entry (length (join (w ∷ ws))) pin (join (w ∷ ws)) w (tail_text ws) a.0
      (tail_text-Ends ws) (skip_gap-numeral w (tail_text ws) a.0.0)
    ∙ rw (allowlist_tail (length (join (w ∷ ws))) pin ws a.1 (length-join w ws a.0.0.0))
