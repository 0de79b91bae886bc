-- ===== src/Gpio/Strtol.antt =====
-- The C library's `strtol(s, &end, 10)` with the 32-bit `long` of the target.
use esp32_agent_mesh.Prelude.{
  ltb, leb, ◌==◌, if◌then◌else◌, length, All, Bytes, skip_spaces, ℕ, zero, suc, ◌+◌, ◌-◌, ◌*◌, ◌≤◌,
  ◌≡◌, refl, ◌≢◌, Bool, true, false, ◌&&◌, Option, none, some, [], ◌∷◌, ◌++◌, arith,
}
use esp32_agent_mesh.Prelude.Int.{ℤ, pos, negsuc}

abbrev long_max : ℕ
long_max = 2147483647

abbrev pub is_digit : ℕ → Bool
is_digit c = leb b'0' c && leb c b'9'

-- The number that the leading digits spell, on top of `acc`, and the rest.
unfoldable pub read_digits : ℕ → Bytes → ℕ × Bytes
read_digits acc [] = (acc, [])
read_digits acc (c ∷ cs) =
    let more = read_digits (acc * 10 + (c - b'0')) cs in if is_digit c then more else (acc, c ∷ cs)

abbrev clamp_pos : ℕ → ℤ
clamp_pos n = if ltb long_max n then pos long_max else pos n

-- -n, and LONG_MIN below it.
abbrev clamp_neg : ℕ → ℤ
clamp_neg zero = pos 0
clamp_neg (suc n) = if ltb long_max n then negsuc long_max else negsuc n

-- The value and the rest behind it; `none` where no digit stands, so that `end == s`.
read_signed : (ℕ → ℤ) → Bytes → Option (ℤ × Bytes)
read_signed clamp [] = none
read_signed clamp (c ∷ cs) =
    if is_digit c then some (clamp (read_digits 0 (c ∷ cs)).0, (read_digits 0 (c ∷ cs)).1) else none

read_sign : Bytes → Option (ℤ × Bytes)
unfolding read_signed
read_sign [] = none
read_sign (c ∷ cs) =
    if c == b'-'
    then read_signed clamp_neg cs
    else if c == b'+'
    then read_signed clamp_pos cs
    else read_signed clamp_pos (c ∷ cs)

unfoldable pub strtol : Bytes → Option (ℤ × Bytes)
unfolding read_sign
strtol s = read_sign (skip_spaces s)

-- A number written in digits alone.
abbrev pub IsNumeral : Bytes → Type 0
IsNumeral w = (w ≢ []) × All (λ c. is_digit c ≡ true) w

abbrev pub value_from : ℕ → Bytes → ℕ
value_from acc [] = acc
value_from acc (c ∷ cs) = value_from (acc * 10 + (c - b'0')) cs

-- What follows a numeral begins with no digit.
abbrev pub Ends : Bytes → Type 0
Ends [] = Unit {0}
Ends (c ∷ cs) = is_digit c ≡ false

read_digits_lem :
    (w rest : Bytes) (acc : ℕ)
    → All (λ c. is_digit c ≡ true) w
    → Ends rest
    → read_digits acc (w ++ rest) ≡ (value_from acc w, rest)
unfolding read_digits
read_digits_lem [] [] acc a e = refl
read_digits_lem [] (c ∷ cs) acc a e = rw e
read_digits_lem (c ∷ cs) rest acc a e =
    rw a.0 (read_digits_lem cs rest (acc * 10 + (c - b'0')) a.1 e)

-- `strtol` reads a numeral that fits a `long`, and stops behind it.
pub strtol-numeral :
    (w rest : Bytes)
    → IsNumeral w
    → Ends rest
    → value_from 0 w ≤ long_max
    → strtol (w ++ rest) ≡ some (pos (value_from 0 w), rest)
unfolding strtol skip_spaces
strtol-numeral [] rest n e h = absurd (n.0 refl)
strtol-numeral (c ∷ cs) rest n e h = ground (arith, n.1.0, read_digits_lem (c ∷ cs) rest 0 n.1 e)

read_digits_shorter : (s : Bytes) (acc : ℕ) → length (read_digits acc s).1 ≤ length s
unfolding read_digits
read_digits_shorter [] acc = omega arith
read_digits_shorter (c ∷ cs) acc = ground (arith, read_digits_shorter cs (acc * 10 + (c - b'0')))
