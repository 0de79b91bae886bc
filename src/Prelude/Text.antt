-- ===== src/Prelude/Text.antt =====
-- C strings as lists of bytes without the final NUL.
use Prim.Native.Char.{code}
use Prim.Native.Nat.{ℕ, zero, suc, ◌+◌, ◌-◌, ◌/◌, ◌%◌, ◌^◌, ◌<◌}
use Prim.Native.String.{String}
use mathlib.Core.Bool.{Bool, true, false, ◌&&◌, ◌||◌}
use mathlib.Core.List.{List, [], ◌∷◌}
use mathlib.Core.Option.{Option, none, some}
use mathlib.Core.Logic.{◌↔◌}
use mathlib.Core.Path.{◌≡◌, refl}
use native.Mathlib.Omega.{arith}
use package.esp32_agent_mesh.Prelude.Tests.{ltb, leb, ◌==◌, if◌then◌else◌}
use package.esp32_agent_mesh.Prelude.Lists.{length, take, length-take, take_all}

abbrev pub Bytes : Type 0
Bytes = List ℕ

-- The bytes of an ASCII literal.
abbrev pub codes : String → Bytes
codes String.[] = []
codes (String.◌∷◌ c s) = code c ∷ codes s

-- `strcmp(a, b) == 0`
unfoldable pub str_eq : Bytes → Bytes → Bool
str_eq [] [] = true
str_eq [] (y ∷ ys) = false
str_eq (x ∷ xs) [] = false
str_eq (x ∷ xs) (y ∷ ys) = x == y && str_eq xs ys

pub str_eq_iff : (a b : Bytes) → (str_eq a b ≡ true) ↔ (a ≡ b)
unfolding str_eq
str_eq_iff [] [] = ground arith
str_eq_iff [] (y ∷ ys) = ground arith
str_eq_iff (x ∷ xs) [] = ground arith
str_eq_iff (x ∷ xs) (y ∷ ys) = ground (arith, str_eq_iff xs ys)

pub str_eq_refl : (a : Bytes) → str_eq a a ≡ true
str_eq_refl a = (str_eq_iff a a).1 refl

-- `tolower` of an ASCII letter.
abbrev pub lower : ℕ → ℕ
lower c = if leb b'A' c && leb c b'Z' then c + 32 else c

-- Equality of names up to the case of letters.
unfoldable pub same_name : Bytes → Bytes → Bool
same_name [] [] = true
same_name [] (y ∷ ys) = false
same_name (x ∷ xs) [] = false
same_name (x ∷ xs) (y ∷ ys) = lower x == lower y && same_name xs ys

pub same_name_refl : (a : Bytes) → same_name a a ≡ true
unfolding same_name
same_name_refl [] = refl
same_name_refl (x ∷ xs) =
    let same : (lower x == lower x) ≡ true = ground arith in rw (same, same_name_refl xs) refl

-- `strncmp(s, prefix, strlen(prefix)) == 0`
unfoldable pub has_prefix : Bytes → Bytes → Bool
has_prefix [] s = true
has_prefix (p ∷ ps) [] = false
has_prefix (p ∷ ps) (c ∷ cs) = c == p && has_prefix ps cs

-- What `snprintf(dst, size, "%s", src)`, or `strncpy(dst, src, size - 1)` into a zeroed buffer,
-- leaves in `dst`.
abbrev pub copy_field : ℕ → Bytes → Bytes
copy_field size src = take (size - 1) src

-- `s[0] == '\0'`
abbrev pub is_empty : Bytes → Bool
is_empty [] = true
is_empty (x ∷ xs) = false

pub copy_field_fits : (size : ℕ) (src : Bytes) → 0 < size → length (copy_field size src) < size
copy_field_fits size src h = omega (arith, length-take (size - 1) src)

pub copy_field_whole : (size : ℕ) (src : Bytes) → length src < size → copy_field size src ≡ src
copy_field_whole size src h = take_all (size - 1) src (omega arith)

-- `isspace`
abbrev pub is_space : ℕ → Bool
is_space c = c == b' ' || (leb 9 c && leb c 13)

-- Past the leading white space.
unfoldable pub skip_spaces : Bytes → Bytes
skip_spaces [] = []
skip_spaces (c ∷ cs) = if is_space c then skip_spaces cs else c ∷ cs

-- `strstr`: the text from the first place on at which the wanted one stands.
unfoldable pub find_text : Bytes → Bytes → Option Bytes
find_text wanted [] = if has_prefix wanted [] then some [] else none
find_text wanted (c ∷ cs) =
    if has_prefix wanted (c ∷ cs) then some (c ∷ cs) else find_text wanted cs

-- `%u`: the digits of a number before those that are there. A `uint32_t` has ten at most.
unfoldable pub digits : ℕ → ℕ → Bytes → Bytes
digits zero n acc = acc
digits (suc fuel) n acc =
    let rest = digits fuel (n / 10) ((48 + n % 10) ∷ acc) in
    if ltb n 10 then (48 + n) ∷ acc else rest

-- `s ? s : word`
abbrev pub or_word : Bytes → Option Bytes → Bytes
or_word word none = word
or_word word (some s) = s

unfoldable pub decimal : ℕ → Bytes
unfolding digits
decimal n = digits 10 n []

-- The lowest hexadecimal digits, as many as are asked for: `%016llx` of 64 bits with sixteen.
abbrev pub hex_digit : ℕ → ℕ
hex_digit d = if ltb d 10 then 48 + d else 87 + d

unfoldable pub hex_digits : ℕ → ℕ → Bytes
hex_digits zero n = []
hex_digits (suc k) n = hex_digit (n / 16 ^ k % 16) ∷ hex_digits k n
