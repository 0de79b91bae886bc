-- ===== src/Agent/Prefix.antt =====
-- main/agent/agent_loop.c: a text is cut after the last of its whole characters.
use esp32_agent_mesh.Prelude.{
  ltb, leb, ◌==◌, Bool-cases, length, take, drop, length-take, length-drop, take-drop, Bytes, ℕ,
  zero, suc, ◌+◌, ◌-◌, ◌≤◌, ◌<◌, min, ◌≡◌, refl, sym, ap, subst, ◌∙◌, inl, inr, true, not, ◌&&◌, [],
  ◌∷◌, ◌++◌, arith,
}
use esp32_agent_mesh.Agent.Text.{
  utf8_expected_len, all_continue, starts_whole, first_len, whole_prefix_len, utf8_safe_prefix_len,
}

abbrev pub IsTail : ℕ → Type 0
IsTail c = (128 ≤ c) × (c < 192)

-- The bytes of a character: a first byte, whose range says how many bytes follow it.
pub data IsCharacter : Bytes → Type 0 where
  one_byte : (a : ℕ) → a < 128 → IsCharacter (a ∷ [])
  two_bytes : (a b : ℕ) → 192 ≤ a → a < 224 → IsTail b → IsCharacter (a ∷ b ∷ [])
  three_bytes : (a b c : ℕ) → 224 ≤ a → a < 240 → IsTail b → IsTail c → IsCharacter (a ∷ b ∷ c ∷ [])
  four_bytes :
      (a b c d : ℕ)
      → 240 ≤ a
      → a < 248
      → IsTail b
      → IsTail c
      → IsTail d
      → IsCharacter (a ∷ b ∷ c ∷ d ∷ [])

-- So many bytes at the start of a text are whole characters.
pub data IsWholeUpTo : Bytes → ℕ → Type 0 where
  nowhere : (s : Bytes) → IsWholeUpTo s 0
  after :
      (s c : Bytes) (k : ℕ)
      → IsCharacter c
      → take (length c) s ≡ c
      → IsWholeUpTo (drop (length c) s) k
      → IsWholeUpTo s (length c + k)

-- What the code reads of a character at the start of a text.
record StartsWith (s c : Bytes) : Type 0 where
  whole : starts_whole s ≡ true
  long : first_len s ≡ length c
  some_bytes : 0 < length c
  fits : length c ≤ length s

character-StartsWith : (c s : Bytes) → IsCharacter c → StartsWith (c ++ s) c
unfolding starts_whole utf8_expected_len
character-StartsWith _ s (one_byte a h) = record {
  whole = ground (arith, h);
  long = ground (arith, h);
  some_bytes = omega arith;
  fits = omega arith;
}
character-StartsWith _ s (two_bytes a b h l t) =
    let need : utf8_expected_len a ≡ 2 = ground (arith, h, l) in
    record {
      whole = rw need (ground (arith, t.0, t.1));
      long = need;
      some_bytes = omega arith;
      fits = omega arith;
    }
character-StartsWith _ s (three_bytes a b c h l t u) =
    let need : utf8_expected_len a ≡ 3 = ground (arith, h, l) in
    record {
      whole = rw need (ground (arith, t.0, t.1, u.0, u.1));
      long = need;
      some_bytes = omega arith;
      fits = omega arith;
    }
character-StartsWith _ s (four_bytes a b c d h l t u v) =
    let need : utf8_expected_len a ≡ 4 = ground (arith, h, l) in
    record {
      whole = rw need (ground (arith, t.0, t.1, u.0, u.1, v.0, v.1));
      long = need;
      some_bytes = omega arith;
      fits = omega arith;
    }

prefix-StartsWith : (s c : Bytes) → IsCharacter c → take (length c) s ≡ c → StartsWith s c
prefix-StartsWith s c is at =
    subst (λ x. StartsWith x c) (ap (λ p. p ++ drop (length c) s) (sym at) ∙ take-drop (length c) s)
      (character-StartsWith c (drop (length c) s) is)

-- A first byte that needs so many bytes in all, with its range.
data Lead (a : ℕ) : ℕ → Type 0 where
  lone : a < 128 → Lead a 1
  of_two : 192 ≤ a → a < 224 → Lead a 2
  of_three : 224 ≤ a → a < 240 → Lead a 3
  of_four : 240 ≤ a → a < 248 → Lead a 4
  no_lead : Lead a 0

utf8_expected_len-Lead : (a : ℕ) → Lead a (utf8_expected_len a)
unfolding utf8_expected_len
utf8_expected_len-Lead a = elim (Bool-cases (ltb a 128)) [
  | inl e ↦ rw e (lone (ground (arith, e)))
  | inr e ↦ elim (Bool-cases (leb 192 a && ltb a 224)) [
    | inl f ↦ rw (e, f) (of_two (ground (arith, f)) (ground (arith, f)))
    | inr f ↦ elim (Bool-cases (leb 224 a && ltb a 240)) [
      | inl g ↦ rw (e, f, g) (of_three (ground (arith, g)) (ground (arith, g)))
      | inr g ↦ elim (Bool-cases (leb 240 a && ltb a 248)) [
        | inl h ↦ rw (e, f, g, h) (of_four (ground (arith, h)) (ground (arith, h)))
        | inr h ↦ rw (e, f, g, h) no_lead
      ]
    ]
  ]
]

-- The first `need` bytes are a character.
abbrev IsFirst : ℕ → Bytes → Type 0
IsFirst need s = IsCharacter (take need s) × (length (take need s) ≡ need)

Lead-IsFirst :
    (a need : ℕ) (s : Bytes)
    → Lead a need
    → (not (need == 0) && leb need (suc (length s)) && all_continue (take (need - 1) s)) ≡ true
    → IsFirst need (a ∷ s)
Lead-IsFirst a _ s (lone h) w = (one_byte a h, refl)
Lead-IsFirst a _ [] (of_two h l) w = absurd (ground (arith, w))
Lead-IsFirst a _ (b ∷ s) (of_two h l) w = (two_bytes a b h l (ground (arith, w)), refl)
Lead-IsFirst a _ [] (of_three h l) w = absurd (ground (arith, w))
Lead-IsFirst a _ (b ∷ []) (of_three h l) w = absurd (ground (arith, w))
Lead-IsFirst a _ (b ∷ c ∷ s) (of_three h l) w =
    (three_bytes a b c h l (ground (arith, w)) (ground (arith, w)), refl)
Lead-IsFirst a _ [] (of_four h l) w = absurd (ground (arith, w))
Lead-IsFirst a _ (b ∷ []) (of_four h l) w = absurd (ground (arith, w))
Lead-IsFirst a _ (b ∷ c ∷ []) (of_four h l) w = absurd (ground (arith, w))
Lead-IsFirst a _ (b ∷ c ∷ d ∷ s) (of_four h l) w =
    (four_bytes a b c d h l (ground (arith, w)) (ground (arith, w)) (ground (arith, w)), refl)
Lead-IsFirst a _ s no_lead w = absurd (cc w)

starts_whole-IsFirst : (s : Bytes) → starts_whole s ≡ true → IsFirst (first_len s) s
unfolding starts_whole
starts_whole-IsFirst [] h = absurd (cc h)
starts_whole-IsFirst (c ∷ cs) h =
    Lead-IsFirst c (utf8_expected_len c) cs (utf8_expected_len-Lead c) h

whole_after : (s : Bytes) (k n : ℕ) → IsFirst n s → IsWholeUpTo (drop n s) k → IsWholeUpTo s (n + k)
whole_after s k n (is, long) r =
    let c = take n s in
    subst (λ m. IsWholeUpTo s (m + k)) long
      (after s c k is (ap (λ m. take m s) long)
        (subst (λ m. IsWholeUpTo (drop m s) k) (sym long) r))

whole_prefix_len-IsWholeUpTo : (fuel : ℕ) (s : Bytes) → IsWholeUpTo s (whole_prefix_len fuel s)
unfolding whole_prefix_len
whole_prefix_len-IsWholeUpTo zero s = nowhere s
whole_prefix_len-IsWholeUpTo (suc fuel) s = elim (Bool-cases (starts_whole s)) [
  | inl h ↦ rw h (
      whole_after s _ (first_len s) (starts_whole-IsFirst s h)
        (whole_prefix_len-IsWholeUpTo fuel (drop (first_len s) s)))
  | inr h ↦ rw h (nowhere s)
]

whole_prefix_len-most :
    (fuel : ℕ) (s : Bytes) (k : ℕ) → length s ≤ fuel → IsWholeUpTo s k → k ≤ whole_prefix_len fuel s
unfolding whole_prefix_len
whole_prefix_len-most fuel s _ h (nowhere _) = omega arith
whole_prefix_len-most zero s _ h (after _ c k is at r) =
    let first = prefix-StartsWith s c is at in
    absurd (omega (arith, h, first.some_bytes, first.fits))
whole_prefix_len-most (suc fuel) s _ h (after _ c k is at r) =
    let first = prefix-StartsWith s c is at in
    let shorter : length (drop (length c) s) ≤ fuel =
      omega (arith, h, first.some_bytes, length-drop (length c) s) in
    let rest = whole_prefix_len-most fuel (drop (length c) s) k shorter r in
    rw (first.whole, first.long) (omega (arith, rest))

IsWholeUpTo-length : (s : Bytes) (k : ℕ) → IsWholeUpTo s k → k ≤ length s
IsWholeUpTo-length s _ (nowhere _) = omega arith
IsWholeUpTo-length s _ (after _ c k is at r) = omega (
  arith,
  (prefix-StartsWith s c is at).fits,
  IsWholeUpTo-length (drop (length c) s) k r,
  length-drop (length c) s,
)

-- Of the first bytes of a text, the function counts those up to the end of the last whole character:
-- what it counts is whole characters, each a first byte and as many bytes from 128 to 191 as the
-- range of the first byte asks for; it lies within the bytes; and no longer start of them is whole
-- characters.
pub utf8_safe_prefix_len-most :
    (buf : Bytes) (len : ℕ)
    → IsWholeUpTo (take len buf) (utf8_safe_prefix_len buf len)
      × (utf8_safe_prefix_len buf len ≤ min len (length buf))
      × ((k : ℕ) → IsWholeUpTo (take len buf) k → k ≤ utf8_safe_prefix_len buf len)
unfolding utf8_safe_prefix_len
utf8_safe_prefix_len-most buf len =
    let whole = whole_prefix_len-IsWholeUpTo len (take len buf) in
    (
      whole,
      omega (arith, IsWholeUpTo-length (take len buf) _ whole, length-take len buf),
      λ k w. whole_prefix_len-most len (take len buf) k (omega (arith, length-take len buf)) w,
    )
