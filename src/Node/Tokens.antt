-- ===== src/Node/Tokens.antt =====
-- main/node/node_profile.c: `token_list_contains` finds a token exactly when it is one of the fields
-- between the separators, with the spaces round it taken off.
use esp32_agent_mesh.Prelude.{
  ◌==◌, if◌then◌else◌, Bool-cases, length, Bytes, str_eq, str_eq_iff, ℕ, zero, suc, ◌≤◌, ◌<◌, ◌≡◌,
  refl, sym, ◌∙◌, ◌≢◌, inl, inr, Bool, true, false, ◌||◌, List, [], ◌∷◌, arith,
}
use esp32_agent_mesh.Node.Profile.{
  is_separator, is_skipped, skip_separators, scan_token, trim_end, token_matches, contains_from,
  token_list_contains,
}

extend_head : ℕ → List Bytes → List Bytes
extend_head c [] = (c ∷ []) ∷ []
extend_head c (f ∷ fs) = (c ∷ f) ∷ fs

-- The fields between separators.
unfoldable pub split : Bytes → List Bytes
unfolding extend_head
split [] = [] ∷ []
split (c ∷ cs) = if is_separator c then [] ∷ split cs else extend_head c (split cs)

unfoldable pub trim_start : Bytes → Bytes
trim_start [] = []
trim_start (c ∷ cs) = if c == b' ' then trim_start cs else c ∷ cs

unfoldable pub any_field : Bytes → List Bytes → Bool
any_field token [] = false
any_field token (f ∷ fs) = str_eq (trim_end (trim_start f)) token || any_field token fs

-- Some field of the list is the token.
abbrev pub has_field : Bytes → Bytes → Bool
has_field token list = any_field token (split list)

split-ne-nil : (s : Bytes) → split s ≢ []
unfolding split
split-ne-nil [] h = cc h
split-ne-nil (c ∷ cs) h =
    elim (split cs) as (λ fs. (if is_separator c then [] ∷ fs else extend_head c fs) ≡ [] → ⊥) [
      | [] ↦ λ e. ground (arith, e)
      | f ∷ fs ↦ λ e. ground (arith, e)
    ]
      h

rest_fields : Bytes → List Bytes
rest_fields [] = []
rest_fields (c ∷ cs) = split cs

-- Splitting takes off the field that `scan_token` reads.
split-scan_token : (s : Bytes) → split s ≡ (scan_token s).0 ∷ rest_fields (scan_token s).1
unfolding split scan_token rest_fields
split-scan_token [] = refl
split-scan_token (c ∷ cs) = elim (Bool-cases (is_separator c)) [
  | inl sep ↦ rw sep
  | inr other ↦ rw other (rw (split-scan_token cs))
]

module _ (token : Bytes) (named : token ≢ []) where
  empty_field : str_eq (trim_end (trim_start [])) token ≡ false
  unfolding trim_end trim_start
  empty_field = ground (arith, str_eq_iff [] token, named)

  -- A separator, or a space in front of a field, makes no difference.
  has_field_skip :
      (c : ℕ) (cs : Bytes) → is_skipped c ≡ true → has_field token (c ∷ cs) ≡ has_field token cs
  unfolding split any_field trim_start str_eq
  has_field_skip c cs h = elim (Bool-cases (is_separator c)) [
    | inl sep ↦ rw (sep, empty_field)
    | inr other ↦ rw other (head_space c (split cs) (split-ne-nil cs) (ground (arith, h, other)))
  ]
    where
      head_space :
          (c : ℕ) (fs : List Bytes)
          → fs ≢ []
          → (c == b' ') ≡ true
          → any_field token (extend_head c fs) ≡ any_field token fs
      head_space c [] ne e = absurd (ne refl)
      head_space c (f ∷ fs) ne e = rw (e, trim_start)

  skip_lem : (s : Bytes) → has_field token (skip_separators s) ≡ has_field token s
  unfolding skip_separators
  skip_lem [] = refl
  skip_lem (c ∷ cs) = elim (Bool-cases (is_skipped c)) [
    | inl skipped ↦ rw skipped (skip_lem cs ∙ sym (has_field_skip c cs skipped))
    | inr kept ↦ rw kept
  ]

  nothing_left : has_field token [] ≡ false
  unfolding split any_field
  nothing_left = rw empty_field

  rest_lem :
      (s : Bytes)
      → has_field token (scan_token s).1 ≡ any_field token (rest_fields (scan_token s).1)
  unfolding scan_token rest_fields any_field
  rest_lem [] = nothing_left
  rest_lem (c ∷ cs) = elim (Bool-cases (is_separator c)) [
    | inl sep ↦ rw sep (has_field_skip c cs (ground (arith, sep)))
    | inr other ↦ rw other (rest_lem cs)
  ]

  scan_lem :
      (s : Bytes)
      → has_field token s ≡ (
          str_eq (trim_end (trim_start (scan_token s).0)) token || has_field token (scan_token s).1)
  unfolding any_field
  scan_lem s = rw (split-scan_token s, rest_lem s)

  -- Behind `skip_separators` the token begins with no space.
  skipped_start :
      (s : Bytes)
      → trim_start (scan_token (skip_separators s)).0 ≡ (scan_token (skip_separators s)).0
  unfolding skip_separators scan_token trim_start
  skipped_start [] = refl
  skipped_start (c ∷ cs) = elim (Bool-cases (is_skipped c)) [
    | inl skipped ↦ rw skipped (skipped_start cs)
    | inr kept ↦ rw kept (ground (arith, kept))
  ]

  token_matches_lem : (word : Bytes) → token_matches token word ≡ str_eq (trim_end word) token
  unfolding token_matches str_eq
  token_matches_lem word = ground (arith, named)

  scan_shorter : (s : Bytes) → length (scan_token s).1 ≤ length s
  unfolding scan_token
  scan_shorter [] = omega arith
  scan_shorter (c ∷ cs) = ground (arith, scan_shorter cs)

  skip_shorter : (s : Bytes) → length (skip_separators s) ≤ length s
  unfolding skip_separators
  skip_shorter [] = omega arith
  skip_shorter (c ∷ cs) = ground (arith, skip_shorter cs)

  -- Each round reads something.
  round_shorter :
      (c : ℕ) (cs : Bytes) → length (scan_token (skip_separators (c ∷ cs))).1 ≤ length cs
  unfolding scan_token skip_separators
  round_shorter c cs = elim (Bool-cases (is_skipped c)) [
    | inl skipped ↦ rw skipped (omega (arith, skip_shorter cs, scan_shorter (skip_separators cs)))
    | inr kept ↦ rw kept (ground (arith, kept, scan_shorter cs))
  ]

  contains_from_lem :
      (fuel : ℕ) (list : Bytes)
      → length list < fuel
      → contains_from fuel token list ≡ has_field token list
  unfolding contains_from
  contains_from_lem zero list h = absurd (omega arith)
  contains_from_lem (suc fuel) [] h = sym nothing_left
  contains_from_lem (suc fuel) (c ∷ cs) h =
      let s = skip_separators (c ∷ cs) in
      let later = contains_from_lem fuel (scan_token s).1 (omega (arith, round_shorter c cs)) in
      rw
        (
          ← skip_lem (c ∷ cs),
          scan_lem s,
          skipped_start (c ∷ cs),
          token_matches_lem (scan_token s).0,
          later,
        )
        (ground arith)

-- For a token that is not empty, `token_list_contains` holds exactly if the token is a field of
-- the list; the loop's fuel suffices.
pub token_list_contains-has_field :
    (list token : Bytes) → token ≢ [] → token_list_contains list token ≡ has_field token list
unfolding token_list_contains
token_list_contains-has_field list [] named = absurd (named refl)
token_list_contains-has_field list (c ∷ cs) named =
    contains_from_lem (c ∷ cs) named (suc (length list)) list (omega arith)
