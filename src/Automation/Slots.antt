-- ===== src/Automation/Slots.antt =====
-- Tables of slots that are used or not: what a write at the first free slot, or at the first used slot
-- that passes a test, makes of the list of those used.
use esp32_agent_mesh.Prelude.{
  Bool-cases, length, get_elem?, set, All, select, get_elem?-append, set-append, find_index,
  find_index_split, ℕ, ◌≡◌, refl, sym, ap, ap₂, ◌∙◌, inl, inr, Bool, true, false, not, ◌&&◌, none,
  some, List, [], ◌∷◌, ◌++◌, arith,
}

module _ {A : Type 0} (used : A → Bool) where
  select-append : (xs ys : List A) → select used (xs ++ ys) ≡ select used xs ++ select used ys
  select-append [] ys = refl
  select-append (x ∷ xs) ys = elim (Bool-cases (used x)) [
    | inl e ↦ rw (e, select-append xs ys)
    | inr e ↦ rw (e, select-append xs ys)
  ]

  select_used : (x : A) (xs : List A) → used x ≡ true → select used (x ∷ xs) ≡ x ∷ select used xs
  select_used x xs e = rw e

  select_unused : (x : A) (xs : List A) → used x ≡ false → select used (x ∷ xs) ≡ select used xs
  select_unused x xs e = rw e

  middle :
      (front rest : List A) (x : A)
      → used x ≡ true
      → select used (front ++ x ∷ rest) ≡ select used front ++ x ∷ select used rest
  middle front rest x e =
      select-append front (x ∷ rest) ∙ ap (λ ys. select used front ++ ys) (select_used x rest e)

  no_middle :
      (front rest : List A) (x : A)
      → used x ≡ false
      → select used (front ++ x ∷ rest) ≡ select used front ++ select used rest
  no_middle front rest x e =
      select-append front (x ∷ rest) ∙ ap (λ ys. select used front ++ ys) (select_unused x rest e)

  -- The list `after` is the list `before` with `v` put in somewhere.
  pub record IsAdded (v : A) (before after : List A) : Type 0 where
    pub front : List A
    pub rest : List A
    pub was : before ≡ front ++ rest
    pub becomes : after ≡ front ++ v ∷ rest

  abbrev pub Write : List A → ℕ → Type 0
  Write xs i =
      ((v : A) → used v ≡ true → IsAdded v (select used xs) (select used (set xs i v)))
      × ((v : A) → used v ≡ false → select used (set xs i v) ≡ select used xs)

  pub free-Write : (xs : List A) (i : ℕ) → find_index (λ x. not (used x)) xs ≡ some i → Write xs i
  free-Write xs i h = elim (find_index_split (λ x. not (used x)) xs) [
    | inl (n, all) ↦ absurd (cc (h, n))
    | inr (front, a, rest, split, free, before, at) ↦
        let place : i ≡ length front = ground (arith, h, at) in
        let unused : used a ≡ false = ground (arith, free) in
        let set_is = λ (v : A).
          ap₂ (λ (ys : List A) (j : ℕ). set ys j v) split place ∙ set-append front rest a v in
        let was = ap (select used) split ∙ no_middle front rest a unused in
        (
          λ v u. record {
            front = select used front;
            rest = select used rest;
            was = was;
            becomes = ap (select used) (set_is v) ∙ middle front rest v u;
          },
          λ v u. ap (select used) (set_is v) ∙ (no_middle front rest v u ∙ sym was),
        )
  ]

  -- The list `after` is the list `before` without the first element that passes the test.
  pub record IsRemoved (test : A → Bool) (before after : List A) : Type 0 where
    pub front : List A
    pub gone : A
    pub rest : List A
    pub was : before ≡ front ++ gone ∷ rest
    pub becomes : after ≡ front ++ rest
    pub passes : test gone ≡ true
    pub first : All (λ x. test x ≡ false) front

  first_used :
      (test : A → Bool) (xs : List A)
      → All (λ x. (used x && test x) ≡ false) xs
      → All (λ x. test x ≡ false) (select used xs)
  first_used test [] h = tt
  first_used test (x ∷ xs) h = elim (Bool-cases (used x)) [
    | inl e ↦ rw e (ground (arith, h.0, e), first_used test xs h.1)
    | inr e ↦ rw e (first_used test xs h.1)
  ]

  pub used-IsRemoved :
      (test : A → Bool) (xs : List A) (i : ℕ) (clear : A → A)
      → ((x : A) → used (clear x) ≡ false)
      → find_index (λ x. used x && test x) xs ≡ some i
      → (a : A) × (get_elem? xs i ≡ some a)
        × IsRemoved test (select used xs) (select used (set xs i (clear a)))
  used-IsRemoved test xs i clear c h = elim (find_index_split (λ x. used x && test x) xs) [
    | inl (n, all) ↦ absurd (cc (h, n))
    | inr (front, a, rest, split, hit, before, at) ↦
        let place : i ≡ length front = ground (arith, h, at) in
        let is_used : used a ≡ true = ground (arith, hit) in
        let set_is =
          ap₂ (λ (ys : List A) (j : ℕ). set ys j (clear a)) split place
          ∙ set-append front rest a (clear a) in
        (
          a,
          ap₂ (λ (ys : List A) (j : ℕ). get_elem? ys j) split place ∙ get_elem?-append front rest a,
          record {
            front = select used front;
            gone = a;
            rest = select used rest;
            was = ap (select used) split ∙ middle front rest a is_used;
            becomes = ap (select used) set_is ∙ no_middle front rest (clear a) (c a);
            passes = ground (arith, hit);
            first = first_used test front before;
          },
        )
  ]

  pub none-All :
      (test : A → Bool) (xs : List A)
      → find_index (λ x. used x && test x) xs ≡ none
      → All (λ x. test x ≡ false) (select used xs)
  none-All test xs h = elim (find_index_split (λ x. used x && test x) xs) [
    | inl (n, all) ↦ first_used test xs all
    | inr (front, a, rest, split, hit, before, at) ↦ absurd (cc (h, at))
  ]
