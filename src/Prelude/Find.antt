-- ===== src/Prelude/Find.antt =====
-- Linear scans of an array for the first element that passes a test.
use Prim.Native.Nat.{ℕ, zero, suc}
use mathlib.Core.Bool.{Bool, true, false}
use mathlib.Core.List.{List, [], ◌∷◌, ◌++◌}
use mathlib.Core.Logic.{◌⊎◌, inl, inr}
use mathlib.Core.Option
use mathlib.Core.Option.{Option, none, some}
use mathlib.Core.Path.{◌≡◌, refl, ap}
use native.Mathlib.Omega.{arith}
use package.esp32_agent_mesh.Prelude.Tests.{if◌then◌else◌, Bool-cases, Option-cases}
use package.esp32_agent_mesh.Prelude.Lists.{length, get_elem?, set, All}

module _ {ℓ} {A : Type ℓ} where
  -- `for (i = 0; i < N; i++) if (test(a[i])) return i;`
  unfoldable pub find_index : (A → Bool) → List A → Option ℕ
  find_index test [] = none
  find_index test (x ∷ xs) = if test x then some 0 else Option.map suc (find_index test xs)

  unfoldable pub find? : (A → Bool) → List A → Option A
  find? test [] = none
  find? test (x ∷ xs) = if test x then some x else find? test xs

  pub find_index_found :
      (test : A → Bool) (xs : List A) (i : ℕ)
      → find_index test xs ≡ some i
      → (a : A) × (get_elem? xs i ≡ some a) × (test a ≡ true) × (find? test xs ≡ some a)
  unfolding find_index find?
  find_index_found test [] i h = absurd (cc h)
  find_index_found test (x ∷ xs) i h = elim (Bool-cases (test x)) [
    | inl hit ↦ (x, ground arith, hit, ground arith)
    | inr miss ↦ elim (Option-cases (find_index test xs)) [
      | inl e ↦ absurd (ground arith)
      | inr (j, e) ↦
          let (a, at, passes, first) = find_index_found test xs j e in
          (a, ground arith, passes, ground arith)
    ]
  ]

  pub find_index-none :
      (test : A → Bool) (xs : List A)
      → find_index test xs ≡ none
      → (i : ℕ) (a : A) → get_elem? xs i ≡ some a
      → test a ≡ false
  unfolding find_index
  find_index-none test [] h i a e = absurd (cc e)
  find_index-none test (x ∷ xs) h zero a e = ground arith
  find_index-none test (x ∷ xs) h (suc i) a e = find_index-none test xs (ground arith) i a e

  pub find?-of_none :
      (test : A → Bool) (xs : List A) → find_index test xs ≡ none → find? test xs ≡ none
  unfolding find_index find?
  find?-of_none test [] h = refl
  find?-of_none test (x ∷ xs) h = elim (Option-cases (find_index test xs)) [
    | inl n ↦ ground (arith, h, find?-of_none test xs n)
    | inr (i, n) ↦ absurd (ground (arith, h, n))
  ]

  -- A write at a cell that fails the test, of a value that fails it, does not change the search.
  pub find?-set_miss :
      (test : A → Bool) (xs : List A) (i : ℕ) (old v : A)
      → get_elem? xs i ≡ some old
      → test old ≡ false
      → test v ≡ false
      → find? test (set xs i v) ≡ find? test xs
  unfolding find?
  find?-set_miss test [] i old v at o n = refl
  find?-set_miss test (x ∷ xs) zero old v at o n =
      let same : x ≡ old = ground (arith, at) in rw (n, same, o)
  find?-set_miss test (x ∷ xs) (suc i) old v at o n = rw (find?-set_miss test xs i old v at o n)

  -- The first element that passes, with what stands before and behind it.
  pub find_index_split :
      (test : A → Bool) (xs : List A)
      → ((find_index test xs ≡ none) × All (λ x. test x ≡ false) xs)
        ⊎ ((front : List A) × (a : A) × (rest : List A) × (xs ≡ front ++ a ∷ rest)
            × (test a ≡ true)
            × All (λ x. test x ≡ false) front
            × (find_index test xs ≡ some (length front)))
  unfolding find_index
  find_index_split test [] = inl (refl, tt)
  find_index_split test (x ∷ xs) = elim (Bool-cases (test x)) [
    | inl hit ↦ inr ([], x, xs, refl, hit, tt, rw hit)
    | inr miss ↦ elim (find_index_split test xs) [
      | inl (e, a) ↦ inl (rw (miss, e), (miss, a))
      | inr (front, a, rest, e, hit, before, at) ↦
          inr (x ∷ front, a, rest, ap (◌∷◌ x) e, hit, (miss, before), rw (miss, at))
    ]
  ]
