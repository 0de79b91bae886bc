-- ===== src/Prelude/Ring.antt =====
-- Rings of cells: a position that only grows is taken by the number of the cells, and what is at the
-- last so many positions stands.
use Prim.Native.Nat.{ℕ, zero, suc, ◌+◌, ◌-◌, ◌%◌, ◌<◌, ◌≤◌}
use mathlib.Core.Path.{◌≡◌, refl, sym, ap, ◌∙◌}
use mathlib.Core.Logic.{◌≢◌, ◌⊎◌, inl, inr}
use mathlib.Core.List.{List, [], ◌∷◌, ◌++◌}
use mathlib.Core.Option.{some}
use package.esp32_agent_mesh.Prelude.Lists.{
  length, get_elem?, set, drop, length-append, get_elem?-set_self, get_elem?-set_ne,
}
use native.Mathlib.Nat.{mod-add-mod, mod-eq-sub-mod, mod-lt}
use native.Mathlib.Omega.{arith}

pub mod_ne : (n t k : ℕ) → t < k → k < t + n → t % n ≢ k % n
mod_ne n t k h j e = grind arith

pub mod_small : (n t : ℕ) → t < n → t % n ≡ t
mod_small n t h = grind arith

pub mod_around : (n k i : ℕ) → n ≤ k → (k % n + i) % n ≡ (k - n + i) % n
mod_around n k i h =
    let e : k + i - n ≡ k - n + i = omega arith in
    mod-add-mod k n i ∙ (mod-eq-sub-mod (omega arith) ∙ ap (λ (m : ℕ). m % n) e)

module _ {ℓ} {J : Type ℓ} where
  pub get_elem?-snoc :
      (xs : List J) (x y : J) (t : ℕ)
      → get_elem? (xs ++ x ∷ []) t ≡ some y
      → ((t < length xs) × (get_elem? xs t ≡ some y)) ⊎ ((t ≡ length xs) × (x ≡ y))
  get_elem?-snoc [] x y zero h = inr (refl, ground (arith, h))
  get_elem?-snoc [] x y (suc t) h = absurd (cc h)
  get_elem?-snoc (z ∷ xs) x y zero h = inl (omega arith, h)
  get_elem?-snoc (z ∷ xs) x y (suc t) h = elim (get_elem?-snoc xs x y t h) [
    | inl (l, e) ↦ inl (omega arith, e)
    | inr (l, e) ↦ inr (ap suc l, e)
  ]

  pub drop_end : (xs : List J) (j : ℕ) → length xs ≤ j → drop j xs ≡ []
  drop_end [] zero h = refl
  drop_end [] (suc j) h = refl
  drop_end (x ∷ xs) zero h = absurd (omega arith)
  drop_end (x ∷ xs) (suc j) h = drop_end xs j (omega arith)

  pub drop_step :
      (xs : List J) (j : ℕ)
      → j < length xs
      → (x : J) × (get_elem? xs j ≡ some x) × (drop j xs ≡ x ∷ drop (suc j) xs)
  drop_step [] j h = elim h [ ]
  drop_step (x ∷ xs) zero h = (x, refl, refl)
  drop_step (x ∷ xs) (suc j) h = drop_step xs j (omega arith)

  -- The cells hold the last `n` of a list, each at its place.
  abbrev pub HoldsLast : ℕ → List J → List J → Type ℓ
  HoldsLast n xs cells =
      (t : ℕ) (x : J)
      → get_elem? xs t ≡ some x
      → length xs ≤ t + n
      → get_elem? cells (t % n) ≡ some x

  pub HoldsLast-set :
      (n : ℕ) (xs cells : List J) (x : J)
      → 0 < n
      → length cells ≡ n
      → HoldsLast n xs cells
      → HoldsLast n (xs ++ x ∷ []) (set cells (length xs % n) x)
  HoldsLast-set n xs cells x some_room room h = λ t y e near.
      let k = length xs in
      let more : length (xs ++ x ∷ []) ≡ k + 1 = omega (arith, length-append xs (x ∷ [])) in
      elim (get_elem?-snoc xs x y t e) [
        | inl (l, old) ↦
            let other = mod_ne n t k l (omega (arith, more)) in
            get_elem?-set_ne cells (k % n) (t % n) x (λ e. other (sym e))
            ∙ h t y old (omega (arith, more))
        | inr (l, is) ↦
            let here : t % n ≡ k % n = ap (λ (i : ℕ). i % n) l in
            let fits : k % n < length cells = omega (arith, room, mod-lt k some_room) in
            ap (get_elem? (set cells (k % n) x)) here
            ∙ (get_elem?-set_self cells (k % n) x fits ∙ ap some is)
      ]
