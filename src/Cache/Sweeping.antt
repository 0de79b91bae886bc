-- ===== src/Cache/Sweeping.antt =====
-- main/cache/cache_store.c: `cache_delete`, `cache_delete_prefix` and `cache_clear` on a valid store.
use esp32_agent_mesh.Prelude.{
  if◌then◌else◌, Bool-cases, Option-cases, get_elem?, All, sum_by, length-map, find?,
  find_index_found, find?-of_none, Bytes, sub32, ℕ, zero, suc, ◌+◌, ◌≤◌, ◌≡◌, refl, sym, ap, subst,
  ◌∙◌, inl, inr, Bool, true, false, ◌&&◌, none, some, List, [], ◌∷◌, map, arith,
}
use esp32_agent_mesh.Cache.Cells.{
  max_total_bytes, Entry, Store, blank, holds, find_entry, used_one, weight,
}
use esp32_agent_mesh.Cache.Invariant.{
  CellIsValid, IsValid, Trims, Shrinks-Distinct, blank-CellIsValid,
}
use esp32_agent_mesh.Cache.Get.{sweep}
use esp32_agent_mesh.Cache.Lookup.{peek, holds_parts, find?-of_Absent, find?-of_Distinct}

-- What `free_entry` under a test leaves of one cell.
abbrev swept : (Entry → Bool) → Entry → Entry
swept test e = if test e && e.used then blank else e

sweep-map :
    (test : Entry → Bool) (es : List Entry) (total : ℕ)
    → (sweep test es total).0 ≡ map (swept test) es
unfolding sweep
sweep-map test [] total = refl
sweep-map test (e ∷ es) total =
    ground (arith, sweep-map test es total, sweep-map test es (sub32 total e.value_len))

-- No subtraction of the sweep wraps while the bytes of the cells are all in `total`.
sweep-sum_by :
    (test : Entry → Bool) (es : List Entry) (total : ℕ)
    → sum_by weight es ≤ total
    → total ≤ max_total_bytes
    → (sweep test es total).1 + sum_by weight es ≡ total + sum_by weight (map (swept test) es)
unfolding sweep
sweep-sum_by test [] total h b = omega arith
sweep-sum_by test (e ∷ es) total h b =
    ground (arith, sweep-sum_by test es total, sweep-sum_by test es (sub32 total e.value_len))

map-swept-le :
    (test : Entry → Bool) (es : List Entry) → sum_by weight (map (swept test) es) ≤ sum_by weight es
map-swept-le test [] = omega arith
map-swept-le test (e ∷ es) = ground (arith, map-swept-le test es)

map-swept-used_one :
    (test : Entry → Bool) (es : List Entry)
    → sum_by used_one (map (swept test) es) ≤ sum_by used_one es
map-swept-used_one test [] = omega arith
map-swept-used_one test (e ∷ es) = ground (arith, map-swept-used_one test es)

map-swept-All :
    (test : Entry → Bool) (es : List Entry)
    → All CellIsValid es
    → All CellIsValid (map (swept test) es)
map-swept-All test [] a = tt
map-swept-All test (e ∷ es) a = (
  elim (Bool-cases (test e && e.used)) [ inl t ↦ rw t blank-CellIsValid | inr f ↦ rw f a.0 ],
  map-swept-All test es a.1,
)

-- A cell that survives is used and fails the test; one that does both survives.
map-swept-get_elem? :
    (test : Entry → Bool) (es : List Entry) (j : ℕ) (f : Entry)
    → get_elem? (map (swept test) es) j ≡ some f
    → f.used ≡ true
    → (get_elem? es j ≡ some f) × (test f ≡ false)
map-swept-get_elem? test [] j f h u = absurd (cc h)
map-swept-get_elem? test (e ∷ es) zero f h u = elim (Bool-cases (test e && e.used)) [
  | inl t ↦ absurd (ground (arith, t, h, u))
  | inr n ↦
      let same : e ≡ f = ground (arith, n, h) in
      (
        ap some same,
        subst (λ x. test x ≡ false) same (ground (arith, n, h, u, ap (λ (x : Entry). x.used) same)),
      )
]
map-swept-get_elem? test (e ∷ es) (suc j) f h u = map-swept-get_elem? test es j f h u

map-swept_kept :
    (test : Entry → Bool) (es : List Entry) (j : ℕ) (f : Entry)
    → get_elem? es j ≡ some f
    → test f ≡ false
    → get_elem? (map (swept test) es) j ≡ some f
map-swept_kept test [] j f h n = absurd (cc h)
map-swept_kept test (e ∷ es) zero f h n =
    let same : e ≡ f = ground (arith, h) in
    let n' : test e ≡ false = subst (λ x. test x ≡ false) (sym same) n in rw n' (ap some same)
map-swept_kept test (e ∷ es) (suc j) f h n = map-swept_kept test es j f h n

-- The store after a sweep.
abbrev pub sweep_store : (Entry → Bool) → Store → Store
sweep_store test s = record s {
  entries = (sweep test s.entries s.total_bytes).0;
  total_bytes = (sweep test s.entries s.total_bytes).1;
}

pub sweep_store-Trims : (test : Entry → Bool) (s : Store) → IsValid s → Trims s (sweep_store test s)
sweep_store-Trims test s v = rw (sweep-map test s.entries s.total_bytes) (record {
  valid = record {
    full_length = length-map s.entries (swept test) ∙ v.full_length;
    counted = ground (arith, v.counted, v.bounded, bytes);
    bounded = ground (arith, v.counted, v.bounded, bytes, map-swept-le test s.entries);
    cells = map-swept-All test s.entries v.cells;
    distinct =
        Shrinks-Distinct s.entries _ (λ j f h u. (map-swept-get_elem? test s.entries j f h u).0)
          v.distinct;
  };
  shrinks = λ j f h u. (map-swept-get_elem? test s.entries j f h u).0;
  fewer = map-swept-used_one test s.entries;
  smaller = ground (arith, v.counted, v.bounded, bytes, map-swept-le test s.entries);
  locked = refl;
})
  where
    bytes :
        (sweep test s.entries s.total_bytes).1 + sum_by weight s.entries
        ≡ s.total_bytes + sum_by weight (map (swept test) s.entries)
    bytes = sweep-sum_by test s.entries s.total_bytes (omega (arith, v.counted)) v.bounded

-- After a sweep, a key whose entry the test drops has none.
pub peek-sweep_store :
    (test : Entry → Bool) (k : Bytes) (s : Store)
    → IsValid s
    → ((e : Entry) → peek k s ≡ some e → test e ≡ true)
    → peek k (sweep_store test s) ≡ none
peek-sweep_store test k s v dropped = rw (sweep-map test s.entries s.total_bytes) (
    find?-of_Absent k (map (swept test) s.entries) λ j f h u fk.
      let (at, n) = map-swept-get_elem? test s.entries j f h u in
      cc (
        dropped f (
            subst (λ q. find? (holds q) s.entries ≡ some f) fk
              (find?-of_Distinct s.entries j f v.distinct at u)),
        n,
      ))

-- A key whose entry the test spares still has it.
pub peek-sweep_store_kept :
    (test : Entry → Bool) (k : Bytes) (s : Store) (e : Entry)
    → IsValid s
    → peek k s ≡ some e
    → test e ≡ false
    → peek k (sweep_store test s) ≡ some e
peek-sweep_store_kept test k s e v p n = elim (Option-cases (find_entry k s.entries)) [
  | inl nothing ↦ absurd (cc (p, find?-of_none (holds k) s.entries nothing))
  | inr (i, found) ↦
      let (c, at, hit, first) = find_index_found (holds k) s.entries i found in
      let same : c ≡ e = ground (arith, first, p) in
      let at' = map-swept_kept test s.entries i e (at ∙ ap some same) n in
      let parts = holds_parts k e (subst (λ x. holds k x ≡ true) same hit) in
      rw (sweep-map test s.entries s.total_bytes) (
        subst (λ q. find? (holds q) (map (swept test) s.entries) ≡ some e) parts.1
          (find?-of_Distinct (map (swept test) s.entries) i e
            (Shrinks-Distinct s.entries _
              (λ j f h u. (map-swept-get_elem? test s.entries j f h u).0) v.distinct)
            at' parts.0))
]

-- Sweeping every cell leaves no byte.
pub sweep_all : (es : List Entry) (total : ℕ) → sum_by weight (sweep (λ e. true) es total).0 ≡ 0
sweep_all es total = rw (sweep-map (λ e. true) es total) (go es)
  where
    go : (es : List Entry) → sum_by weight (map (swept (λ e. true)) es) ≡ 0
    go [] = refl
    go (e ∷ es) = ground (arith, go es)
