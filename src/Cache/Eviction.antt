-- ===== src/Cache/Eviction.antt =====
-- main/cache/cache_store.c: `find_used_victim` finds a used cell while one is left, so the loop of
-- `evict_until_fits` ends with room for the new value.
use esp32_agent_mesh.Prelude.{
  ℕ, zero, suc, ◌+◌, ◌≤◌, ◌<◌, ◌≡◌, refl, subst, ◌∙◌, ◌≢◌, ◌⊎◌, inl, inr, true, false, ◌&&◌, Option,
  none, some, List, [], ◌∷◌, arith, ltb, ◌==◌, if◌then◌else◌, Bool-cases, ==_iff, Option-cases,
  get_elem?, All, sum_by,
}
use esp32_agent_mesh.Cache.Cells.{
  max_value_bytes, int64_max, Entry, Store, blank, is_expired, free_entry, find_used_victim,
  used_victim_from, used_one, weight,
}
use esp32_agent_mesh.Cache.Invariant.{
  CellIsValid, IsValid, Trims, Trims-refl, Trims-trans, free_used-Trims,
}
use esp32_agent_mesh.Cache.Put.{evict, evict_until_fits, overflows, is_protected}

-- The index returned is that of a used cell, or the victim that the scan had before.
used_victim_sound :
    (now : ℕ) (es : List Entry) (i : ℕ) (v : Option ℕ) (o j : ℕ)
    → (used_victim_from now es i v o).0 ≡ some j
    → (v ≡ some j)
      ⊎ ((k : ℕ) × (e : Entry) × (j ≡ i + k) × (get_elem? es k ≡ some e) × (e.used ≡ true))
unfolding used_victim_from
used_victim_sound now [] i v o j h = inl h
used_victim_sound now (e ∷ es) i v o j h = elim (Bool-cases (e.used && is_expired e now)) [
  | inl hit ↦ inr (0, e, ground (arith, hit, h), refl, ground (arith, hit))
  | inr miss ↦
      elim (used_victim_sound now es (i + 1)
        (if e.used && ltb e.last_access_us o then some i else v)
        (if e.used && ltb e.last_access_us o then e.last_access_us else o) j
        (ground (arith, miss, h))) [
          | inl kept ↦ elim (Bool-cases (e.used && ltb e.last_access_us o)) [
            | inl older ↦ inr (0, e, ground (arith, kept, older), refl, ground (arith, older))
            | inr newer ↦ inl (ground (arith, kept, newer))
          ]
          | inr (k, f, at, found, u) ↦ inr (suc k, f, omega arith, found, u)
        ]
]

used_victim_ne_none :
    (now : ℕ) (es : List Entry) (i j o : ℕ) → (used_victim_from now es i (some j) o).0 ≢ none
unfolding used_victim_from
used_victim_ne_none now [] i j o h = cc h
used_victim_ne_none now (e ∷ es) i j o h = ground (
  arith,
  h,
  used_victim_ne_none now es (i + 1) j o,
  used_victim_ne_none now es (i + 1) i e.last_access_us,
)

-- A scan that returns -1 has met no used cell.
used_victim_complete :
    (now : ℕ) (es : List Entry) (i : ℕ)
    → All CellIsValid es
    → (used_victim_from now es i none int64_max).0 ≡ none
    → (sum_by weight es ≡ 0) × (sum_by used_one es ≡ 0)
unfolding used_victim_from
used_victim_complete now [] i a h = (refl, refl)
used_victim_complete now (e ∷ es) i a h = ground (
  arith,
  a.0.recent,
  used_victim_complete now es (i + 1) a.1,
  used_victim_ne_none now es (i + 1) i e.last_access_us,
)

-- Counting an expired entry changes neither the cells nor the bytes.
pub counted_expired :
    (now : ℕ) (s : Store)
    → ((find_used_victim now s).1.entries ≡ s.entries)
      × ((find_used_victim now s).1.total_bytes ≡ s.total_bytes)
      × ((find_used_victim now s).1.lock ≡ s.lock)
unfolding find_used_victim
counted_expired now s = ground arith

pub Trims-of_eq :
    (s t u : Store)
    → Trims s t
    → u.entries ≡ t.entries
    → u.total_bytes ≡ t.total_bytes
    → u.lock ≡ t.lock
    → Trims s u
Trims-of_eq s t u m e b l = record {
  valid = record {
    full_length = rw e m.valid.full_length;
    counted = rw (e, b) m.valid.counted;
    bounded = rw b m.valid.bounded;
    cells = rw e m.valid.cells;
    distinct = rw e m.valid.distinct;
  };
  shrinks = rw e m.shrinks;
  fewer = rw e m.fewer;
  smaller = rw b m.smaller;
  locked = l ∙ m.locked;
}

pub find_used_victim-Trims : (now : ℕ) (s : Store) → IsValid s → Trims s (find_used_victim now s).1
find_used_victim-Trims now s v =
    let (e, b, l) = counted_expired now s in Trims-of_eq s s _ (Trims-refl s v) e b l

pub evict-Trims :
    (i : ℕ) (s : Store) (e : Entry)
    → get_elem? s.entries i ≡ some e
    → e.used ≡ true
    → IsValid s
    → Trims s (evict i s)
      × (sum_by used_one (evict i s).entries < sum_by used_one s.entries)
      × ((f : Entry) × (get_elem? (evict i s).entries i ≡ some f) × (f.used ≡ false))
unfolding evict
evict-Trims i s e h u v =
    let (m, less, at) = free_used-Trims i s e h u v in
    (Trims-of_eq s (free_entry i s) _ m refl refl refl, less, (blank, at, refl))

-- The slot that `cache_put` means to write holds nothing.
abbrev pub IsSpare : Option ℕ → List Entry → Type 0
IsSpare none es = Unit
IsSpare (some i) es = (e : Entry) → get_elem? es i ≡ some e → e.used ≡ false

pub Trims-IsSpare :
    (guarded : Option ℕ) (s t : Store)
    → Trims s t
    → IsSpare guarded s.entries
    → IsSpare guarded t.entries
Trims-IsSpare none s t m h = tt
Trims-IsSpare (some i) s t m h = λ e at. elim (Bool-cases e.used) [
  | inl u ↦ absurd (cc (h e (m.shrinks i e at u), u))
  | inr u ↦ u
]

not_protected :
    (guarded : Option ℕ) (es : List Entry) (i : ℕ) (e : Entry)
    → IsSpare guarded es
    → get_elem? es i ≡ some e
    → e.used ≡ true
    → is_protected i guarded ≡ false
not_protected none es i e h at u = refl
not_protected (some j) es i e h at u = elim (Bool-cases (i == j)) [
  | inl same ↦ absurd (cc (h e (subst (λ k. get_elem? es k ≡ some e) ((==_iff i j).0 same) at), u))
  | inr other ↦ other
]

room_of_empty :
    (incoming : ℕ) (s : Store)
    → IsValid s
    → incoming ≤ max_value_bytes
    → sum_by weight s.entries ≡ 0
    → overflows incoming s ≡ false
room_of_empty incoming s v h e = ground (arith, v.counted)

-- What `find_used_victim` returns on a valid store.
find_used_victim_cases :
    (now : ℕ) (s : Store)
    → IsValid s
    → (((find_used_victim now s).0 ≡ none) × (sum_by weight s.entries ≡ 0))
      ⊎ ((i : ℕ) × (e : Entry) × ((find_used_victim now s).0 ≡ some i)
          × (get_elem? s.entries i ≡ some e)
          × (e.used ≡ true))
unfolding find_used_victim
find_used_victim_cases now s v =
    elim (Option-cases (used_victim_from now s.entries 0 none int64_max).0) [
      | inl nobody ↦ inl (nobody, (used_victim_complete now s.entries 0 v.cells nobody).0)
      | inr (i, found) ↦ elim (used_victim_sound now s.entries 0 none int64_max i found) [
        | inl bad ↦ absurd (cc bad)
        | inr (k, e, at, held, u) ↦
            let same : i ≡ k = omega arith in inr (i, e, found, rw same held, u)
      ]
    ]

-- The fuel suffices, and the loop leaves room, whatever was in the store.
pub evict_until_fits-Trims :
    (fuel incoming : ℕ) (guarded : Option ℕ) (now : ℕ) (s : Store)
    → sum_by used_one s.entries < fuel
    → incoming ≤ max_value_bytes
    → IsSpare guarded s.entries
    → IsValid s
    → Trims s (evict_until_fits fuel incoming guarded now s)
      × (overflows incoming (evict_until_fits fuel incoming guarded now s) ≡ false)
unfolding evict_until_fits
evict_until_fits-Trims zero incoming guarded now s h small spare v = absurd (omega arith)
evict_until_fits-Trims (suc fuel) incoming guarded now s h small spare v =
    elim (Bool-cases (overflows incoming s)) [
      | inr fits ↦ rw (fits, evict_until_fits) (Trims-refl s v, fits)
      | inl over ↦ elim (find_used_victim_cases now s v) [
        | inl (nobody, empty) ↦ absurd (cc (over, room_of_empty incoming s v small empty))
        | inr (i, e, found, held, u) ↦
            let t = (find_used_victim now s).1 in
            let m = find_used_victim-Trims now s v in
            let held' : get_elem? t.entries i ≡ some e = rw (counted_expired now s).0 held in
            let (m', less, _) = evict-Trims i t e held' u m.valid in
            let both = Trims-trans s t (evict i t) m m' in
            let (m'', fits) =
              evict_until_fits-Trims fuel incoming guarded now (evict i t) (omega (arith, m.fewer))
                small (Trims-IsSpare guarded s (evict i t) both spare) m'.valid in
            rw (over, found, not_protected guarded s.entries i e spare held u, evict_until_fits)
              (Trims-trans s (evict i t) _ both m'', fits)
      ]
    ]
