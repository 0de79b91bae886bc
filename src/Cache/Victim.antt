-- ===== src/Cache/Victim.antt =====
-- main/cache/cache_store.c: the cell that `find_victim` chooses.
use esp32_agent_mesh.Prelude.{
  ℕ, suc, ◌+◌, ◌≤◌, ◌≡◌, refl, ap, ◌≢◌, ◌⊎◌, inl, inr, true, false, not, ◌||◌, Option, none, some,
  List, [], ◌∷◌, arith, ltb, if◌then◌else◌, Bool-cases, Option-cases, length, get_elem?, All,
}
use esp32_agent_mesh.Cache.Cells.{int64_max, Entry, Store, is_expired, find_victim, victim_from}
use esp32_agent_mesh.Cache.Invariant.{CellIsValid, IsValid}

-- The index returned is one of the array, or the victim that the scan had before.
victim_sound :
    (now : ℕ) (es : List Entry) (i : ℕ) (v : Option ℕ) (o j : ℕ)
    → (victim_from now es i v o).0 ≡ some j
    → (v ≡ some j) ⊎ ((k : ℕ) × (e : Entry) × (j ≡ i + k) × (get_elem? es k ≡ some e))
unfolding victim_from
victim_sound now [] i v o j h = inl h
victim_sound now (e ∷ es) i v o j h = elim (Bool-cases (not e.used || is_expired e now)) [
  | inl hit ↦ inr (0, e, ground (arith, hit, h), refl)
  | inr miss ↦
      elim (victim_sound now es (i + 1) (if ltb e.last_access_us o then some i else v)
        (if ltb e.last_access_us o then e.last_access_us else o) j (ground (arith, miss, h))) [
          | inl kept ↦ elim (Bool-cases (ltb e.last_access_us o)) [
            | inl older ↦ inr (0, e, ground (arith, kept, older), refl)
            | inr newer ↦ inl (ground (arith, kept, newer))
          ]
          | inr (k, f, at, found) ↦ inr (suc k, f, omega arith, found)
        ]
]

victim_ne_none :
    (now : ℕ) (es : List Entry) (i j o : ℕ) → (victim_from now es i (some j) o).0 ≢ none
unfolding victim_from
victim_ne_none now [] i j o h = cc h
victim_ne_none now (e ∷ es) i j o h =
    ground (
      arith,
      h,
      victim_ne_none now es (i + 1) j o,
      victim_ne_none now es (i + 1) i e.last_access_us,
    )

victim_complete :
    (now : ℕ) (es : List Entry) (i : ℕ)
    → All CellIsValid es
    → (victim_from now es i none int64_max).0 ≡ none
    → es ≡ []
unfolding victim_from
victim_complete now [] i a h = refl
victim_complete now (e ∷ es) i a h =
    ground (arith, a.0.recent, victim_ne_none now es (i + 1) i e.last_access_us)

-- A valid store always has a victim, and it is a cell of the array.
pub find_victim-is_some :
    (now : ℕ) (s : Store)
    → IsValid s
    → (i : ℕ) × (e : Entry) × ((find_victim now s).0 ≡ some i) × (get_elem? s.entries i ≡ some e)
unfolding find_victim
find_victim-is_some now s v = elim (Option-cases (victim_from now s.entries 0 none int64_max).0) [
  | inl nobody ↦
      absurd
        (omega (arith, v.full_length, ap length (victim_complete now s.entries 0 v.cells nobody)))
  | inr (i, found) ↦ elim (victim_sound now s.entries 0 none int64_max i found) [
    | inl bad ↦ absurd (cc bad)
    | inr (k, e, at, held) ↦ let same : i ≡ k = omega arith in (i, e, found, rw same held)
  ]
]

-- Used and not expired: the cells between which the last access decides.
abbrev pub IsLive : ℕ → Entry → Type 0
IsLive now e = (e.used ≡ true) × (is_expired e now ≡ false)

victim_oldest :
    (now : ℕ) (es : List Entry) (i : ℕ) (v : Option ℕ) (o j : ℕ)
    → All (IsLive now) es
    → (victim_from now es i v o).0 ≡ some j
    → ((v ≡ some j) × All (λ f. o ≤ f.last_access_us) es)
      ⊎ ((k : ℕ) × (e : Entry) × (j ≡ i + k)
          × (get_elem? es k ≡ some e)
          × (e.last_access_us ≤ o)
          × All (λ f. e.last_access_us ≤ f.last_access_us) es)
unfolding victim_from
victim_oldest now [] i v o j a h = inl (h, tt)
victim_oldest now (e ∷ es) i v o j a h = elim (Bool-cases (ltb e.last_access_us o)) [
  | inl older ↦
      elim (victim_oldest now es (i + 1) (some i) e.last_access_us j a.1
        (ground (arith, a.0, older))) [
          | inl (kept, least) ↦
              inr (0, e, ground (arith, kept), refl, ground (arith, older), (omega arith, least))
          | inr (k, f, at, found, le, least) ↦
              inr (suc k, f, omega arith, found, ground (arith, older, le), (le, least))
        ]
  | inr newer ↦ elim (victim_oldest now es (i + 1) v o j a.1 (ground (arith, a.0, newer))) [
    | inl (kept, least) ↦ inl (kept, (ground (arith, newer), least))
    | inr (k, f, at, found, le, least) ↦
        inr (suc k, f, omega arith, found, le, (ground (arith, newer, le), least))
  ]
]

-- In a full table with nothing expired, `find_victim` returns a cell that was accessed no later
-- than any other.
pub find_victim_least_recent :
    (now : ℕ) (s : Store)
    → IsValid s
    → All (IsLive now) s.entries
    → (i : ℕ) × (e : Entry) × ((find_victim now s).0 ≡ some i)
      × (get_elem? s.entries i ≡ some e)
      × All (λ f. e.last_access_us ≤ f.last_access_us) s.entries
unfolding find_victim
find_victim_least_recent now s v live =
    let (i, _, found, _) = find_victim-is_some now s v in
    elim (victim_oldest now s.entries 0 none int64_max i live found) [
      | inl (bad, _) ↦ absurd (cc bad)
      | inr (k, e, at, held, _, least) ↦
          let same : i ≡ k = omega arith in (i, e, found, rw same held, least)
    ]
