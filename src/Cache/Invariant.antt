-- ===== src/Cache/Invariant.antt =====
-- main/cache/cache_store.c: the invariant of the store, and what keeps it.
use esp32_agent_mesh.Prelude.{
  ℕ, ◌+◌, ◌≤◌, ◌<◌, ◌≡◌, refl, ◌∙◌, ◌≢◌, inl, inr, true, some, List, arith, length, get_elem?, set,
  All, sum_by, length-set, All-set, sum_by-set, get_elem?-set, get_elem?-set_self, lt_of_get_elem?,
  Bytes, sub32,
}
use esp32_agent_mesh.Cache.Cells.{
  max_entries, max_key_bytes, max_value_bytes, max_total_bytes, int64_max, Entry, Store, blank,
  free_cell, free_entry, used_one, weight,
}

-- What holds of a cell, blank or used.
pub record CellIsValid (e : Entry) : Type 0 where
  pub measured : e.value_len ≡ length e.value
  pub short : e.value_len ≤ max_value_bytes
  pub key_short : length e.key < max_key_bytes
  pub recent : e.last_access_us < int64_max

-- No key is held by two cells.
abbrev pub Distinct : List Entry → Type 0
Distinct es =
    (i j : ℕ) (e f : Entry)
    → get_elem? es i ≡ some e
    → get_elem? es j ≡ some f
    → e.used ≡ true
    → f.used ≡ true
    → e.key ≡ f.key
    → i ≡ j

pub record IsValid (s : Store) : Type 0 where
  pub full_length : length s.entries ≡ max_entries
  pub counted : s.total_bytes ≡ sum_by weight s.entries
  pub bounded : s.total_bytes ≤ max_total_bytes
  pub cells : All CellIsValid s.entries
  pub distinct : Distinct s.entries

abbrev pub Absent : Bytes → List Entry → Type 0
Absent key es = (j : ℕ) (f : Entry) → get_elem? es j ≡ some f → f.used ≡ true → f.key ≢ key

-- The used cells of `es'` stand in `es`.
abbrev pub Shrinks : List Entry → List Entry → Type 0
Shrinks es es' =
    (j : ℕ) (f : Entry) → get_elem? es' j ≡ some f → f.used ≡ true → get_elem? es j ≡ some f

-- `s'` is `s` less some entries.
pub record Trims (s s' : Store) : Type 0 where
  pub valid : IsValid s'
  pub shrinks : Shrinks s.entries s'.entries
  pub fewer : sum_by used_one s'.entries ≤ sum_by used_one s.entries
  pub smaller : s'.total_bytes ≤ s.total_bytes
  pub locked : s'.lock ≡ s.lock

pub Trims-refl : (s : Store) → IsValid s → Trims s s
Trims-refl s v = record {
  valid = v;
  shrinks = λ j f e u. e;
  fewer = omega arith;
  smaller = omega arith;
  locked = refl;
}

pub Trims-trans : (s t u : Store) → Trims s t → Trims t u → Trims s u
Trims-trans s t u a b = record {
  valid = b.valid;
  shrinks = λ j f e h. a.shrinks j f (b.shrinks j f e h) h;
  fewer = omega arith;
  smaller = omega arith;
  locked = b.locked ∙ a.locked;
}

pub Shrinks-Distinct : (es es' : List Entry) → Shrinks es es' → Distinct es → Distinct es'
Shrinks-Distinct es es' h d i j e f p q u w k = d i j e f (h i e p u) (h j f q w) u w k

pub Shrinks-Absent :
    (key : Bytes) (es es' : List Entry) → Shrinks es es' → Absent key es → Absent key es'
Shrinks-Absent key es es' h a j f p u = a j f (h j f p u) u

Shrinks-set-blank : (es : List Entry) (i : ℕ) → Shrinks es (set es i blank)
Shrinks-set-blank es i j f p u = elim (get_elem?-set es i j blank f p) [
  | inl (e, k) ↦ absurd (ground (arith, k))
  | inr (n, k) ↦ k
]

pub blank-CellIsValid : CellIsValid blank
blank-CellIsValid = omega arith

weight-le-sum_by :
    (es : List Entry) (i : ℕ) (e : Entry) → get_elem? es i ≡ some e → weight e ≤ sum_by weight es
weight-le-sum_by es i e h = omega (arith, sum_by-set weight es i e blank h)

-- The two ways through `free_entry` that its callers take.
pub free_entry-used :
    (i : ℕ) (s : Store) (e : Entry)
    → get_elem? s.entries i ≡ some e
    → e.used ≡ true
    → free_entry i s
      ≡ record s { entries = set s.entries i blank; total_bytes = sub32 s.total_bytes e.value_len }
unfolding free_entry
free_entry-used i s e h u = rw (h, free_entry) (rw (u, free_cell))

pub free_used-Trims :
    (i : ℕ) (s : Store) (e : Entry)
    → get_elem? s.entries i ≡ some e
    → e.used ≡ true
    → IsValid s
    → Trims s (free_entry i s)
      × (sum_by used_one (free_entry i s).entries < sum_by used_one s.entries)
      × (get_elem? (free_entry i s).entries i ≡ some blank)
free_used-Trims i s e h u v = rw (free_entry-used i s e h u) (
  record {
    valid = record {
      full_length = length-set s.entries i blank ∙ v.full_length;
      counted = ground (arith, bytes, within, v.counted, v.bounded);
      bounded = ground (arith, bytes, within, v.counted, v.bounded);
      cells = All-set CellIsValid s.entries i blank blank-CellIsValid v.cells;
      distinct = Shrinks-Distinct s.entries _ (Shrinks-set-blank s.entries i) v.distinct;
    };
    shrinks = Shrinks-set-blank s.entries i;
    fewer = ground (arith, counts);
    smaller = ground (arith, bytes, within, v.counted, v.bounded);
    locked = refl;
  },
  ground (arith, counts),
  get_elem?-set_self s.entries i blank (lt_of_get_elem? s.entries i e h),
)
  where
    bytes :
        sum_by weight (set s.entries i blank) + weight e ≡ sum_by weight s.entries + weight blank
    bytes = sum_by-set weight s.entries i e blank h

    counts :
        sum_by used_one (set s.entries i blank) + used_one e
        ≡ sum_by used_one s.entries + used_one blank
    counts = sum_by-set used_one s.entries i e blank h

    within : weight e ≤ sum_by weight s.entries
    within = weight-le-sum_by s.entries i e h
