-- ===== src/Cache/Lookup.antt =====
-- main/cache/cache_store.c: the store seen as a map from keys to entries.
use esp32_agent_mesh.Prelude.{
  Option-cases, get_elem?, find_index, find?, find_index_found, find_index-none, find?-of_none,
  Bytes, str_eq_iff, str_eq_refl, ℕ, ◌≡◌, sym, ap, subst, ◌∙◌, ◌≢◌, ◌⊎◌, inl, inr, true, false,
  Option, none, some, List, arith,
}
use esp32_agent_mesh.Cache.Cells.{Entry, Store, holds, find_entry}
use esp32_agent_mesh.Cache.Invariant.{Distinct, Absent}

-- The entry that `find_entry` leads to.
abbrev pub peek : Bytes → Store → Option Entry
peek key s = find? (holds key) s.entries

pub holds_parts : (key : Bytes) (e : Entry) → holds key e ≡ true → (e.used ≡ true) × (e.key ≡ key)
holds_parts key e h = ground (arith, str_eq_iff e.key key)

pub find?-of_Absent : (key : Bytes) (es : List Entry) → Absent key es → find? (holds key) es ≡ none
find?-of_Absent key es a = elim (Option-cases (find_index (holds key) es)) [
  | inl n ↦ find?-of_none (holds key) es n
  | inr (i, found) ↦
      let (e, at, h, _) = find_index_found (holds key) es i found in
      let (u, k) = holds_parts key e h in absurd (a i e at u k)
]

-- Where no key is held twice, a used cell is the one that its key leads to.
pub find?-of_Distinct :
    (es : List Entry) (i : ℕ) (e : Entry)
    → Distinct es
    → get_elem? es i ≡ some e
    → e.used ≡ true
    → find? (holds e.key) es ≡ some e
find?-of_Distinct es i e d at u = elim (Option-cases (find_index (holds e.key) es)) [
  | inl n ↦ absurd (ground (arith, find_index-none (holds e.key) es n i e at, u, str_eq_refl e.key))
  | inr (j, found) ↦
      let (f, at', h, first) = find_index_found (holds e.key) es j found in
      let (u', k) = holds_parts e.key f h in
      let same = d i j e f at at' u u' (sym k) in
      first ∙ sym at' ∙ ap (get_elem? es) (sym same) ∙ at
]

pub find_entry-Absent : (key : Bytes) (es : List Entry) → find_entry key es ≡ none → Absent key es
find_entry-Absent key es n j f at u k =
    ground (arith, find_index-none (holds key) es n j f at, str_eq_iff f.key key)

-- After any change that adds no cell for `k`, `k` is gone or has the entry that it had.
pub peek_kept :
    (k : Bytes) (es es' : List Entry)
    → Distinct es
    → ((j : ℕ) (f : Entry)
        → get_elem? es' j ≡ some f
        → f.used ≡ true
        → f.key ≡ k
        → get_elem? es j ≡ some f)
    → (find? (holds k) es' ≡ none) ⊎ (find? (holds k) es' ≡ find? (holds k) es)
peek_kept k es es' d h = elim (Option-cases (find_index (holds k) es')) [
  | inl n ↦ inl (find?-of_none (holds k) es' n)
  | inr (j, found) ↦
      let (f, at, hf, first) = find_index_found (holds k) es' j found in
      let (u, e) = holds_parts k f hf in
      inr (
        first
        ∙ sym (
            subst (λ q. find? (holds q) es ≡ some f) e
              (find?-of_Distinct es j f d (h j f at u e) u)))
]

-- Where the entry of a key stands.
pub peek_located :
    (key : Bytes) (s : Store) (e : Entry)
    → peek key s ≡ some e
    → (i : ℕ) × (find_entry key s.entries ≡ some i)
      × (get_elem? s.entries i ≡ some e)
      × (e.used ≡ true)
      × (e.key ≡ key)
peek_located key s e p = elim (Option-cases (find_entry key s.entries)) [
  | inl n ↦ absurd (cc (p, find?-of_none (holds key) s.entries n))
  | inr (i, found) ↦
      let (c, at, hit, first) = find_index_found (holds key) s.entries i found in
      let same : c ≡ e = ground (arith, first, p) in
      let parts = holds_parts key e (subst (λ x. holds key x ≡ true) same hit) in
      (i, found, at ∙ ap some same, parts.0, parts.1)
]

pub holds_ne : (k : Bytes) (e : Entry) → e.key ≢ k → holds k e ≡ false
holds_ne k e h = ground (arith, str_eq_iff e.key k, h)
