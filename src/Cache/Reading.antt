-- ===== src/Cache/Reading.antt =====
-- main/cache/cache_store.c: what `cache_get` and `cache_delete` do to a valid store.
use esp32_agent_mesh.Prelude.{
  Bool-cases, Option-cases, length, get_elem?, set, length-set, take_all, All-set, All-get_elem?,
  sum_by-set, get_elem?-set, find_index_found, find?-of_none, Bytes, ok, add32, ℕ, ◌<◌, ◌≡◌, refl,
  sym, ap, subst, ◌∙◌, ◌≢◌, inl, inr, true, false, Option, none, some, List, [], arith,
}
use esp32_agent_mesh.Cache.Cells.{
  int64_max, Entry, Store, is_expired, free_entry, holds, find_entry, text, weight,
}
use esp32_agent_mesh.Cache.Invariant.{CellIsValid, Distinct, IsValid, free_used-Trims}
use esp32_agent_mesh.Cache.Get.{read_entry, get_found, cache_get}
use esp32_agent_mesh.Cache.Lookup.{peek}

-- Writing a cell anew under its own key.
rewrite-Distinct :
    (es : List Entry) (i : ℕ) (old v : Entry)
    → Distinct es
    → get_elem? es i ≡ some old
    → old.used ≡ true
    → v.key ≡ old.key
    → Distinct (set es i v)
rewrite-Distinct es i old v d at ou ok_key j k e f p q u w same =
    elim (get_elem?-set es i j v e p) [
      | inl (ij, ev) ↦ elim (get_elem?-set es i k v f q) [
        | inl (ik, fv) ↦ sym ij ∙ ik
        | inr (_, q') ↦
            sym ij ∙ d i k old f at q' ou w (sym ok_key ∙ sym (ap (λ (x : Entry). x.key) ev) ∙ same)
      ]
      | inr (_, p') ↦ elim (get_elem?-set es i k v f q) [
        | inl (ik, fv) ↦ d j i e old p' at u ou (same ∙ ap (λ (x : Entry). x.key) fv ∙ ok_key) ∙ ik
        | inr (_, q') ↦ d j k e f p' q' u w same
      ]
    ]

abbrev pub touched : ℕ → Entry → Entry
touched now e = record e { last_access_us = now; hits = add32 e.hits 1 }

read_entry-IsValid :
    (now out_size i : ℕ) (e : Entry) (s : Store)
    → IsValid s
    → get_elem? s.entries i ≡ some e
    → e.used ≡ true
    → now < int64_max
    → IsValid (read_entry now out_size i e s).2
unfolding read_entry
read_entry-IsValid now out_size i e s v at u h =
    let c = All-get_elem? CellIsValid s.entries i e v.cells at in
    record {
      full_length = length-set s.entries i (touched now e) ∙ v.full_length;
      counted = ground (arith, v.counted, sum_by-set weight s.entries i e (touched now e) at);
      bounded = v.bounded;
      cells =
          All-set CellIsValid s.entries i (touched now e)
            (record { measured = c.measured; short = c.short; key_short = c.key_short; recent = h })
            v.cells;
      distinct = rewrite-Distinct s.entries i e (touched now e) v.distinct at u refl;
    }

pub IsValid-of_eq :
    (s t : Store) → IsValid s → t.entries ≡ s.entries → t.total_bytes ≡ s.total_bytes → IsValid t
IsValid-of_eq s t v e b = record {
  full_length = rw e v.full_length;
  counted = rw (e, b) v.counted;
  bounded = rw b v.bounded;
  cells = rw e v.cells;
  distinct = rw e v.distinct;
}

get_found-IsValid :
    (now out_size : ℕ) (key : Bytes) (found : Option ℕ) (s : Store)
    → IsValid s
    → now < int64_max
    → find_entry key s.entries ≡ found
    → IsValid (get_found now out_size found s).2
unfolding get_found
get_found-IsValid now out_size key none s v h e = IsValid-of_eq s _ v refl refl
get_found-IsValid now out_size key (some i) s v h e =
    let (c, at, hit, _) = find_index_found (holds key) s.entries i e in
    let u : c.used ≡ true = ground (arith, hit) in
    elim (Bool-cases (is_expired c now)) [
      | inl old ↦
          rw (at, get_found)
            (rw old
              (IsValid-of_eq (free_entry i s) _ (free_used-Trims i s c at u v).0.valid refl refl))
      | inr live ↦ rw (at, get_found) (rw live (read_entry-IsValid now out_size i c s v at u h))
    ]

pub cache_get-IsValid :
    (now : ℕ) (key : Option Bytes) (out_size : ℕ) (s : Store)
    → IsValid s
    → now < int64_max
    → IsValid (cache_get now key out_size s).2
unfolding cache_get
cache_get-IsValid now key out_size s v h = ground (
  arith,
  v,
  get_found-IsValid now out_size (text key) (find_entry (text key) s.entries) s v h refl,
)

-- On an entry that is there and has not expired, `cache_get` returns its value, cut to the buffer.
pub cache_get-hit :
    (now : ℕ) (key : Bytes) (out_size : ℕ) (s : Store) (e : Entry)
    → IsValid s
    → s.lock ≡ true
    → key ≢ []
    → peek key s ≡ some e
    → is_expired e now ≡ false
    → length e.value < out_size
    → ((cache_get now (some key) out_size s).0 ≡ ok)
      × ((cache_get now (some key) out_size s).1 ≡ e.value)
unfolding cache_get get_found read_entry
cache_get-hit now key out_size s e v l ne p live fits =
    elim (Option-cases (find_entry key s.entries)) [
      | inl n ↦ absurd (cc (p, find?-of_none (holds key) s.entries n))
      | inr (i, found) ↦
          let (c, at, hit, first) = find_index_found (holds key) s.entries i found in
          let same : c ≡ e = ground (arith, first, p) in
          let m = (All-get_elem? CellIsValid s.entries i c v.cells at).measured in
          let at' : get_elem? s.entries i ≡ some e = at ∙ ap some same in
          let m' : e.value_len ≡ length e.value =
            subst (λ (x : Entry). x.value_len ≡ length x.value) same m in
          rw (found, at', get_found)
            (ground (arith, ne, l, live, fits, m', take_all e.value_len e.value))
    ]
