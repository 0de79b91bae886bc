-- ===== src/Cache/Storing.antt =====
-- main/cache/cache_store.c: what `cache_put` stores, and what it leaves alone.
use esp32_agent_mesh.Prelude.{
  Option-cases, length, get_elem?, set, length-set, lt_of_get_elem?, get_elem?-set_self, All-set,
  sum_by, sum_by-set, get_elem?-set, get_elem?-ne_none, sum_by-le, find_index_found, find?-set_miss,
  Bytes, str_eq_iff, EspErr, ok, add32, ℕ, ◌≤◌, ◌<◌, ◌≡◌, refl, sym, ap, ◌∙◌, ◌≢◌, ◌⊎◌, inl, inr,
  true, false, Option, none, some, List, arith,
}
use esp32_agent_mesh.Cache.Cells.{
  max_entries, Entry, Store, blank, free_entry, holds, find_entry, used_one, weight,
}
use esp32_agent_mesh.Cache.Invariant.{
  CellIsValid, Distinct, IsValid, Absent, Trims, Trims-refl, Trims-trans, Shrinks-Absent,
  free_entry-used, free_used-Trims,
}
use esp32_agent_mesh.Cache.Put.{
  overflows, evict_until_fits, evict_fuel, put_slot, new_entry, write_slot, free_found, put_locked,
}
use esp32_agent_mesh.Cache.Eviction.{IsSpare, Trims-IsSpare, evict_until_fits-Trims}
use esp32_agent_mesh.Cache.Slot.{InRange, put_slot-Slot}
use esp32_agent_mesh.Cache.Lookup.{
  peek, find?-of_Absent, find?-of_Distinct, find_entry-Absent, peek_kept, holds_ne,
}

pub used_one-le : (s : Store) → sum_by used_one s.entries ≤ length s.entries
used_one-le s = sum_by-le used_one s.entries (λ e. ground arith)

write_slot-fits :
    (now expires_at : ℕ) (key value : Bytes) (i : ℕ) (s : Store)
    → overflows (length value) s ≡ false
    → write_slot now expires_at key value (some i) s ≡ (
      ok,
      record s {
        entries = set s.entries i (new_entry now expires_at key value);
        total_bytes = add32 s.total_bytes (length value);
      },
    )
unfolding write_slot
write_slot-fits now expires_at key value i s h = rw h

set-Distinct :
    (es : List Entry) (i : ℕ) (v : Entry) → Distinct es → Absent v.key es → Distinct (set es i v)
set-Distinct es i v d a j k e f p q u w same = elim (get_elem?-set es i j v e p) [
  | inl (ij, ev) ↦ elim (get_elem?-set es i k v f q) [
    | inl (ik, fv) ↦ sym ij ∙ ik
    | inr (_, q') ↦ absurd (a k f q' w (sym same ∙ ap (λ (x : Entry). x.key) ev))
  ]
  | inr (_, p') ↦ elim (get_elem?-set es i k v f q) [
    | inl (ik, fv) ↦ absurd (a j e p' u (same ∙ ap (λ (x : Entry). x.key) fv))
    | inr (_, q') ↦ d j k e f p' q' u w same
  ]
]

-- Writing a new entry into a spare slot with room for it.
write-IsValid :
    (i : ℕ) (old new : Entry) (s : Store)
    → IsValid s
    → get_elem? s.entries i ≡ some old
    → old.used ≡ false
    → new.used ≡ true
    → CellIsValid new
    → Absent new.key s.entries
    → overflows new.value_len s ≡ false
    → IsValid (record s {
      entries = set s.entries i new;
      total_bytes = add32 s.total_bytes new.value_len;
    })
write-IsValid i old new s v at free taken ok_new absent fits = record {
  full_length = length-set s.entries i new ∙ v.full_length;
  counted =
      ground
        (arith, v.counted, v.bounded, ok_new.short, sum_by-set weight s.entries i old new at, fits);
  bounded = ground (arith, fits);
  cells = All-set CellIsValid s.entries i new ok_new v.cells;
  distinct = set-Distinct s.entries i new v.distinct absent;
}

record Freed (key : Bytes) (found : Option ℕ) (s t : Store) : Type 0 where
  trims : Trims s t
  absent : Absent key t.entries
  spare : IsSpare found t.entries
  inside : InRange found

free_found-Freed :
    (key : Bytes) (found : Option ℕ) (s : Store)
    → find_entry key s.entries ≡ found
    → IsValid s
    → Freed key found s (free_found found s)
free_found-Freed key none s e v = record {
  trims = Trims-refl s v;
  absent = find_entry-Absent key s.entries e;
  spare = tt;
  inside = tt;
}
free_found-Freed key (some i) s e v =
    let (c, at, h, _) = find_index_found (holds key) s.entries i e in
    let both : (c.used ≡ true) × (c.key ≡ key) = ground (arith, h, str_eq_iff c.key key) in
    let (m, _, gone) = free_used-Trims i s c at both.0 v in
    record {
      trims = m;
      absent = λ j f fat u k.
          let same = v.distinct i j c f at (m.shrinks j f fat u) both.0 u (both.1 ∙ sym k) in
          cc (same, gone);
      spare = λ f fat. cc (gone, fat);
      inside = omega (arith, v.full_length, lt_of_get_elem? s.entries i c at);
    }

-- What `cache_put` comes to once its arguments are accepted.
pub record Stored (key : Bytes) (new : Entry) (s : Store) (r : EspErr × Store) : Type 0 where
  pub status : r.0 ≡ ok
  pub valid : IsValid r.1
  pub held : peek key r.1 ≡ some new
  pub others : (k : Bytes) → k ≢ key → (peek k r.1 ≡ none) ⊎ (peek k r.1 ≡ peek k s)
  pub locked : r.1.lock ≡ s.lock

write_slot-Stored :
    (now expires_at : ℕ) (key value : Bytes) (i : ℕ) (s t : Store)
    → Trims s t
    → i < max_entries
    → IsSpare (some i) t.entries
    → Absent key t.entries
    → overflows (length value) t ≡ false
    → CellIsValid (new_entry now expires_at key value)
    → IsValid s
    → Stored key
        (new_entry now expires_at key value)
        s
        (write_slot now expires_at key value (some i) t)
write_slot-Stored now expires_at key value i s t m inside spare absent fits sound v =
    elim (Option-cases (get_elem? t.entries i)) [
      | inl out ↦ absurd (get_elem?-ne_none t.entries i (omega (arith, m.valid.full_length)) out)
      | inr (old, at) ↦
          let new = new_entry now expires_at key value in
          let good = write-IsValid i old new t m.valid at (spare old at) refl sound absent fits in
          let held = get_elem?-set_self t.entries i new (lt_of_get_elem? t.entries i old at) in
          rw (write_slot-fits now expires_at key value i t fits) (record {
            status = refl;
            valid = good;
            held = find?-of_Distinct (set t.entries i new) i new good.distinct held refl;
            others = λ k other.
                peek_kept k s.entries (set t.entries i new) v.distinct (λ j f fat u fk.
                  elim (get_elem?-set t.entries i j new f fat) [
                    | inl (_, fnew) ↦ absurd (other (sym fk ∙ ap (λ (x : Entry). x.key) fnew))
                    | inr (_, fat') ↦ m.shrinks j f fat' u
                  ]);
            locked = m.locked;
          })
    ]

pub put_locked-Stored :
    (now expires_at : ℕ) (key value : Bytes) (s : Store)
    → IsValid s
    → CellIsValid (new_entry now expires_at key value)
    → Stored key (new_entry now expires_at key value) s (put_locked now expires_at key value s)
unfolding put_locked
put_locked-Stored now expires_at key value s v sound =
    let found = find_entry key s.entries in
    let freed = free_found found s in
    let f = free_found-Freed key found s refl v in
    let (m, fits) =
      evict_until_fits-Trims evict_fuel (length value) found now freed
        (omega (arith, used_one-le s, v.full_length, f.trims.fewer)) sound.short f.spare
        f.trims.valid in
    let fitted = evict_until_fits evict_fuel (length value) found now freed in
    let slot =
      put_slot-Slot now found fitted m.valid f.inside
        (Trims-IsSpare found freed fitted m f.spare) in
    let ready = (put_slot now found fitted).1 in
    let all = Trims-trans s fitted ready (Trims-trans s freed fitted f.trims m) slot.trims in
    rw slot.points (
      write_slot-Stored now expires_at key value slot.index s ready all slot.inside slot.spare
        (Shrinks-Absent key freed.entries ready.entries
          (λ j c at u. m.shrinks j c (slot.trims.shrinks j c at u) u) f.absent)
        (ground (arith, fits, slot.trims.smaller, sound.short, m.valid.bounded)) sound v)

-- `free_entry` at the entry of a key drops that entry and no other.
pub free_entry-peek :
    (key : Bytes) (i : ℕ) (s : Store) (e : Entry)
    → find_entry key s.entries ≡ some i
    → get_elem? s.entries i ≡ some e
    → e.used ≡ true
    → e.key ≡ key
    → IsValid s
    → IsValid (free_entry i s)
      × (peek key (free_entry i s) ≡ none)
      × ((k : Bytes) → k ≢ key → peek k (free_entry i s) ≡ peek k s)
free_entry-peek key i s e found at u ek v =
    let f = free_found-Freed key (some i) s found v in
    (
      f.trims.valid,
      find?-of_Absent key (free_entry i s).entries f.absent,
      λ k ne. rw (free_entry-used i s e at u) (
          find?-set_miss (holds k) s.entries i e blank at (holds_ne k e (λ q. ne (sym q ∙ ek)))
            refl),
    )
