-- ===== src/Cache/Slot.antt =====
-- main/cache/cache_store.c: the slot that `cache_put` writes.
use esp32_agent_mesh.Prelude.{
  ℕ, ◌<◌, ◌≡◌, refl, inl, inr, not, Option, none, some, arith, Option-cases, lt_of_get_elem?,
  find_index-none, find_index_found,
}
use esp32_agent_mesh.Cache.Cells.{max_entries, Entry, Store, find_free_entry, find_victim}
use esp32_agent_mesh.Cache.Invariant.{IsValid, Trims, Trims-refl, Trims-trans}
use esp32_agent_mesh.Cache.Put.{evict, put_slot}
use esp32_agent_mesh.Cache.Eviction.{IsSpare, Trims-of_eq, evict-Trims}
use esp32_agent_mesh.Cache.Victim.{find_victim-is_some}

abbrev pub InRange : Option ℕ → Type 0
InRange none = Unit {0}
InRange (some i) = i < max_entries

pub counted_expired :
    (now : ℕ) (s : Store)
    → ((find_victim now s).1.entries ≡ s.entries)
      × ((find_victim now s).1.total_bytes ≡ s.total_bytes)
      × ((find_victim now s).1.lock ≡ s.lock)
unfolding find_victim
counted_expired now s = ground arith

-- Where `put_slot` points: a spare cell of the array, in a store that has lost entries at most.
pub record Slot (s : Store) (r : Option ℕ × Store) : Type 0 where
  pub index : ℕ
  pub points : r.0 ≡ some index
  pub inside : index < max_entries
  pub spare : IsSpare (some index) r.1.entries
  pub trims : Trims s r.1

take_victim-Slot :
    (now : ℕ) (s : Store)
    → IsValid s
    → find_free_entry s.entries ≡ none
    → Slot s (put_slot now none s)
unfolding put_slot
take_victim-Slot now s v nothing =
    let (i, e, found, held) = find_victim-is_some now s v in
    let (se, sb, sl) = counted_expired now s in
    let t = (find_victim now s).1 in
    let m = Trims-of_eq s s t (Trims-refl s v) se sb sl in
    let u = find_index-none (λ (f : Entry). not f.used) s.entries nothing i e held in
    let (m', _, (f, at, free)) = evict-Trims i t e (rw se held) (ground (arith, u)) m.valid in
    rw (nothing, found, put_slot)
      (record {
        index = i;
        points = refl;
        inside = omega (arith, v.full_length, lt_of_get_elem? s.entries i e held);
        spare = λ g at'. cc (at, at', free);
        trims = Trims-trans s t (evict i t) m m';
      })

pub put_slot-Slot :
    (now : ℕ) (found : Option ℕ) (s : Store)
    → IsValid s
    → InRange found
    → IsSpare found s.entries
    → Slot s (put_slot now found s)
unfolding put_slot
put_slot-Slot now (some i) s v inside spare = record {
  index = i;
  points = refl;
  inside = inside;
  spare = spare;
  trims = Trims-refl s v;
}
put_slot-Slot now none s v inside spare = elim (Option-cases (find_free_entry s.entries)) [
  | inl nothing ↦ take_victim-Slot now s v nothing
  | inr (i, free) ↦
      let (e, held, unused, _) = find_index_found (λ (f : Entry). not f.used) s.entries i free in
      rw (free, put_slot)
        (record {
          index = i;
          points = refl;
          inside = omega (arith, v.full_length, lt_of_get_elem? s.entries i e held);
          spare = λ g at. ground (arith, held, at, unused);
          trims = Trims-refl s v;
        })
]
