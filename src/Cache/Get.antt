-- ===== src/Cache/Get.antt =====
-- main/cache/cache_store.c: `cache_get`, the deletions and the statistics.
use esp32_agent_mesh.Prelude.{
  sum_by, ℕ, ◌-◌, Bool, true, not, ◌&&◌, ◌||◌, Option, none, some, List, [], ◌∷◌, ltb, ◌==◌,
  if◌then◌else◌, get_elem?, set, take, Bytes, has_prefix, add32, EspErr, ok, invalid_arg,
  invalid_size, not_found,
}
use esp32_agent_mesh.Cache.Cells.{
  used_one, Entry, Store, is_expired, free_cell, free_entry, find_entry, is_blank, is_null, text,
}

-- `cache_get` once an unexpired entry is found. `out_size - 1` is taken only at `out_size > 0`.
unfoldable pub read_entry : ℕ → ℕ → ℕ → Entry → Store → EspErr × Bytes × Store
read_entry now out_size i e s =
    let copy = if ltb e.value_len (out_size - 1) then e.value_len else out_size - 1 in
    let touched = record e { last_access_us = now; hits = add32 e.hits 1 } in
    let whole = copy == e.value_len in
    (
      if whole then ok else invalid_size,
      take copy e.value,
      record s {
        entries = set s.entries i touched;
        hits = add32 s.hits 1;
        truncated = if whole then s.truncated else add32 s.truncated 1;
      },
    )

-- `cache_get` behind its argument checks, on what `find_entry` returned.
unfoldable pub get_found : ℕ → ℕ → Option ℕ → Store → EspErr × Bytes × Store
unfolding read_entry free_entry is_expired
get_found now out_size none s = (not_found, [], record s { misses = add32 s.misses 1 })
get_found now out_size (some i) s = elim (get_elem? s.entries i) [
  | none ↦ (not_found, [], s)
  | some e ↦
      if is_expired e now
      then (
        not_found,
        [],
        let freed = free_entry i s in
            record freed { misses = add32 freed.misses 1; expired = add32 freed.expired 1 },
      )
      else read_entry now out_size i e s
]

-- The status, what is left in `out`, and the store.
unfoldable pub cache_get : ℕ → Option Bytes → ℕ → Store → EspErr × Bytes × Store
cache_get now key out_size s =
    if is_blank key || out_size == 0 || not s.lock
    then (invalid_arg, [], s)
    else get_found now out_size (find_entry (text key) s.entries) s

unfoldable pub delete_found : Option ℕ → Store → EspErr × Store
delete_found none s = (not_found, s)
delete_found (some i) s = (ok, free_entry i s)

unfoldable pub cache_delete : Option Bytes → Store → EspErr × Store
unfolding delete_found
cache_delete key s =
    if is_blank key || not s.lock
    then (invalid_arg, s)
    else delete_found (find_entry (text key) s.entries) s

-- `free_entry` on each cell that passes the test, in array order.
unfoldable pub sweep : (Entry → Bool) → List Entry → ℕ → List Entry × ℕ
unfolding free_cell
sweep test [] total = ([], total)
sweep test (e ∷ es) total =
    let (e', total') = if test e then free_cell e total else (e, total) in
    let (es', total'') = sweep test es total' in (e' ∷ es', total'')

unfoldable pub cache_delete_prefix : Option Bytes → Store → EspErr × Store
unfolding sweep
cache_delete_prefix prefix s =
    if is_null prefix || not s.lock
    then (invalid_arg, s)
    else let swept =
        sweep (λ e. e.used && has_prefix (text prefix) e.key) s.entries s.total_bytes in
      (ok, record s { entries = swept.0; total_bytes = swept.1 })

unfoldable pub cache_clear : Store → Store
unfolding sweep
cache_clear s = if not s.lock then s else record s {
  entries = (sweep (λ e. true) s.entries s.total_bytes).0;
  hits = 0;
  misses = 0;
  evictions = 0;
  expired = 0;
  truncated = 0;
  total_bytes = 0;
}

-- `cache_stats_t`
pub record Stats : Type 0 where
  pub hits : ℕ
  pub misses : ℕ
  pub evictions : ℕ
  pub expired : ℕ
  pub truncated : ℕ
  pub entries : ℕ
  pub bytes : ℕ

unfoldable pub cache_stats : Store → Stats
cache_stats s =
    if not s.lock
    then record {
      hits = 0;
      misses = 0;
      evictions = 0;
      expired = 0;
      truncated = 0;
      entries = 0;
      bytes = 0;
    }
    else record {
      hits = s.hits;
      misses = s.misses;
      evictions = s.evictions;
      expired = s.expired;
      truncated = s.truncated;
      entries = sum_by used_one s.entries;
      bytes = s.total_bytes;
    }
