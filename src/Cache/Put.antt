-- ===== src/Cache/Put.antt =====
-- main/cache/cache_store.c: `evict_until_fits` and `cache_put`.
use esp32_agent_mesh.Prelude.{
  ℕ, zero, suc, ◌+◌, ◌*◌, Bool, true, false, not, ◌||◌, Option, none, some, ltb, leb, ◌==◌,
  if◌then◌else◌, length, set, Bytes, add32, EspErr, ok, no_mem, invalid_arg, invalid_size,
}
use esp32_agent_mesh.Cache.Cells.{
  max_key_bytes, max_value_bytes, max_total_bytes, default_ttl_s, Entry, Store, free_entry,
  find_entry, find_free_entry, find_victim, find_used_victim, is_blank, is_null, text,
}

abbrev pub is_protected : ℕ → Option ℕ → Bool
is_protected victim none = false
is_protected victim (some i) = victim == i

-- `free_entry(&s_entries[victim]); s_evictions++;`
unfoldable pub evict : ℕ → Store → Store
unfolding free_entry
evict victim s =
    let freed = free_entry victim s in record freed { evictions = add32 freed.evictions 1 }

abbrev pub overflows : ℕ → Store → Bool
overflows incoming s = ltb max_total_bytes (add32 s.total_bytes incoming)

-- The `while` loop, on fuel: every round frees a used cell.
unfoldable pub evict_until_fits : ℕ → ℕ → Option ℕ → ℕ → Store → Store
evict_until_fits zero incoming guarded now s = s
evict_until_fits (suc fuel) incoming guarded now s = elim (overflows incoming s) [
  | false ↦ s
  | true ↦ elim (find_used_victim now s).0 [
    | none ↦ (find_used_victim now s).1
    | some victim ↦ elim (is_protected victim guarded) [
      | true ↦ (find_used_victim now s).1
      | false ↦ evict_until_fits fuel incoming guarded now (evict victim (find_used_victim now s).1)
    ]
  ]
]

-- One round more than there are cells.
abbrev pub evict_fuel : ℕ
evict_fuel = 33

unfoldable pub cache_store_init : Bool → Store → EspErr × Store
cache_store_init mutex_made s =
    if s.lock then (ok, s) else if mutex_made then (ok, record s { lock = true }) else (no_mem, s)

-- The slot that `cache_put` writes, on what `find_entry` returned.
unfoldable pub put_slot : ℕ → Option ℕ → Store → Option ℕ × Store
put_slot now (some i) s = (some i, s)
put_slot now none s = elim (find_free_entry s.entries) [
  | some i ↦ (some i, s)
  | none ↦ elim (find_victim now s).0 [
    | none ↦ (none, (find_victim now s).1)
    | some i ↦ (some i, evict i (find_victim now s).1)
  ]
]

abbrev pub new_entry : ℕ → ℕ → Bytes → Bytes → Entry
new_entry now expires_at key value = record {
  used = true;
  key = key;
  value = value;
  value_len = length value;
  expires_at_us = expires_at;
  last_access_us = now;
  hits = 0;
}

-- The end of `cache_put`: a capacity check, then the entry.
unfoldable pub write_slot : ℕ → ℕ → Bytes → Bytes → Option ℕ → Store → EspErr × Store
write_slot now expires_at key value none s = (no_mem, s)
write_slot now expires_at key value (some i) s =
    if overflows (length value) s then (no_mem, s) else (
      ok,
      record s {
        entries = set s.entries i (new_entry now expires_at key value);
        total_bytes = add32 s.total_bytes (length value);
      },
    )

abbrev pub free_found : Option ℕ → Store → Store
free_found none s = s
free_found (some i) s = free_entry i s

-- `cache_put` between taking and giving the lock.
unfoldable pub put_locked : ℕ → ℕ → Bytes → Bytes → Store → EspErr × Store
put_locked now expires_at key value s =
    let found = find_entry key s.entries in
    let freed = free_found found s in
    let fitted = evict_until_fits evict_fuel (length value) found now freed in
    let (slot, ready) = put_slot now found fitted in write_slot now expires_at key value slot ready

-- The source has an `int64_t` here; the number is not cut to its range.
abbrev pub expiry : ℕ → ℕ → ℕ
expiry now ttl_s = now + (if ttl_s == 0 then default_ttl_s else ttl_s) * 1000000

unfoldable pub cache_put : ℕ → Bool → Option Bytes → Option Bytes → ℕ → Store → EspErr × Store
cache_put now allocated key value ttl_s s =
    if is_blank key || is_null value || not s.lock
    then (invalid_arg, s)
    else if leb max_key_bytes (length (text key)) || ltb max_value_bytes (length (text value))
    then (invalid_size, s)
    else if not allocated
    then (no_mem, s)
    else put_locked now (expiry now ttl_s) (text key) (text value) s
