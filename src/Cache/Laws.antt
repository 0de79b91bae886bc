-- ===== src/Cache/Laws.antt =====
-- main/cache/cache_store.c: what each operation of the cache promises its callers.
use esp32_agent_mesh.Prelude.{
  ltb, leb, if◌then◌else◌, Bool-cases, Option-cases, length, sum_by, Bytes, has_prefix, ok,
  not_found, ℕ, ◌≤◌, ◌<◌, ◌≡◌, refl, ◌∙◌, ◌≢◌, inl, inr, Bool, true, ◌&&◌, ◌||◌, Option, none, some,
  [], arith,
}
use esp32_agent_mesh.Cache.Cells.{
  max_entries, max_key_bytes, max_value_bytes, max_total_bytes, int64_max, Entry, Store, is_expired,
  find_entry, weight,
}
use esp32_agent_mesh.Cache.Invariant.{IsValid}
use esp32_agent_mesh.Cache.Put.{new_entry, expiry, cache_put}
use esp32_agent_mesh.Cache.Get.{
  get_found, cache_get, delete_found, cache_delete, cache_delete_prefix, cache_stats,
}
use esp32_agent_mesh.Cache.Lookup.{peek, peek_located}
use esp32_agent_mesh.Cache.Storing.{used_one-le, Stored, put_locked-Stored, free_entry-peek}
use esp32_agent_mesh.Cache.Reading.{cache_get-hit}
use esp32_agent_mesh.Cache.Sweeping.{
  sweep_store, sweep_store-Trims, peek-sweep_store, peek-sweep_store_kept,
}

-- On an initialised, valid store and arguments within the limits, with a timer short of the end
-- of its range, `cache_put` succeeds whatever the store holds: it keeps the invariant (the byte
-- count and its limit, distinct keys), `key` leads to the new entry, and every other key has the
-- entry that it had, or none.
pub cache_put-stores :
    (now ttl_s : ℕ) (key value : Bytes) (s : Store)
    → IsValid s
    → s.lock ≡ true
    → key ≢ []
    → length key < max_key_bytes
    → length value ≤ max_value_bytes
    → now < int64_max
    → Stored key
        (new_entry now (expiry now ttl_s) key value)
        s
        (cache_put now true (some key) (some value) ttl_s s)
unfolding cache_put
cache_put-stores now ttl_s key value s v l ne hk hv hn =
    let stored =
      put_locked-Stored now (expiry now ttl_s) key value s v
        (record { measured = refl; short = hv; key_short = hk; recent = hn }) in
    ground (arith, ne, l, stored)

-- When `cache_put` on a valid store returns an error, the store is as it was, with a timer short
-- of the end of its range.
pub cache_put-refused :
    (now ttl_s : ℕ) (allocated : Bool) (key value : Option Bytes) (s : Store)
    → IsValid s
    → now < int64_max
    → (cache_put now allocated key value ttl_s s).0 ≢ ok
    → (cache_put now allocated key value ttl_s s).1 ≡ s
unfolding cache_put
cache_put-refused now ttl_s allocated none value s v hn h = refl
cache_put-refused now ttl_s allocated (some k) none s v hn h = ground arith
cache_put-refused now ttl_s allocated (some k) (some x) s v hn h =
    elim (Bool-cases (leb max_key_bytes (length k) || ltb max_value_bytes (length x))) [
      | inl long ↦ ground (arith, long)
      | inr fits ↦ ground (
        arith,
        fits,
        put_locked-Stored now (expiry now ttl_s) k x s v (record {
          measured = refl;
          short = ground (arith, fits);
          key_short = ground (arith, fits);
          recent = hn;
        }),
      )
    ]

-- In an initialised, valid store, what was put within the limits is read back, whole, by a later
-- `cache_get` with a buffer longer than the value, until the entry expires.
pub cache_get-put :
    (now later ttl_s out_size : ℕ) (key value : Bytes) (s : Store)
    → IsValid s
    → s.lock ≡ true
    → key ≢ []
    → length key < max_key_bytes
    → length value ≤ max_value_bytes
    → now < int64_max
    → later < expiry now ttl_s
    → length value < out_size
    → let t = (cache_put now true (some key) (some value) ttl_s s).1 in
      ((cache_get later (some key) out_size t).0 ≡ ok)
      × ((cache_get later (some key) out_size t).1 ≡ value)
cache_get-put now later ttl_s out_size key value s v l ne hk hv hn soon fits =
    let stored = cache_put-stores now ttl_s key value s v l ne hk hv hn in
    cache_get-hit later key out_size _ (new_entry now (expiry now ttl_s) key value) stored.valid
      (stored.locked ∙ l) ne stored.held (unfold is_expired in ground arith) fits

get_checked :
    (now : ℕ) (key : Bytes) (out_size : ℕ) (s : Store)
    → s.lock ≡ true
    → key ≢ []
    → 0 < out_size
    → cache_get now (some key) out_size s ≡ get_found now out_size (find_entry key s.entries) s
unfolding cache_get
get_checked now key out_size s l ne room = ground (arith, l, ne, room)

-- In an initialised, valid store, once the entry of a key has expired, `cache_get` of the key
-- into a buffer that is not empty reports that it is not found, writes nothing, and drops the
-- entry; no other key is touched.
pub cache_get-expired :
    (now : ℕ) (key : Bytes) (out_size : ℕ) (s : Store) (e : Entry)
    → IsValid s
    → s.lock ≡ true
    → key ≢ []
    → 0 < out_size
    → peek key s ≡ some e
    → is_expired e now ≡ true
    → let r = cache_get now (some key) out_size s in
      (r.0 ≡ not_found)
      × (r.1 ≡ [])
      × (peek key r.2 ≡ none)
      × ((k : Bytes) → k ≢ key → peek k r.2 ≡ peek k s)
unfolding get_found
cache_get-expired now key out_size s e v l ne room p old =
    let (i, found, at, u, ek) = peek_located key s e p in
    let (_, gone, others) = free_entry-peek key i s e found at u ek v in
    rw (get_checked now key out_size s l ne room, found, at, get_found)
      (rw old (refl, refl, gone, others))

delete_checked :
    (key : Bytes) (s : Store)
    → s.lock ≡ true
    → key ≢ []
    → cache_delete (some key) s ≡ delete_found (find_entry key s.entries) s
unfolding cache_delete
delete_checked key s l ne = ground (arith, l, ne)

-- In an initialised, valid store, `cache_delete` of a key that has an entry succeeds and keeps
-- the invariant; afterwards the key has no entry, and every other key has the one it had.
pub cache_delete-removes :
    (key : Bytes) (s : Store) (e : Entry)
    → IsValid s
    → s.lock ≡ true
    → key ≢ []
    → peek key s ≡ some e
    → let r = cache_delete (some key) s in
      (r.0 ≡ ok)
      × IsValid r.1
      × (peek key r.1 ≡ none)
      × ((k : Bytes) → k ≢ key → peek k r.1 ≡ peek k s)
unfolding delete_found
cache_delete-removes key s e v l ne p =
    let (i, found, at, u, ek) = peek_located key s e p in
    let (good, gone, others) = free_entry-peek key i s e found at u ek v in
    rw (delete_checked key s l ne, found, delete_found) (refl, good, gone, others)

abbrev starts : Bytes → Entry → Bool
starts prefix e = e.used && has_prefix prefix e.key

prefix_checked :
    (prefix : Bytes) (s : Store)
    → s.lock ≡ true
    → cache_delete_prefix (some prefix) s ≡ (ok, sweep_store (starts prefix) s)
unfolding cache_delete_prefix
prefix_checked prefix s l = ground (arith, l)

-- In an initialised, valid store, `cache_delete_prefix` succeeds, keeps the invariant, and drops
-- the entries whose key begins with the prefix, and no other.
pub cache_delete_prefix_lem :
    (prefix : Bytes) (k : Bytes) (s : Store)
    → IsValid s
    → s.lock ≡ true
    → let r = cache_delete_prefix (some prefix) s in
      (r.0 ≡ ok) × IsValid r.1 × (peek k r.1 ≡ (if has_prefix prefix k then none else peek k s))
cache_delete_prefix_lem prefix k s v l = rw (prefix_checked prefix s l) (
  refl,
  (sweep_store-Trims (starts prefix) s v).valid,
  elim (Option-cases (peek k s)) [
    | inl nothing ↦
        peek-sweep_store (starts prefix) k s v (λ e p. absurd (cc (nothing, p)))
        ∙ ground (arith, nothing)
    | inr (e, p) ↦
        let (_, _, _, u, ek) = peek_located k s e p in
        elim (Bool-cases (has_prefix prefix k)) [
          | inl hit ↦
              rw hit
                (peek-sweep_store (starts prefix) k s v (λ f q. ground (arith, p, q, u, ek, hit)))
          | inr miss ↦
              rw (miss, p)
                (peek-sweep_store_kept (starts prefix) k s e v p (ground (arith, u, ek, miss)))
        ]
  ],
)

-- On an initialised, valid store `cache_stats` never reports more than the limits on entries and
-- bytes, and its byte count is the sum over the used cells.
pub cache_stats_bounds :
    (s : Store)
    → IsValid s
    → s.lock ≡ true
    → ((cache_stats s).entries ≤ max_entries)
      × ((cache_stats s).bytes ≤ max_total_bytes)
      × ((cache_stats s).bytes ≡ sum_by weight s.entries)
unfolding cache_stats
cache_stats_bounds s v l = ground (arith, l, v.counted, v.bounded, v.full_length, used_one-le s)
