-- ===== src/Cache/Runs.antt =====
-- main/cache/cache_store.c: histories of calls, from the zeroed file-scope variables on.
use esp32_agent_mesh.Prelude.{
  ltb, leb, Bool-cases, Option-cases, if_cases, length, get_elem?, replicate, All, find_index_found,
  Bytes, has_prefix, EspErr, ok, no_mem, invalid_arg, ℕ, zero, suc, ◌<◌, ◌≡◌, refl, sym, inl, inr,
  Bool, true, false, not, ◌&&◌, ◌||◌, Option, some, List, [], ◌∷◌, arith,
}
use esp32_agent_mesh.Cache.Cells.{
  max_key_bytes, max_value_bytes, int64_max, Entry, Store, blank, unset, holds, find_entry,
  is_blank, is_null, text,
}
use esp32_agent_mesh.Cache.Invariant.{CellIsValid, IsValid, free_used-Trims}
use esp32_agent_mesh.Cache.Put.{cache_store_init, new_entry, expiry, cache_put}
use esp32_agent_mesh.Cache.Get.{
  cache_get, delete_found, cache_delete, cache_delete_prefix, cache_clear,
}
use esp32_agent_mesh.Cache.Storing.{put_locked-Stored}
use esp32_agent_mesh.Cache.Reading.{IsValid-of_eq, cache_get-IsValid}
use esp32_agent_mesh.Cache.Sweeping.{sweep_store-Trims, sweep_all}

-- A call, with the timer's value and the outcome of an allocation where it reads them.
pub data Call : Type 0 where
  inits : Bool → Call
  gets : ℕ → Option Bytes → ℕ → Call
  puts : ℕ → Bool → Option Bytes → Option Bytes → ℕ → Call
  deletes : Option Bytes → Call
  deletes_prefix : Option Bytes → Call
  clears : Call

pub step : Store → Call → Store
step s (inits mutex_made) = (cache_store_init mutex_made s).1
step s (gets now key out_size) = (cache_get now key out_size s).2
step s (puts now allocated key value ttl_s) = (cache_put now allocated key value ttl_s s).1
step s (deletes key) = (cache_delete key s).1
step s (deletes_prefix prefix) = (cache_delete_prefix prefix s).1
step s clears = cache_clear s

pub run : Store → List Call → Store
run s [] = s
run s (c ∷ cs) = run (step s c) cs

-- The timer has not reached the end of its range.
abbrev pub IsTimely : Call → Type 0
IsTimely (gets now key out_size) = now < int64_max
IsTimely (puts now allocated key value ttl_s) = now < int64_max
IsTimely _ = Unit {0}

unset-cells : All CellIsValid unset.entries
unset-cells = omega arith

unset_blank : (n i : ℕ) (e : Entry) → get_elem? (replicate n blank) i ≡ some e → e.used ≡ false
unset_blank zero i e h = absurd (cc h)
unset_blank (suc n) zero e h = ground (arith, h)
unset_blank (suc n) (suc i) e h = unset_blank n i e h

pub unset-IsValid : IsValid unset
unset-IsValid = record {
  full_length = refl;
  counted = refl;
  bounded = omega arith;
  cells = unset-cells;
  distinct = λ i j e f p q u w k. absurd (cc (unset_blank 32 i e p, u));
}

abbrev Keeps : EspErr × Store → Type 0
Keeps r = IsValid r.1

init-IsValid : (made : Bool) (s : Store) → IsValid s → IsValid (cache_store_init made s).1
unfolding cache_store_init
init-IsValid made s v =
    if_cases Keeps s.lock (ok, s) _ (λ _. v)
      (λ _.
        if_cases Keeps made (ok, record s { lock = true }) (no_mem, s)
          (λ _. IsValid-of_eq s (record s { lock = true }) v refl refl) (λ _. v))

put-IsValid :
    (now ttl_s : ℕ) (allocated : Bool) (key value : Option Bytes) (s : Store)
    → IsValid s
    → now < int64_max
    → IsValid (cache_put now allocated key value ttl_s s).1
unfolding cache_put
put-IsValid now ttl_s allocated key value s v h =
    elim (Bool-cases (is_blank key || is_null value || not s.lock)) [
      | inl bad ↦ rw bad v
      | inr given ↦
          elim (Bool-cases
            (leb max_key_bytes (length (text key)) || ltb max_value_bytes (length (text value)))) [
              | inl long ↦ rw (given, long) v
              | inr fits ↦ elim (Bool-cases (not allocated)) [
                | inl none_left ↦ rw (given, fits, none_left) v
                | inr have ↦
                    let new = new_entry now (expiry now ttl_s) (text key) (text value) in
                    let sound : CellIsValid new = record {
                      measured = refl;
                      short = ground (arith, fits);
                      key_short = ground (arith, fits);
                      recent = h;
                    } in
                    rw (given, fits, have)
                      (put_locked-Stored now (expiry now ttl_s) (text key) (text value) s v
                        sound).valid
              ]
            ]
    ]

free_found-IsValid :
    (key : Bytes) (s : Store) → IsValid s → IsValid (delete_found (find_entry key s.entries) s).1
unfolding delete_found
free_found-IsValid key s v = elim (Option-cases (find_entry key s.entries)) [
  | inl n ↦ rw (n, delete_found) v
  | inr (i, found) ↦
      let (c, at, hit, _) = find_index_found (holds key) s.entries i found in
      rw (found, delete_found) (free_used-Trims i s c at (ground (arith, hit)) v).0.valid
]

clear-IsValid : (s : Store) → IsValid s → IsValid (cache_clear s)
unfolding cache_clear
clear-IsValid s v =
    let t = (sweep_store-Trims (λ e. true) s v).valid in
    if_cases IsValid (not s.lock) s _ (λ _. v)
      (λ _. record {
        full_length = t.full_length;
        counted = sym (sweep_all s.entries s.total_bytes);
        bounded = omega arith;
        cells = t.cells;
        distinct = t.distinct;
      })

step-IsValid : (s : Store) (c : Call) → IsTimely c → IsValid s → IsValid (step s c)
unfolding step cache_delete cache_delete_prefix
step-IsValid s (inits made) t v = init-IsValid made s v
step-IsValid s (gets now key out_size) t v = cache_get-IsValid now key out_size s v t
step-IsValid s (puts now allocated key value ttl_s) t v =
    put-IsValid now ttl_s allocated key value s v t
step-IsValid s (deletes key) t v =
    if_cases Keeps _ (invalid_arg, s) _ (λ _. v) (λ _. free_found-IsValid (text key) s v)
step-IsValid s (deletes_prefix prefix) t v =
    if_cases Keeps _ (invalid_arg, s) _ (λ _. v)
      (λ _. (sweep_store-Trims (λ e. e.used && has_prefix (text prefix) e.key) s v).valid)
step-IsValid s clears t v = clear-IsValid s v

run-IsValid : (cs : List Call) (s : Store) → All IsTimely cs → IsValid s → IsValid (run s cs)
unfolding run
run-IsValid [] s t v = v
run-IsValid (c ∷ cs) s t v = run-IsValid cs (step s c) t.1 (step-IsValid s c t.0 v)

-- After any history of calls from the zeroed variables on, with a timer short of the end of its range,
-- the store is valid: its byte count is the sum over the used cells and
-- within the limit, no key is held twice, and keys and values are within their limits.
pub run-unset-IsValid : (cs : List Call) → All IsTimely cs → IsValid (run unset cs)
run-unset-IsValid cs t = run-IsValid cs unset t unset-IsValid
