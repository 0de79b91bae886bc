-- ===== src/Cache/Tests.antt =====
-- Runs of the cache on small inputs, and its theorems at inputs that meet their hypotheses.
use esp32_agent_mesh.Prelude.{
  set, find_index, find?, Bytes, codes, str_eq, ok, ◌≡◌, refl, subst, true, false, some, List, [],
  ◌∷◌, arith,
}
use esp32_agent_mesh.Cache.Cells.{Store, unset, is_expired}
use esp32_agent_mesh.Cache.Invariant.{IsValid}
use esp32_agent_mesh.Cache.Put.{
  evict_until_fits, put_slot, new_entry, write_slot, put_locked, expiry, cache_put,
}
use esp32_agent_mesh.Cache.Get.{read_entry, get_found, cache_get}
use esp32_agent_mesh.Cache.Lookup.{peek}
use esp32_agent_mesh.Cache.Storing.{Stored}
use esp32_agent_mesh.Cache.Reading.{IsValid-of_eq}
use esp32_agent_mesh.Cache.Laws.{cache_put-stores, cache_put-refused, cache_get-put}
use esp32_agent_mesh.Cache.Runs.{
  Call, inits, gets, puts, clears, run, unset-IsValid, run-unset-IsValid,
}

abbrev ready : Store
ready = record unset { lock = true }

ready-IsValid : IsValid ready
ready-IsValid = IsValid-of_eq unset ready unset-IsValid refl refl

abbrev night : Bytes
night = codes "night"

abbrev calm : Bytes
calm = codes "calm"

abbrev one_put : Store
one_put = record ready {
  entries = set ready.entries 0 (new_entry 5 (expiry 5 1) night calm);
  total_bytes = 4;
}

put_first : cache_put 5 true (some night) (some calm) 1 ready ≡ (ok, one_put)
unfolding cache_put put_locked evict_until_fits put_slot write_slot find_index str_eq
put_first = refl

get_first : (cache_get 9 (some night) 3 one_put).1 ≡ codes "ca"
unfolding cache_get get_found read_entry is_expired find_index str_eq
get_first = refl

cache_put-stores_example :
    Stored night
      (new_entry 5 (expiry 5 1) night calm)
      ready
      (cache_put 5 true (some night) (some calm) 1 ready)
cache_put-stores_example =
    cache_put-stores 5 1 night calm ready ready-IsValid refl (λ e. cc e) (omega arith) (omega arith)
      (omega arith)

one_put-IsValid : IsValid one_put
one_put-IsValid = subst (λ r. IsValid r.1) put_first cache_put-stores_example.valid

cache_put-refused_example : (cache_put 5 false (some night) (some calm) 1 ready).1 ≡ ready
unfolding cache_put
cache_put-refused_example =
    cache_put-refused 5 1 false (some night) (some calm) ready ready-IsValid (omega arith)
      (λ e. cc e)

cache_get-put_example :
    ((cache_get 8 (some night) 10 (cache_put 5 true (some night) (some calm) 1 ready).1).0 ≡ ok)
    × ((cache_get 8 (some night) 10 (cache_put 5 true (some night) (some calm) 1 ready).1).1 ≡ calm)
cache_get-put_example =
    cache_get-put 5 8 1 10 night calm ready ready-IsValid refl (λ e. cc e) (omega arith)
      (omega arith) (omega arith) (omega arith) (omega arith)

one_put-peek : peek night one_put ≡ some (new_entry 5 (expiry 5 1) night calm)
unfolding find? str_eq
one_put-peek = refl

abbrev history : List Call
history =
    inits true ∷ puts 5 true (some night) (some calm) 1 ∷ gets 2000000 (some night) 8 ∷ clears ∷ []

run-unset-IsValid_example : IsValid (run unset history)
run-unset-IsValid_example = run-unset-IsValid history (omega arith)
