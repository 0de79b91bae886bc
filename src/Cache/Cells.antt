-- ===== src/Cache/Cells.antt =====
-- main/cache/cache_store.c: the cells, and the scans over them.
-- `s_entries` is a list of cells in array order, an index of -1 is `none`, and the file-scope
-- variables are the fields of `Store`. The timer's value and the outcome of an allocation are
-- arguments. A NULL string is `none`; a NULL output buffer is one of size 0.
use esp32_agent_mesh.Prelude.{
  ℕ, ◌+◌, ◌-◌, ◌^◌, Bool, true, false, not, ◌&&◌, Option, none, some, List, [], ◌∷◌, ltb, leb,
  if◌then◌else◌, get_elem?, set, replicate, find_index, Bytes, str_eq, is_empty, add32, sub32,
}

abbrev pub max_entries : ℕ
max_entries = 32

abbrev pub max_key_bytes : ℕ
max_key_bytes = 64

abbrev pub max_value_bytes : ℕ
max_value_bytes = 4096

abbrev pub max_total_bytes : ℕ
max_total_bytes = 24576

abbrev pub default_ttl_s : ℕ
default_ttl_s = 300

abbrev pub int64_max : ℕ
int64_max = 2 ^ 63 - 1

-- `cache_entry_t`. `esp_timer_get_time` is never negative, so the two times are numbers.
pub record Entry : Type 0 where
  pub used : Bool
  pub key : Bytes
  pub value : Bytes
  pub value_len : ℕ
  pub expires_at_us : ℕ
  pub last_access_us : ℕ
  pub hits : ℕ

pub record Store : Type 0 where
  pub entries : List Entry
  pub lock : Bool
  pub hits : ℕ
  pub misses : ℕ
  pub evictions : ℕ
  pub expired : ℕ
  pub truncated : ℕ
  pub total_bytes : ℕ

-- A cell after `memset(entry, 0, sizeof(*entry))`.
abbrev pub blank : Entry
blank = record {
  used = false;
  key = [];
  value = [];
  value_len = 0;
  expires_at_us = 0;
  last_access_us = 0;
  hits = 0;
}

-- The file-scope variables before `cache_store_init`.
abbrev pub unset : Store
unset = record {
  entries = replicate max_entries blank;
  lock = false;
  hits = 0;
  misses = 0;
  evictions = 0;
  expired = 0;
  truncated = 0;
  total_bytes = 0;
}

unfoldable pub is_expired : Entry → ℕ → Bool
is_expired e now = e.used && ltb 0 e.expires_at_us && leb e.expires_at_us now

-- `free_entry`: the cell after it, and `s_total_bytes`.
unfoldable pub free_cell : Entry → ℕ → Entry × ℕ
free_cell e total = if e.used then (blank, sub32 total e.value_len) else (e, total)

unfoldable pub free_entry : ℕ → Store → Store
unfolding free_cell
free_entry i s = elim (get_elem? s.entries i) [
  | none ↦ s
  | some e ↦ record s {
    entries = set s.entries i (free_cell e s.total_bytes).0;
    total_bytes = (free_cell e s.total_bytes).1;
  }
]

abbrev pub holds : Bytes → Entry → Bool
holds key e = e.used && str_eq e.key key

abbrev pub find_entry : Bytes → List Entry → Option ℕ
find_entry key = find_index (holds key)

abbrev pub find_free_entry : List Entry → Option ℕ
find_free_entry = find_index λ e. not e.used

-- The loop of `find_victim`, at cell `i`: the index returned, and whether `s_expired` is counted up.
unfoldable pub victim_from : ℕ → List Entry → ℕ → Option ℕ → ℕ → Option ℕ × Bool
unfolding is_expired
victim_from now [] i victim oldest = (victim, false)
victim_from now (e ∷ es) i victim oldest =
    let older = ltb e.last_access_us oldest in
    let rest =
      victim_from now es (i + 1) (if older then some i else victim)
        (if older then e.last_access_us else oldest) in
    if not e.used then (some i, false) else if is_expired e now then (some i, true) else rest

-- The loop of `find_used_victim`.
unfoldable pub used_victim_from : ℕ → List Entry → ℕ → Option ℕ → ℕ → Option ℕ × Bool
unfolding is_expired
used_victim_from now [] i victim oldest = (victim, false)
used_victim_from now (e ∷ es) i victim oldest =
    let older = e.used && ltb e.last_access_us oldest in
    let rest =
      used_victim_from now es (i + 1) (if older then some i else victim)
        (if older then e.last_access_us else oldest) in
    if e.used && is_expired e now then (some i, true) else rest

abbrev count_expired : Bool → Store → Store
count_expired seen s = if seen then record s { expired = add32 s.expired 1 } else s

unfoldable pub find_victim : ℕ → Store → Option ℕ × Store
unfolding victim_from
find_victim now s =
    let (victim, seen) = victim_from now s.entries 0 none int64_max in
    (victim, count_expired seen s)

unfoldable pub find_used_victim : ℕ → Store → Option ℕ × Store
find_used_victim now s =
    let (victim, seen) = used_victim_from now s.entries 0 none int64_max in
    (victim, count_expired seen s)

-- `!s || !s[0]`
abbrev pub is_blank : Option Bytes → Bool
is_blank none = true
is_blank (some s) = is_empty s

abbrev pub is_null : Option Bytes → Bool
is_null none = true
is_null (some s) = false

abbrev pub text : Option Bytes → Bytes
text none = []
text (some s) = s

-- What a cell adds to `stats->entries` and to `s_total_bytes`.
abbrev pub used_one : Entry → ℕ
used_one e = if e.used then 1 else 0

abbrev pub weight : Entry → ℕ
weight e = if e.used then e.value_len else 0
