-- ===== src/Mesh/Arrival.antt =====
-- main/sensors/sensor_mqtt.c: a result that arrived is found by the wait for it.
-- A note of a result: its time, the command's id and its text.
use esp32_agent_mesh.Prelude.{
  ◌==◌, Bool-cases, Option-cases, length, get_elem?, get_elem?-set_self, get_elem?-set_ne, find?,
  Bytes, str_eq_refl, copy_field, is_empty, copy_field_whole, ok, ℕ, zero, suc, ◌+◌, ◌-◌, ◌%◌, ◌≤◌,
  ◌<◌, ◌≡◌, ap, ◌∙◌, ◌≢◌, inl, inr, Bool, true, false, some, List, [], ◌∷◌, ◌++◌, arith,
}
use esp32_agent_mesh.Mesh.Command.{mesh_id_max}
use esp32_agent_mesh.Mesh.Outputs.{
  CachedOutput, OutputCache, output_cache_depth, is_output_of, cached_output, note_output,
  output_of, wait_output_polls, wait_output_message,
}

abbrev pub OutputNote : Type 0
OutputNote = ℕ × Bytes × Bytes

abbrev pub note_all : List OutputNote → OutputCache → OutputCache
note_all [] c = c
note_all ((ts_ms, command_id, json) ∷ notes) c =
    note_all notes (note_output ts_ms command_id json c)

find?-at :
    {A : Type 0} (test : A → Bool) (xs : List A) (i : ℕ) (a : A)
    → get_elem? xs i ≡ some a
    → test a ≡ true
    → (b : A) × (find? test xs ≡ some b)
unfolding find?
find?-at test [] i a h t = absurd (cc h)
find?-at test (x ∷ xs) zero a h t = let e : x ≡ a = ground (arith, h) in (x, rw (ap test e ∙ t))
find?-at test (x ∷ xs) (suc i) a h t = elim (Bool-cases (test x)) [
  | inl hit ↦ (x, rw hit)
  | inr miss ↦ let (b, e) = find?-at test xs i a h t in (b, rw miss e)
]

-- How many notes go by before cell `i` is written.
abbrev spared : ℕ → OutputCache → ℕ
spared i c = (i + 8 - c.next % 8) % 8

spared-note :
    (i ts_ms : ℕ) (command_id json : Bytes) (c : OutputCache)
    → i < 8
    → 0 < spared i c
    → (c.next % 8 ≢ i) × (spared i (note_output ts_ms command_id json c) + 1 ≡ spared i c)
unfolding note_output
spared-note i ts_ms command_id json c h k = (λ e. absurd (omega arith), omega arith)

kept :
    (notes : List OutputNote) (i : ℕ) (v : CachedOutput) (c : OutputCache)
    → i < 8
    → length notes ≤ spared i c
    → get_elem? c.cells i ≡ some v
    → get_elem? (note_all notes c).cells i ≡ some v
kept [] i v c h k at = at
kept ((ts_ms, command_id, json) ∷ notes) i v c h k at =
    let (other, fewer) = spared-note i ts_ms command_id json c h (omega arith) in
    kept notes i v (note_output ts_ms command_id json c) h (omega arith)
      (unfold note_output in get_elem?-set_ne c.cells (c.next % 8) i _ other ∙ at)

-- A result that is noted under an id that fits its field is in the cache as long as no more than
-- seven others are noted after it.
pub output_of-note_all :
    (ts_ms : ℕ) (command_id json : Bytes) (later : List OutputNote) (c : OutputCache)
    → length c.cells ≡ output_cache_depth
    → length command_id < mesh_id_max
    → length later ≤ 7
    → (item : CachedOutput) × (output_of command_id
          (note_all later (note_output ts_ms command_id json c))
        ≡ some item)
unfolding output_of
output_of-note_all ts_ms command_id json later c d fits few =
    let i = c.next % 8 in
    let v = cached_output ts_ms command_id json in
    let at =
      kept later i v (note_output ts_ms command_id json c) (omega arith)
        (unfold note_output in omega (arith, few))
        (unfold note_output in get_elem?-set_self c.cells i v (omega (arith, d))) in
    find?-at (is_output_of command_id) (note_all later (note_output ts_ms command_id json c)).cells
      i v at (rw (copy_field_whole mesh_id_max command_id fits) (str_eq_refl command_id))

wait_output_polls-found :
    (command_id : Bytes) (size : ℕ) (before : List OutputCache) (c : OutputCache)
    (after : List OutputCache) (item : CachedOutput)
    → output_of command_id c ≡ some item
    → (text : Bytes) × (wait_output_polls command_id size (before ++ c ∷ after) ≡ (ok, text))
unfolding wait_output_polls
wait_output_polls-found command_id size [] c after item h =
    (copy_field size item.output_json, rw (wait_output_polls, h))
wait_output_polls-found command_id size (b ∷ before) c after item h =
    let (text, e) = wait_output_polls-found command_id size before c after item h in
    elim (Option-cases (output_of command_id b)) [
      | inl n ↦ (text, rw (wait_output_polls, n) e)
      | inr (j, n) ↦ (copy_field size j.output_json, rw (wait_output_polls, n))
    ]

-- The wait for a command's result ends with a result, whatever else it sees before and after, if one
-- of its polls comes after the result was noted, with no more than seven others noted in between.
pub wait_output_message-arrives :
    (ts_ms size : ℕ) (command_id json : Bytes) (between : List OutputNote) (c : OutputCache)
    (before after : List OutputCache)
    → length c.cells ≡ output_cache_depth
    → length command_id < mesh_id_max
    → is_empty command_id ≡ false
    → 0 < size
    → length between ≤ 7
    → (text : Bytes) × (wait_output_message true command_id size
          (before ++ note_all between (note_output ts_ms command_id json c) ∷ after)
        ≡ (ok, text))
unfolding wait_output_message
wait_output_message-arrives ts_ms size command_id json between c before after d fits named room
      few =
    let (item, found) = output_of-note_all ts_ms command_id json between c d fits few in
    let (text, e) = wait_output_polls-found command_id size before _ after item found in
    let some_room : (size == 0) ≡ false = ground (arith, room) in (text, rw (named, some_room) e)
