-- ===== src/Agent/Text.antt =====
-- main/agent/agent_loop.c: texts cut between characters, and words found in them.
-- Of a first byte of UTF-8. `(c & 0xE0) == 0xC0` and the like say in which range the byte is.
use esp32_agent_mesh.Prelude.{
  ltb, leb, ◌==◌, if◌then◌else◌, length, take, drop, Bytes, str_eq, copy_field, is_empty, ℕ, zero,
  suc, ◌+◌, ◌-◌, Bool, true, false, not, ◌&&◌, ◌||◌, [], ◌∷◌,
}

unfoldable pub utf8_expected_len : ℕ → ℕ
utf8_expected_len c =
    if ltb c 128
    then 1
    else if leb 192 c && ltb c 224
    then 2
    else if leb 224 c && ltb c 240
    then 3
    else if leb 240 c && ltb c 248
    then 4
    else 0

-- `(cc & 0xC0) == 0x80`
abbrev pub is_continuation : ℕ → Bool
is_continuation c = leb 128 c && ltb c 192

abbrev pub all_continue : Bytes → Bool
all_continue [] = true
all_continue (c ∷ cs) = is_continuation c && all_continue cs

-- Whether a whole character stands at the start of the bytes that are left of `len`.
unfoldable pub starts_whole : Bytes → Bool
unfolding utf8_expected_len
starts_whole [] = false
starts_whole (c ∷ cs) =
    let need = utf8_expected_len c in
    not (need == 0) && leb need (suc (length cs)) && all_continue (take (need - 1) cs)

abbrev pub first_len : Bytes → ℕ
first_len [] = 0
first_len (c ∷ cs) = utf8_expected_len c

-- The loop, on fuel: each round takes at least a byte.
unfoldable pub whole_prefix_len : ℕ → Bytes → ℕ
unfolding starts_whole
whole_prefix_len zero s = 0
whole_prefix_len (suc fuel) s =
    let rest = whole_prefix_len fuel (drop (first_len s) s) in
    if starts_whole s then first_len s + rest else 0

unfoldable pub utf8_safe_prefix_len : Bytes → ℕ → ℕ
unfolding whole_prefix_len
utf8_safe_prefix_len buf len = whole_prefix_len len (take len buf)

-- What it leaves in the buffer.
unfoldable pub terminate_at_utf8_boundary : Bytes → ℕ → Bytes
unfolding utf8_safe_prefix_len
terminate_at_utf8_boundary buf len = take (utf8_safe_prefix_len buf len) buf

unfoldable pub compact_for_trace : ℕ → Bytes → Bytes
unfolding terminate_at_utf8_boundary
compact_for_trace out_size text =
    if out_size == 0
    then []
    else let out = copy_field out_size text in terminate_at_utf8_boundary out (length out)

abbrev pub is_white : ℕ → Bool
is_white c = c == b' ' || c == b'\n' || c == b'\r' || c == b'\t'

unfoldable pub skip_blank : Bytes → Bytes
skip_blank [] = []
skip_blank (c ∷ cs) = if is_white c then skip_blank cs else c ∷ cs

-- A blank is dropped where only blanks follow.
unfoldable pub drop_blank_end : Bytes → Bytes
drop_blank_end [] = []
drop_blank_end (c ∷ cs) =
    let rest = drop_blank_end cs in if is_white c && is_empty rest then [] else c ∷ rest

-- `word` is ESPAGENT_PROACTIVE_NO_MESSAGE.
unfoldable pub text_is_proactive_no_message : Bytes → Bytes → Bool
unfolding skip_blank drop_blank_end
text_is_proactive_no_message word text = str_eq (drop_blank_end (skip_blank text)) word
