-- ===== src/Mqtt/Length.antt =====
-- main/sensors/sensor_mqtt.c: the length field of an MQTT packet, up to four bytes of seven bits
-- each, the lowest first.
use esp32_agent_mesh.Prelude.{
  ltb, if◌then◌else◌, Bool-cases, Bytes, ℕ, zero, suc, ◌+◌, ◌*◌, ◌/◌, ◌%◌, ◌^◌, ◌<◌, ◌≡◌, ap, ◌∙◌,
  inl, inr, true, false, Option, none, some, [], ◌∷◌, ◌++◌, arith,
}

-- The `do` loop, on the rounds left of four. `byte |= 0x80` adds 128 to a byte under 128.
unfoldable pub encode_from : ℕ → ℕ → Bytes
encode_from zero value = []
encode_from (suc rounds) value =
    let rest = encode_from rounds (value / 128) in
    if ltb 0 (value / 128) then (value % 128 + 128) ∷ rest else (value % 128) ∷ []

unfoldable pub encode_remaining_len : ℕ → Bytes
encode_remaining_len value = encode_from 4 value

-- The `for` loop, on the rounds left of four, and what it leaves of the bytes in the socket.
unfoldable pub read_from : ℕ → ℕ → ℕ → Bytes → Option ℕ × Bytes
read_from zero multiplier value s = (none, s)
read_from (suc rounds) multiplier value [] = (none, [])
read_from (suc rounds) multiplier value (byte ∷ s) =
    let now = value + byte % 128 * multiplier in
    let rest = read_from rounds (multiplier * 128) now s in
    if ltb byte 128 then (some now, s) else rest

unfoldable pub read_remaining_len : Bytes → Option ℕ × Bytes
read_remaining_len s = read_from 4 1 0 s

-- What so many bytes can hold.
abbrev capacity : ℕ → ℕ
capacity zero = 1
capacity (suc rounds) = 128 * capacity rounds

shift_sum : (q r m a : ℕ) → a + r * m + q * (m * 128) ≡ a + (r + 128 * q) * m
shift_sum q r m a = grind arith

shift_lem : (v m a : ℕ) → a + v % 128 * m + v / 128 * (m * 128) ≡ a + v * m
shift_lem v m a =
    let whole : v % 128 + 128 * (v / 128) ≡ v = omega arith in
    shift_sum (v / 128) (v % 128) m a ∙ ap (λ n. a + n * m) whole

read_more :
    (rounds m a byte : ℕ) (s : Bytes)
    → ltb byte 128 ≡ false
    → read_from (suc rounds) m a (byte ∷ s) ≡ read_from rounds (m * 128) (a + byte % 128 * m) s
unfolding read_from
read_more rounds m a byte s h = rw h

read_last :
    (rounds m a byte : ℕ) (s : Bytes)
    → ltb byte 128 ≡ true
    → read_from (suc rounds) m a (byte ∷ s) ≡ (some (a + byte % 128 * m), s)
unfolding read_from
read_last rounds m a byte s h = rw h

room_left : (rounds v : ℕ) → v < capacity (suc rounds) → 0 < v / 128 → 0 < rounds
room_left zero v h p = absurd (omega arith)
room_left (suc rounds) v h p = omega arith

read_from-encode :
    (rounds m a v : ℕ) (s : Bytes)
    → v < capacity rounds
    → 0 < rounds
    → read_from rounds m a (encode_from rounds v ++ s) ≡ (some (a + v * m), s)
unfolding encode_from
read_from-encode zero m a v s h p = absurd (omega arith)
read_from-encode (suc rounds) m a v s h p = elim (Bool-cases (ltb 0 (v / 128))) [
  | inl more ↦
      let q = v / 128 in
      let r = v % 128 in
      let t = encode_from rounds q ++ s in
      let low : (r + 128) % 128 ≡ r = omega arith in
      let deep : 0 < rounds = room_left rounds v h (ground (arith, more)) in
      rw more (
        read_more rounds m a (r + 128) t (ground arith)
        ∙ ap (λ b. read_from rounds (m * 128) (a + b * m) t) low
        ∙ read_from-encode rounds (m * 128) (a + r * m) q s (omega (arith, h)) deep
        ∙ ap (λ n. (some n, s)) (shift_lem v m a))
  | inr done ↦
      let low : v % 128 % 128 ≡ v = ground (arith, done) in
      rw done
        (read_last rounds m a (v % 128) s (ground arith) ∙ ap (λ b. (some (a + b * m), s)) low)
]

-- A length under 2 ^ 28 is read back from the bytes that encode it, and exactly those bytes are
-- taken.
pub read_remaining_len-encode :
    (value : ℕ) (s : Bytes)
    → value < 2 ^ 28
    → read_remaining_len (encode_remaining_len value ++ s) ≡ (some value, s)
unfolding read_remaining_len encode_remaining_len
read_remaining_len-encode value s h =
    let read = read_from-encode 4 1 0 value s (omega (arith, h)) (omega arith) in
    rw read (ap (λ n. (some n, s)) (omega arith))
