-- ===== src/Mqtt/Stream.antt =====
-- main/sensors/sensor_mqtt.c: what is published is what a poll reads, packet after packet.
use esp32_agent_mesh.Prelude.{
  ltb, leb, ◌==◌, Bool-cases, length, take, drop, All, length-append, take-append, drop-append,
  take-drop, Bytes, ℕ, zero, suc, ◌+◌, ◌*◌, ◌/◌, ◌%◌, ◌≤◌, ◌<◌, ◌≡◌, refl, sym, ap, ap₂, ◌∙◌, ◌≢◌,
  inl, inr, true, false, Option, none, some, List, [], ◌∷◌, ◌++◌, map, append_assoc, arith,
}
use esp32_agent_mesh.Mqtt.Length.{encode_remaining_len, read_remaining_len-encode}
use esp32_agent_mesh.Mqtt.Packets.{
  mqtt_buf_size, mqtt_write_string, framed, publish_packet, write_all, split_publish, read_payload,
  read_packet, mqtt_poll_inbound,
}

-- If `write_all` reports success, all bytes were taken, in order.
pub write_all-whole :
    (sends : List ℕ) (bytes : Bytes)
    → (write_all sends bytes).0 ≡ true
    → (write_all sends bytes).1 ≡ bytes
unfolding write_all
write_all-whole sends [] h = refl
write_all-whole [] (b ∷ bs) h = absurd (cc h)
write_all-whole (n ∷ sends) (b ∷ bs) h = elim (Bool-cases (n == 0)) [
  | inl stopped ↦ absurd (cc (rw stopped at h))
  | inr went ↦ rw went (
      ap (◌++◌ (take n (b ∷ bs))) (write_all-whole sends (drop n (b ∷ bs)) (rw went at h))
      ∙ take-drop n (b ∷ bs))
]

split_publish-string :
    (topic payload : Bytes)
    → length topic < 65536
    → payload ≢ []
    → split_publish (mqtt_write_string topic ++ payload) ≡ some (topic, payload)
unfolding split_publish mqtt_write_string
split_publish-string topic [] short full = absurd (full refl)
split_publish-string topic (c ∷ cs) short full =
    let n = length topic in
    let rest = topic ++ c ∷ cs in
    let whole : n / 256 % 256 * 256 + n % 256 ≡ n = omega (arith, short) in
    let more : ltb n (length rest) ≡ true = ground (arith, length-append topic (c ∷ cs)) in
    rw (whole, more)
      (ap₂ (λ t p. some (t, p)) (take-append topic (c ∷ cs)) (drop-append topic (c ∷ cs)))

read_payload-framed :
    (payload s : Bytes)
    → length payload < mqtt_buf_size
    → read_payload 48 (length payload) (payload ++ s) ≡ (split_publish payload, s)
unfolding read_payload
read_payload-framed payload s fits =
    let all : ltb (length (payload ++ s)) (length payload) ≡ false =
      ground (arith, length-append payload s) in
    let small : leb mqtt_buf_size (length payload) ≡ false = ground (arith, fits) in
    rw (small, all, take-append payload s, drop-append payload s)

poll_framed :
    (body s : Bytes)
    → length body < mqtt_buf_size
    → mqtt_poll_inbound (framed 48 body ++ s) ≡ (split_publish body, s)
unfolding mqtt_poll_inbound framed read_packet
poll_framed body s fits =
    rw
      (
        append_assoc (encode_remaining_len (length body)) body s,
        read_remaining_len-encode (length body) (body ++ s) (omega (arith, fits)),
      )
      (read_payload-framed body s fits)

length-string : (topic : Bytes) → length (mqtt_write_string topic) ≡ 2 + length topic
unfolding mqtt_write_string
length-string topic = omega arith

-- A poll reads from the socket exactly what the next `mqtt_publish` put there, its topic and its
-- message, if the message is not empty, and leaves what follows.
pub mqtt_poll_inbound-publish :
    (topic payload packet s : Bytes)
    → payload ≢ []
    → publish_packet topic payload ≡ some packet
    → mqtt_poll_inbound (packet ++ s) ≡ (some (topic, payload), s)
unfolding publish_packet
mqtt_poll_inbound-publish topic payload packet s full sent =
    elim (Bool-cases (ltb mqtt_buf_size (2 + length topic + length payload + 5))) [
      | inl large ↦ absurd (cc (rw large at sent))
      | inr small ↦
          let body = mqtt_write_string topic ++ payload in
          let packed : framed 48 body ≡ packet = cc (rw small at sent) in
          let fits : length body < mqtt_buf_size =
            ground (
              arith,
              small,
              length-append (mqtt_write_string topic) payload,
              length-string topic,
            ) in
          let short : length topic < 65536 = ground (arith, small) in
          ap (λ p. mqtt_poll_inbound (p ++ s)) (sym packed)
          ∙ poll_framed body s fits
          ∙ ap (λ m. (m, s)) (split_publish-string topic payload short full)
    ]

abbrev pub sent_bytes : Option Bytes → Bytes
sent_bytes none = []
sent_bytes (some packet) = packet

-- The socket after publishing a list of messages, those refused left out.
abbrev pub wire : List (Bytes × Bytes) → Bytes
wire [] = []
wire ((topic, payload) ∷ ms) = sent_bytes (publish_packet topic payload) ++ wire ms

-- As many polls as given, the messages that they read, and the socket.
abbrev pub polls : ℕ → Bytes → List (Option (Bytes × Bytes)) × Bytes
polls zero s = ([], s)
polls (suc n) s =
    let (m, rest) = mqtt_poll_inbound s in let (ms, left) = polls n rest in (m ∷ ms, left)

-- A message that is sent and that a poll will not pass over.
abbrev pub IsSendable : Bytes × Bytes → Type 0
IsSendable m = (m.1 ≢ []) × (length m.0 + length m.1 ≤ 1017)

sendable :
    (topic payload : Bytes)
    → length topic + length payload ≤ 1017
    → (packet : Bytes) × (publish_packet topic payload ≡ some packet)
unfolding publish_packet
sendable topic payload fits =
    let small : ltb mqtt_buf_size (2 + length topic + length payload + 5) ≡ false =
      ground (arith, fits) in
    (framed 48 (mqtt_write_string topic ++ payload), rw small)

abbrev next_poll : ℕ → Option (Bytes × Bytes) × Bytes → List (Option (Bytes × Bytes)) × Bytes
next_poll n (m, rest) = let (ms, left) = polls n rest in (m ∷ ms, left)

-- Polls keep in step with the packets: of any messages of at most 1017 bytes with their topics,
-- none of them empty, each poll reads one, in the order in which they were published, and the
-- socket is empty at the end.
pub mqtt_polls-published :
    (ms : List (Bytes × Bytes))
    → All IsSendable ms
    → polls (length ms) (wire ms) ≡ (map some ms, [])
mqtt_polls-published [] a = refl
mqtt_polls-published ((topic, payload) ∷ ms) ((full, fits), a) =
    let (packet, sent) = sendable topic payload fits in
    let read = mqtt_poll_inbound-publish topic payload packet (wire ms) full sent in
    let whole : sent_bytes (publish_packet topic payload) ≡ packet = ap sent_bytes sent in
    ap (λ p. polls (suc (length ms)) (p ++ wire ms)) whole
    ∙ ap (next_poll (length ms)) read
    ∙ ap (λ r. (some (topic, payload) ∷ r.0, r.1)) (mqtt_polls-published ms a)
