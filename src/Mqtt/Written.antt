-- ===== src/Mqtt/Written.antt =====
-- main/sensors/sensor_mqtt.c: what a connection takes of published packets.
use esp32_agent_mesh.Prelude.{
  ltb, Bool-cases, length, length-append, Bytes, ℕ, zero, suc, ◌+◌, ◌/◌, ◌≤◌, ◌≡◌, inl, inr, true,
  false, some, List, ◌++◌, arith,
}
use esp32_agent_mesh.Mqtt.Length.{encode_from, encode_remaining_len}
use esp32_agent_mesh.Mqtt.Packets.{
  mqtt_buf_size, mqtt_write_string, framed, publish_packet, write_all, mqtt_publish,
}
use esp32_agent_mesh.Mqtt.Stream.{write_all-whole, sent_bytes}

-- At every item, what the calls of `send` return is enough for a packet that fits the buffer.
abbrev pub TakesAll : (ℕ → List ℕ) → Type 0
TakesAll sends =
    (n : ℕ) (packet : Bytes) → length packet ≤ mqtt_buf_size → (write_all (sends n) packet).0 ≡ true

length-encode : (rounds value : ℕ) → length (encode_from rounds value) ≤ rounds
unfolding encode_from
length-encode zero value = omega arith
length-encode (suc rounds) value = elim (Bool-cases (ltb 0 (value / 128))) [
  | inl e ↦ rw e (omega (arith, length-encode rounds (value / 128)))
  | inr e ↦ rw e (omega arith)
]

packet_fits :
    (topic payload : Bytes)
    → length topic + length payload ≤ 1017
    → (packet : Bytes) × (publish_packet topic payload ≡ some packet)
      × (length packet ≤ mqtt_buf_size)
unfolding publish_packet framed encode_remaining_len mqtt_write_string
packet_fits topic payload fits =
    let small : ltb mqtt_buf_size (2 + length topic + length payload + 5) ≡ false =
      ground (arith, fits) in
    let body = mqtt_write_string topic ++ payload in
    let head = encode_from 4 (length body) in
    (
      framed 48 body,
      rw small,
      omega (
        arith,
        fits,
        length-append head body,
        length-append (mqtt_write_string topic) payload,
        length-encode 4 (length body),
      ),
    )

pub mqtt_publish-taken :
    (sends : ℕ → List ℕ) (n : ℕ) (topic payload : Bytes)
    → TakesAll sends
    → length topic + length payload ≤ 1017
    → mqtt_publish (sends n) topic payload ≡ (true, sent_bytes (publish_packet topic payload))
unfolding mqtt_publish
mqtt_publish-taken sends n topic payload takes fits =
    let (packet, is, small) = packet_fits topic payload fits in
    let went = takes n packet small in rw is (cc (went, write_all-whole (sends n) packet went))
