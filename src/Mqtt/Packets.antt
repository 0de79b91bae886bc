-- ===== src/Mqtt/Packets.antt =====
-- main/sensors/sensor_mqtt.c: the packets that the client sends, and the one that a poll reads. A
-- socket is the bytes that are still to be read from it. A function that sends is the packet that it
-- gives to `write_all`, whose status it returns; `mqtt_publish` is both.
use esp32_agent_mesh.Prelude.{
  ltb, leb, ◌==◌, if◌then◌else◌, length, take, drop, Bytes, codes, ℕ, ◌+◌, ◌*◌, ◌/◌, ◌%◌, Bool,
  true, false, ◌&&◌, Option, none, some, List, [], ◌∷◌, ◌++◌,
}
use esp32_agent_mesh.Mqtt.Length.{encode_remaining_len, read_remaining_len}

abbrev pub mqtt_buf_size : ℕ
mqtt_buf_size = 1024

abbrev pub mqtt_keepalive_s : ℕ
mqtt_keepalive_s = 30

-- Two bytes of length, the high one first, and the text.
unfoldable pub mqtt_write_string : Bytes → Bytes
mqtt_write_string s = (length s / 256 % 256) ∷ (length s % 256) ∷ s

-- The type's byte, the length of the payload, the payload.
unfoldable pub framed : ℕ → Bytes → Bytes
framed packet_type payload = packet_type ∷ (encode_remaining_len (length payload) ++ payload)

unfoldable pub mqtt_send_connect : Bytes → Bytes
unfolding framed mqtt_write_string
mqtt_send_connect client_id = framed 16 (
    mqtt_write_string (codes "MQTT")
    ++ (4 ∷ 2 ∷ 0 ∷ mqtt_keepalive_s ∷ mqtt_write_string client_id))

unfoldable pub mqtt_subscribe : Bytes → ℕ → Bytes
unfolding framed mqtt_write_string
mqtt_subscribe topic packet_id =
    framed 130 ((packet_id / 256 % 256) ∷ (packet_id % 256) ∷ (mqtt_write_string topic ++ (0 ∷ [])))

-- The packet of `mqtt_publish`. One that would not fit the buffer is refused.
unfoldable pub publish_packet : Bytes → Bytes → Option Bytes
unfolding framed mqtt_write_string
publish_packet topic payload =
    if ltb mqtt_buf_size (2 + length topic + length payload + 5)
    then none
    else some (framed 48 (mqtt_write_string topic ++ payload))

-- The loop of `write_all`, on what the calls of `send` return: the count taken, 0 for an error. The
-- status is 0 or -1; the bytes are those that were taken.
unfoldable pub write_all : List ℕ → Bytes → Bool × Bytes
write_all sends [] = (true, [])
write_all [] (b ∷ bs) = (false, [])
write_all (n ∷ sends) (b ∷ bs) =
    let (whole, taken) = write_all sends (drop n (b ∷ bs)) in
    if n == 0 then (false, []) else (whole, take n (b ∷ bs) ++ taken)

-- Its status, and the bytes that the connection took, on what the calls of `send` return.
abbrev pub write_packet : List ℕ → Option Bytes → Bool × Bytes
write_packet sends none = (false, [])
write_packet sends (some packet) = write_all sends packet

unfoldable pub mqtt_publish : List ℕ → Bytes → Bytes → Bool × Bytes
unfolding publish_packet write_all
mqtt_publish sends topic payload = write_packet sends (publish_packet topic payload)

unfoldable pub mqtt_read_connack : Bytes → Bool
mqtt_read_connack (a ∷ b ∷ c ∷ d ∷ s) = a == 32 && b == 2 && c == 0 && d == 0
mqtt_read_connack _ = false

-- The payload of a publish packet as its topic and its message, if it has both.
unfoldable pub split_publish : Bytes → Option (Bytes × Bytes)
split_publish (hi ∷ lo ∷ rest) =
    let topic_len = hi * 256 + lo in
    if ltb topic_len (length rest) then some (take topic_len rest, drop topic_len rest) else none
split_publish _ = none

-- `recv` of the payload with MSG_WAITALL: a socket that runs dry first gives what it has.
unfoldable pub read_payload : ℕ → ℕ → Bytes → Option (Bytes × Bytes) × Bytes
unfolding split_publish
read_payload packet_type remaining s =
    if leb mqtt_buf_size remaining
    then (none, s)
    else if ltb (length s) remaining
    then (none, [])
    else (if packet_type == 48 then split_publish (take remaining s) else none, drop remaining s)

unfoldable pub read_packet : ℕ → Option ℕ × Bytes → Option (Bytes × Bytes) × Bytes
unfolding read_payload
read_packet packet_type (none, s) = (none, s)
read_packet packet_type (some remaining, s) = read_payload packet_type remaining s

-- `mqtt_poll_inbound` up to the choice by topic: the topic and the message, and the socket.
unfoldable pub mqtt_poll_inbound : Bytes → Option (Bytes × Bytes) × Bytes
unfolding read_packet
mqtt_poll_inbound [] = (none, [])
mqtt_poll_inbound (header ∷ s) = read_packet (header / 16 * 16) (read_remaining_len s)
