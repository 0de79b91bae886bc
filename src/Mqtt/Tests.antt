-- ===== src/Mqtt/Tests.antt =====
-- The packets at concrete messages, and the theorems there.
use esp32_agent_mesh.Prelude.{Bytes, codes, ◌≡◌, refl, some, [], ◌∷◌}
use esp32_agent_mesh.Mqtt.Length.{encode_from, encode_remaining_len}
use esp32_agent_mesh.Mqtt.Packets.{publish_packet}

long_length : encode_remaining_len 321 ≡ 193 ∷ 2 ∷ []
unfolding encode_remaining_len encode_from
long_length = refl

abbrev hello : Bytes × Bytes
hello = (codes "t/a", codes "hi")

abbrev alarm : Bytes × Bytes
alarm = (codes "alerts", codes "hot")

hello_packet :
    publish_packet (codes "t/a") (codes "hi")
    ≡ some (48 ∷ 7 ∷ 0 ∷ 3 ∷ b't' ∷ b'/' ∷ b'a' ∷ b'h' ∷ b'i' ∷ [])
unfolding publish_packet encode_remaining_len encode_from
hello_packet = refl
