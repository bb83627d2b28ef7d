-- ===== src/Mqtt/Wire/Packet.antt =====
-- Packets are read back as they were written.
use mgl03_homekit_bridge.Common.{
  ℕ, ◌+◌, ◌≤◌, ◌<◌, ◌≡◌, [], ◌∷◌, ◌++◌, Bytes, ok, ◌>>=◌, ok_of_chain, length-take, length-drop,
  length, length-append, take-length-append, drop-length-append, arith,
}
use mathlib.Core.List.{append_assoc}
use mgl03_homekit_bridge.Mqtt.Wire.{
  max_packet_size, encode_remaining_length, decode_remaining_length, read_full, write_packet,
  read_payload, read_packet,
}
use mgl03_homekit_bridge.Mqtt.Wire.Length.{
  decode-encode_remaining_length, decode_remaining_length_bounds,
}

read_full-append : (s rest : Bytes) → read_full (length s) (s ++ rest) ≡ ok (s, rest)
unfolding read_full
read_full-append s rest =
    rw (take-length-append, drop-length-append) (ground (arith, length-append s rest))

-- A packet that is written is read back with its header and payload, and what follows it is left: the
-- framing loses nothing and two packets in one stream do not run into each other.
pub read_packet-write_packet :
    (header : ℕ) (payload rest wire : Bytes)
    → write_packet header payload ≡ ok wire
    → read_packet (wire ++ rest) ≡ ok (header, payload, rest)
unfolding write_packet read_packet
read_packet-write_packet header payload rest wire e =
    let small : length payload ≤ max_packet_size = ground arith in
    let shape : wire ≡ header ∷ encode_remaining_length (length payload) ++ payload =
      ground arith in
    rw
      (
        shape,
        append_assoc (encode_remaining_length (length payload)) payload rest,
        decode-encode_remaining_length (length payload) (payload ++ rest) (omega arith),
        ◌>>=◌,
        read_full-append payload rest,
      )
      (ground arith)

-- writePacket refuses exactly the payloads that readPacket would refuse.
pub write_packet_ok :
    (header : ℕ) (payload : Bytes)
    → length payload ≤ max_packet_size
    → write_packet header payload
      ≡ ok (header ∷ encode_remaining_length (length payload) ++ payload)
unfolding write_packet
write_packet_ok header payload h = ground arith

read_payload_lem :
    (h n : ℕ) (s : Bytes) (header : ℕ) (payload rest : Bytes)
    → read_payload h n s ≡ ok (header, payload, rest)
    → (length payload ≤ max_packet_size) × (length payload + length rest ≡ length s)
unfolding read_payload read_full
read_payload_lem h n s header payload rest e = ground (arith, length-take n s, length-drop n s)

-- Whatever the stream holds, a packet that is read has at most a mebibyte of payload.
pub read_packet_bounds :
    (r : Bytes) (header : ℕ) (payload rest : Bytes)
    → read_packet r ≡ ok (header, payload, rest)
    → (length payload ≤ max_packet_size) × (length payload + length rest < length r)
unfolding read_packet
read_packet_bounds [] header payload rest e = cc
read_packet_bounds (h ∷ r) header payload rest e =
    let ((n, s), decoded, more) = ok_of_chain _ (decode_remaining_length r) e in
    let (limit, shape) = read_payload_lem h n s header payload rest more in
    omega (arith, limit, shape, decode_remaining_length_bounds r s n decoded)
