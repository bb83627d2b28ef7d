-- ===== src/Mqtt/Wire.antt =====
-- client.go, the framing: remaining lengths, packets, and length-prefixed text.
pub mod Length
pub mod Packet
use mgl03_homekit_bridge.Common.{
  ℕ, zero, suc, ◌+◌, ◌*◌, ◌/◌, ◌%◌, List, [], ◌∷◌, ◌++◌, Bytes, Result, ok, err, ◌>>=◌, length,
  take, drop, ltb, ◌==◌, if◌then◌else◌,
}

abbrev pub max_packet_size : ℕ
max_packet_size = 1_048_576

-- What reading can report, apart from a network timeout.
pub data ReadError : Type 0 where
  eof malformed_length packet_too_large : ReadError

-- The loop of encodeRemainingLength, with fuel: `encoded` is `n % 128`, and `| 128` sets its top bit.
unfoldable pub encode_loop : ℕ → ℕ → Bytes
encode_loop zero n = []
encode_loop (suc fuel) n =
    let more = (n % 128 + 128) ∷ encode_loop fuel (n / 128) in
    if ltb 0 (n / 128) then more else n % 128 ∷ []

-- Each round divides by 128, so the fuel does not run out.
unfoldable pub encode_remaining_length : ℕ → Bytes
encode_remaining_length n = encode_loop (suc n) n

-- The loop of decodeRemainingLength over a stream of bytes, with the rounds that are left.
unfoldable pub decode_loop : ℕ → ℕ → ℕ → Bytes → Result ReadError (ℕ × Bytes)
decode_loop zero multiplier value r = err malformed_length
decode_loop (suc k) multiplier value [] = err eof
decode_loop (suc k) multiplier value (b ∷ r) =
    let value' = value + b % 128 * multiplier in
    let more = decode_loop k (multiplier * 128) value' r in
    if b / 128 % 2 == 0 then ok (value', r) else more

unfoldable pub decode_remaining_length : Bytes → Result ReadError (ℕ × Bytes)
decode_remaining_length r = decode_loop 4 1 0 r

-- io.ReadFull of `n` bytes.
unfoldable pub read_full : ℕ → Bytes → Result ReadError (Bytes × Bytes)
read_full n r = if ltb (length r) n then err eof else ok (take n r, drop n r)

-- The bytes that writePacket writes, or `err` with the length that is too large.
unfoldable pub write_packet : ℕ → Bytes → Result ℕ Bytes
write_packet header payload =
    if ltb max_packet_size (length payload)
    then err (length payload)
    else ok (header ∷ encode_remaining_length (length payload) ++ payload)

read_payload : ℕ → ℕ → Bytes → Result ReadError (ℕ × Bytes × Bytes)
read_payload header n r =
    if ltb max_packet_size n
    then err packet_too_large
    else do (payload, rest) ← read_full n r; ok (header, payload, rest)

-- readPacket, with the bytes that follow the packet.
unfoldable pub read_packet : Bytes → Result ReadError (ℕ × Bytes × Bytes)
unfolding read_payload
read_packet [] = err eof
read_packet (header ∷ r) = do (n, rest) ← decode_remaining_length r; read_payload header n rest

-- binary.BigEndian of a uint16.
abbrev pub be_uint16 : ℕ → Bytes
be_uint16 n = (n / 256 % 256) ∷ (n % 256) ∷ []

-- writeUTF8: `uint16(len(s))` cuts the length to 16 bits.
unfoldable pub write_utf8 : Bytes → Bytes
write_utf8 s = be_uint16 (length s % 65536) ++ s
