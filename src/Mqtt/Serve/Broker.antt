-- ===== src/Mqtt/Serve/Broker.antt =====
-- What a broker understands of a CONNECT and of a SUBSCRIBE.
use mgl03_homekit_bridge.Common.{
  ℕ, suc, ◌+◌, ◌*◌, ◌<◌, ◌≤◌, ◌≡◌, refl, ap, false, Option, none, some, List, [], ◌∷◌, ◌++◌, Bytes,
  codes, length, length-append, take, drop, take-length-append, drop-length-append, ltb,
  if◌then◌else◌, arith, All,
}
use mgl03_homekit_bridge.Mqtt.Wire.{write_utf8}
use mgl03_homekit_bridge.Mqtt.Topics.{connect_payload, subscribe_topics, subscribe_payload}
use mgl03_homekit_bridge.Mqtt.Topics.Subscribe.{
  read_filters, with_qos_0, uint16_value, read_filters-subscribe_topics,
}

-- A broker's reading of a CONNECT: the name and the level of the protocol, the flags, the keep-alive in
-- seconds, and the client id.
pub record Connect : Type 0 where
  pub protocol : Bytes
  pub level : ℕ
  pub flags : ℕ
  pub keep_alive : ℕ
  pub client_id : Bytes

-- A text with its length in two bytes, and what follows it.
pub read_utf8 : Bytes → Option (Bytes × Bytes)
read_utf8 (a ∷ b ∷ s) =
    if ltb (length s) (a * 256 + b) then none else some (take (a * 256 + b) s, drop (a * 256 + b) s)
read_utf8 _ = none

-- Nothing may follow the client id.
with_client_id : Bytes → ℕ → ℕ → ℕ → Option (Bytes × Bytes) → Option Connect
with_client_id name level flags seconds (some (id, [])) =
    some (record {
      protocol = name;
      level = level;
      flags = flags;
      keep_alive = seconds;
      client_id = id;
    })
with_client_id name level flags seconds _ = none

with_protocol : Option (Bytes × Bytes) → Option Connect
with_protocol (some (name, level ∷ flags ∷ a ∷ b ∷ rest)) =
    with_client_id name level flags (a * 256 + b) (read_utf8 rest)
with_protocol _ = none

pub read_connect : Bytes → Option Connect
read_connect s = with_protocol (read_utf8 s)

-- A broker's reading of a SUBSCRIBE: its packet id, and the filters with their QoS.
pub read_subscribe : Bytes → Option (ℕ × Option (List (Bytes × ℕ)))
read_subscribe (a ∷ b ∷ s) = some (a * 256 + b, read_filters (suc (length s)) s)
read_subscribe _ = none

read_utf8-write_utf8 :
    (s rest : Bytes) → length s < 65536 → read_utf8 (write_utf8 s ++ rest) ≡ some (s, rest)
unfolding read_utf8 write_utf8
read_utf8-write_utf8 s rest h =
    let long : ltb (length (s ++ rest)) (length s) ≡ false = ground (arith, length-append s rest) in
    rw (uint16_value (length s) h, long, take-length-append s rest, drop-length-append s rest) refl

read_utf8_all : (s : Bytes) → length s < 65536 → read_utf8 (write_utf8 s) ≡ some (s, [])
unfolding read_utf8 write_utf8
read_utf8_all s h =
    let long : ltb (length s) (length s) ≡ false = ground arith in
    rw (uint16_value (length s) h, long, take_all s, drop_all s) refl
  where
    take_all : (s : Bytes) → take (length s) s ≡ s
    take_all [] = refl
    take_all (c ∷ s) = ap (λ (r : Bytes). c ∷ r) (take_all s)

    drop_all : (s : Bytes) → drop (length s) s ≡ []
    drop_all [] = refl
    drop_all (c ∷ s) = drop_all s

-- The CONNECT of a client with this id: MQTT 3.1.1, a clean session, and 60 seconds.
abbrev pub connect_as : Bytes → Connect
connect_as id = record {
  protocol = codes "MQTT";
  level = 4;
  flags = 2;
  keep_alive = 60;
  client_id = id;
}

pub read_connect-connect_payload :
    (id : Bytes) → length id < 65536 → read_connect (connect_payload id) ≡ some (connect_as id)
unfolding read_connect connect_payload with_protocol with_client_id
read_connect-connect_payload id h =
    rw
      (
        read_utf8-write_utf8 (codes "MQTT") (4 ∷ 2 ∷ 0 ∷ 60 ∷ write_utf8 id) (omega arith),
        read_utf8_all id h,
      )
      refl

length-subscribe_topics : (ts : List Bytes) → length ts ≤ length (subscribe_topics ts)
unfolding subscribe_topics
length-subscribe_topics [] = omega arith
length-subscribe_topics (t ∷ ts) =
    omega
      (arith, length-append (write_utf8 t) (0 ∷ subscribe_topics ts), length-subscribe_topics ts)

pub read_subscribe-subscribe_payload :
    (ts : List Bytes)
    → All (λ t. length t < 65536) ts
    → read_subscribe (subscribe_payload 1 ts) ≡ some (1, some (with_qos_0 ts))
unfolding read_subscribe subscribe_payload
read_subscribe-subscribe_payload ts short =
    rw
      (read_filters-subscribe_topics ts (suc (length (subscribe_topics ts))) short
        (omega (arith, length-subscribe_topics ts)))
      refl
