-- ===== src/Mqtt/Topics.antt =====
-- client.go: the topics of a subscription, and the CONNECT and SUBSCRIBE payloads.
pub mod Normal
pub mod Subscribe
use mgl03_homekit_bridge.Common.{
  ℕ, ◌/◌, ◌%◌, Bool, true, false, ◌||◌, List, [], ◌∷◌, ◌++◌, Bytes, codes, eq_bytes, is_empty,
  trim_space, if◌then◌else◌,
}
use mgl03_homekit_bridge.Mqtt.Wire.{be_uint16, write_utf8}

-- `_, ok := seen[topic]`, for a set that is only added to.
unfoldable pub has_topic : Bytes → List Bytes → Bool
has_topic t [] = false
has_topic t (s ∷ ss) = eq_bytes t s || has_topic t ss

-- The loop of normalizedTopics. The same strings go into `seen` and into `out`, so one list is both.
unfoldable pub normalized_loop : List Bytes → List Bytes → List Bytes
normalized_loop [] out = out
normalized_loop (t ∷ ts) out =
    let topic = trim_space t in
    normalized_loop ts (if is_empty topic || has_topic topic out then out else out ++ (topic ∷ []))

unfoldable pub normalized_topics : List Bytes → List Bytes
normalized_topics topics = normalized_loop topics []

unfoldable pub connect_payload : Bytes → Bytes
connect_payload client_id =
    write_utf8 (codes "MQTT") ++ (4 ∷ 2 ∷ be_uint16 60 ++ write_utf8 client_id)

-- The loop of subscribePayload; each topic asks for QoS 0.
unfoldable pub subscribe_topics : List Bytes → Bytes
subscribe_topics [] = []
subscribe_topics (t ∷ ts) = write_utf8 t ++ (0 ∷ subscribe_topics ts)

unfoldable pub subscribe_payload : ℕ → List Bytes → Bytes
subscribe_payload packet_id topics = be_uint16 packet_id ++ subscribe_topics topics
