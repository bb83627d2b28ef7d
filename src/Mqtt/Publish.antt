-- ===== src/Mqtt/Publish.antt =====
-- client.go, parsePublish.
pub mod Shape
use mgl03_homekit_bridge.Common.{
  ℕ, ◌+◌, ◌*◌, ◌/◌, ◌%◌, ◌||◌, List, [], ◌∷◌, Bytes, Result, ok, err, length, take, drop, ltb, ◌==◌,
  if◌then◌else◌,
}

pub data PublishError : Type 0 where
  short_packet invalid_topic missing_packet_id : PublishError
  unsupported_qos : ℕ → PublishError

pub record Publish : Type 0 where
  pub topic : Bytes
  pub message : Bytes
  pub packet_id : ℕ
  pub qos : ℕ

-- binary.BigEndian.Uint16 of the first two bytes; the length is checked before each call.
unfoldable pub be_value : Bytes → ℕ
be_value (a ∷ b ∷ _) = a * 256 + b
be_value _ = 0

-- `(header >> 1) & 0x03`
unfoldable pub publish_qos : ℕ → ℕ
publish_qos header = header / 2 % 4

-- From behind the topic on.
unfoldable pub parse_body : ℕ → Bytes → Bytes → Result PublishError Publish
parse_body qos topic body =
    if ltb 1 qos
    then err (unsupported_qos qos)
    else if qos == 1
    then (if ltb (length body) 2
        then err missing_packet_id
        else ok
            (record { topic = topic; message = drop 2 body; packet_id = be_value body; qos = qos }))
    else ok (record { topic = topic; message = body; packet_id = 0; qos = qos })

unfoldable pub parse_publish : ℕ → Bytes → Result PublishError Publish
parse_publish header payload =
    let n = be_value payload in
    if ltb (length payload) 2
    then err short_packet
    else if n == 0 || ltb (length payload) (2 + n)
    then err invalid_topic
    else parse_body (publish_qos header) (take n (drop 2 payload)) (drop (2 + n) payload)
