-- ===== src/Examples/Wire.antt =====
-- internal/mqttmini/client.go: packets, PUBLISH payloads and a session.
use mgl03_homekit_bridge.Common.{
  true, ◌+◌, ◌≤◌, ◌<◌, ◌≡◌, refl, false, List, [], ◌∷◌, ◌++◌, Bytes, codes, length, ok, arith,
}
use mgl03_homekit_bridge.Mqtt.Wire.{
  max_packet_size, encode_remaining_length, decode_remaining_length, read_packet,
}
use mgl03_homekit_bridge.Mqtt.Wire.Packet.{
  write_packet_ok, read_packet-write_packet, read_packet_bounds,
}
use mgl03_homekit_bridge.Mqtt.Wire.Length.{decode-encode_remaining_length}
use mgl03_homekit_bridge.Mqtt.Publish.{Publish, be_value, publish_qos, parse_body, parse_publish}
use mgl03_homekit_bridge.Mqtt.Publish.Shape.{
  IsPublish, publish_payload, parse_publish-publish_payload, publish_payload-parse_publish,
}
use mgl03_homekit_bridge.Mqtt.Session.{
  puback_unsent, go_on, Turn, packet, timeout, on_publish, on_packet, on_read, serve_loop,
}
use mgl03_homekit_bridge.Mqtt.Session.Failure.{HasFailed, serve_loop_failed}
use mgl03_homekit_bridge.Mqtt.Session.Rules.{
  HasNoSilence, requests_of, handled, owed, wanted, serve_loop_lem,
}

abbrev message : Publish
message = record { topic = codes "t"; message = codes "hi"; packet_id = 5; qos = 1 }

abbrev message-IsPublish : IsPublish message
message-IsPublish = record {
  named = omega arith;
  short = omega arith;
  low = omega arith;
  counted = omega arith;
  unnumbered = λ e. absurd (omega (arith, e));
}

-- A packet of two bytes.
abbrev wire : Bytes
wire = 48 ∷ encode_remaining_length 2 ++ codes "hi"

read_packet-write_packet_example :
    read_packet (wire ++ codes "next") ≡ ok (48, codes "hi", codes "next")
read_packet-write_packet_example =
    read_packet-write_packet 48 (codes "hi") (codes "next") wire
      (write_packet_ok 48 (codes "hi") (omega arith))

read_packet_bounds_example :
    (length (codes "hi") ≤ max_packet_size)
    × (length (codes "hi") + length (codes "next") < length (wire ++ codes "next"))
read_packet_bounds_example =
    read_packet_bounds (wire ++ codes "next") 48 (codes "hi") (codes "next") (
      read_packet-write_packet 48 (codes "hi") (codes "next") wire
        (write_packet_ok 48 (codes "hi") (omega arith)))

decode-encode_remaining_length_example :
    decode_remaining_length (encode_remaining_length 321 ++ codes "hi") ≡ ok (321, codes "hi")
decode-encode_remaining_length_example =
    decode-encode_remaining_length 321 (codes "hi") (omega arith)

publish_payload-parse_publish_example :
    (publish_payload message ≡ publish_payload message) × IsPublish message × (publish_qos 50 ≡ 1)
unfolding publish_qos
publish_payload-parse_publish_example =
    publish_payload-parse_publish 50 (publish_payload message) message
      (
        omega arith,
        (
          omega arith,
          (omega arith, (omega arith, (omega arith, (omega arith, (omega arith, tt))))),
        ),
      )
      (parse_publish-publish_payload message 50 message-IsPublish refl)

-- A pause, then the message on the topic of the subscription.
abbrev turns : List Turn
turns = (timeout, true) ∷ (packet 50 (publish_payload message), true) ∷ []

serve_loop_lem_example :
    let acts = (serve_loop (codes "t" ∷ []) false turns).0 in
    HasNoSilence false turns
    × (requests_of acts ≡ owed turns)
    × (handled acts ≡ wanted (codes "t" ∷ []) turns)
unfolding serve_loop go_on on_read on_packet on_publish parse_publish be_value parse_body
    publish_qos
serve_loop_lem_example = serve_loop_lem turns (codes "t" ∷ []) false false refl

-- The same, but the acknowledgement cannot be sent, and more would come.
abbrev cut_turns : List Turn
cut_turns = (timeout, true) ∷ (packet 50 (publish_payload message), false) ∷ (timeout, true) ∷ []

serve_loop_failed_example : HasFailed (codes "t" ∷ []) false puback_unsent cut_turns
unfolding serve_loop go_on on_read on_packet on_publish parse_publish be_value parse_body
    publish_qos
serve_loop_failed_example = serve_loop_failed cut_turns (codes "t" ∷ []) false puback_unsent refl
