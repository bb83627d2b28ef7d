-- ===== src/Mqtt/Session.antt =====
-- client.go, serve: what the client does with what it reads after it has subscribed.
pub mod Rules
pub mod Failure
pub mod Heard
use mgl03_homekit_bridge.Common.{
  ℕ, ◌+◌, ◌/◌, ◌%◌, Bool, true, false, ◌||◌, List, [], ◌∷◌, ◌++◌, Bytes, Result, ok, err, length,
  drop, ltb, ◌==◌, if◌then◌else◌,
}
use mgl03_homekit_bridge.Mqtt.Publish.{PublishError, Publish, parse_publish}
use mgl03_homekit_bridge.Mqtt.Topics.{has_topic}

-- What readPacket gives within the read deadline of 30 seconds; `no_deadline` if it cannot be set.
pub data Read : Type 0 where
  packet : ℕ → Bytes → Read
  timeout : Read
  broken : Read
  no_deadline : Read

-- One round of the loop: what is read, and whether a write would work then. A round writes at most once.
abbrev pub Turn : Type 0
Turn = Read × Bool

-- What the client does: it writes a PINGREQ or a PUBACK, or hands a message to its handler.
pub data Action : Type 0 where
  ping : Action
  puback : Bytes → Action
  handle : Bytes → Action

pub data SessionError : Type 0 where
  deadline_failed ping_timeout ping_unsent read_failed puback_unsent subscription_rejected :
      SessionError
  bad_publish : PublishError → SessionError

-- The packet that an action writes, as header and payload: a PINGREQ or a PUBACK.
unfoldable pub packet_of : Action → List (ℕ × Bytes)
packet_of ping = (0xC0, []) ∷ []
packet_of (puback ack) = (0x40, ack) ∷ []
packet_of (handle m) = []

-- What was done, and the new `awaitingPing` or the error that ends the session.
abbrev pub Round : Type 0
Round = List Action × Result SessionError Bool

-- A packet that is written, or the error of writing it.
abbrev pub write : Bool → Action → SessionError → Bool → Round
write works a e awaiting = if works then (a ∷ [], ok awaiting) else ([], err e)

-- `[]byte{byte(packetID >> 8), byte(packetID)}`
abbrev pub ack_bytes : ℕ → Bytes
ack_bytes n = (n / 256 % 256) ∷ (n % 256) ∷ []

abbrev on_message : List Bytes → Publish → List Action
on_message topics p = if has_topic p.topic topics then handle p.message ∷ [] else []

-- The handler is called before the acknowledgement.
unfoldable pub on_publish : List Bytes → Bool → Result PublishError Publish → Round
on_publish topics writes (err e) = ([], err (bad_publish e))
on_publish topics writes (ok p) =
    let (acked, end) = write writes (puback (ack_bytes p.packet_id)) puback_unsent false in
    if p.qos == 1 then (on_message topics p ++ acked, end) else (on_message topics p, ok false)

-- `result == 0x80` for one of the results.
unfoldable pub has_failure : Bytes → Bool
has_failure [] = false
has_failure (b ∷ bs) = b == 0x80 || has_failure bs

unfoldable pub on_suback : List Bytes → Bytes → Round
on_suback topics payload =
    if ltb (length payload) (2 + length topics) || has_failure (drop 2 payload)
    then ([], err subscription_rejected)
    else ([], ok false)

-- The switch on `header >> 4`.
unfoldable pub on_packet : List Bytes → Bool → ℕ → Bytes → Round
on_packet topics writes header payload =
    if header / 16 == 3
    then on_publish topics writes (parse_publish header payload)
    else if header / 16 == 9
    then on_suback topics payload
    else ([], ok false)

unfoldable pub on_read : List Bytes → Bool → Bool → Read → Round
on_read topics awaiting_ping writes no_deadline = ([], err deadline_failed)
on_read topics awaiting_ping writes timeout =
    if awaiting_ping then ([], err ping_timeout) else write writes ping ping_unsent true
on_read topics awaiting_ping writes broken = ([], err read_failed)
on_read topics awaiting_ping writes (packet header payload) = on_packet topics writes header payload

-- After a round: return its error, or go on with the new `awaitingPing`.
unfoldable pub go_on : Round → (Bool → Round) → Round
go_on (actions, err e) more = (actions, err e)
go_on (actions, ok awaiting) more = let (later, end) = more awaiting in (actions ++ later, end)

-- The loop over what the connection gives: all actions, and the error that ended it, if one did.
unfoldable pub serve_loop : List Bytes → Bool → List Turn → Round
unfolding go_on
serve_loop topics awaiting_ping [] = ([], ok awaiting_ping)
serve_loop topics awaiting_ping ((r, writes) ∷ ts) =
    go_on (on_read topics awaiting_ping writes r) (λ awaiting. serve_loop topics awaiting ts)
