-- ===== src/Mqtt/Serve.antt =====
-- client.go, serve: a session from the configuration on, with its handshake.
pub mod Handshake
pub mod Broker
pub mod Requests
use mgl03_homekit_bridge.Common.{
  ℕ, ◌+◌, ◌/◌, Bool, true, false, not, ◌&&◌, ◌||◌, Option, none, some, List, [], ◌∷◌, ◌++◌, Bytes,
  Result, ok, err, codes, is_empty, length, trim_space, ◌==◌, if◌then◌else◌,
}
use mgl03_homekit_bridge.Mqtt.Wire.{write_packet}
use mgl03_homekit_bridge.Mqtt.Topics.{normalized_topics, connect_payload, subscribe_payload}
use mgl03_homekit_bridge.Mqtt.Session.{
  Read, packet, timeout, broken, no_deadline, Turn, Action, SessionError, serve_loop,
}

-- The fields of the struct that a session reads.
pub record Client : Type 0 where
  pub address : Bytes
  pub topics : List Bytes
  pub client_id : Bytes

-- What the network does: whether the connection is made, whether the two requests are sent in full, and
-- what the rounds of the loop meet. Of a request that is not, a part may have gone out.
pub record Link : Type 0 where
  pub dials : Bool
  pub sends_connect : Bool
  pub connack : Read
  pub sends_subscribe : Bool
  pub turns : List Turn

pub data ServeError : Type 0 where
  not_configured dial_failed connect_failed connack_failed rejected subscribe_failed : ServeError
  session : SessionError → ServeError

-- The requests that were sent in full, whether OnState(true) was called, what the loop did, and how it ended:
-- `ok` while the connection lasts.
pub record Served : Type 0 where
  pub wrote : List Bytes
  pub connected : Bool
  pub actions : List Action
  pub ending : Result ServeError Bool

unfoldable pub stopped : List Bytes → ServeError → Served
stopped wrote e = record { wrote = wrote; connected = false; actions = []; ending = err e }

unfoldable pub client_id_of : Client → Bytes
client_id_of c = if is_empty c.client_id then codes "mgl03-homekit-bridge" else c.client_id

-- `len(payload) != 2 || payload[1] != 0`, negated.
unfoldable pub accepts : Bytes → Bool
accepts (a ∷ b ∷ []) = b == 0
accepts _ = false

unfoldable pub loop_ending : Result SessionError Bool → Result ServeError Bool
loop_ending (ok b) = ok b
loop_ending (err e) = err (session e)

unfoldable pub after_subscribe : Link → List Bytes → Bytes → Result ℕ Bytes → Served
unfolding stopped
after_subscribe link topics sent (err n) = stopped (sent ∷ []) subscribe_failed
after_subscribe link topics sent (ok wire) =
    let (actions, end) = serve_loop topics false link.turns in
    if link.sends_subscribe
    then record {
      wrote = sent ∷ wire ∷ [];
      connected = true;
      actions = actions;
      ending = loop_ending end;
    }
    else stopped (sent ∷ []) subscribe_failed

unfoldable pub after_connack : Link → List Bytes → Bytes → Read → Served
unfolding stopped
after_connack link topics sent (packet header payload) =
    if header / 16 == 2 && accepts payload
    then after_subscribe link topics sent (write_packet 0x82 (subscribe_payload 1 topics))
    else stopped (sent ∷ []) rejected
after_connack link topics sent timeout = stopped (sent ∷ []) connack_failed
after_connack link topics sent broken = stopped (sent ∷ []) connack_failed
after_connack link topics sent no_deadline = stopped (sent ∷ []) connack_failed

unfoldable pub after_connect : Link → List Bytes → Result ℕ Bytes → Served
unfolding stopped
after_connect link topics (err n) = stopped [] connect_failed
after_connect link topics (ok wire) =
    if link.sends_connect
    then after_connack link topics wire link.connack
    else stopped [] connect_failed

-- No topic at all.
abbrev pub is_none : List Bytes → Bool
is_none [] = true
is_none (t ∷ ts) = false

unfoldable pub serve : Client → Link → Served
unfolding stopped
serve c link =
    let topics = normalized_topics c.topics in
    if is_empty (trim_space c.address) || is_none topics
    then stopped [] not_configured
    else if not link.dials
    then stopped [] dial_failed
    else after_connect link topics (write_packet 0x10 (connect_payload (client_id_of c)))
