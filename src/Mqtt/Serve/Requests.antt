-- ===== src/Mqtt/Serve/Requests.antt =====
-- When a session is set up, and what the broker understands of its two requests.
use mgl03_homekit_bridge.Common.{
  ℕ, zero, suc, ◌+◌, ◌/◌, ◌<◌, ◌≡◌, refl, ◌∙◌, Bool, true, false, not, ◌&&◌, some, List, [], ◌∷◌,
  ◌++◌, Bytes, ok, codes, is_empty, length, length-append, trim_space, ltb, leb, ◌==◌,
  if◌then◌else◌, arith, All,
}
use mgl03_homekit_bridge.Mqtt.Wire.{max_packet_size, write_utf8, read_packet}
use mgl03_homekit_bridge.Mqtt.Topics.{
  normalized_topics, connect_payload, subscribe_topics, subscribe_payload,
}
use mgl03_homekit_bridge.Mqtt.Topics.Subscribe.{with_qos_0}
use mgl03_homekit_bridge.Mqtt.Session.{Read, packet, timeout, broken, no_deadline, serve_loop}
use mgl03_homekit_bridge.Mqtt.Serve.{Client, Link, Served, client_id_of, accepts, is_none, serve}
use mgl03_homekit_bridge.Mqtt.Serve.Handshake.{
  is_accepted, comes_about, requests, AreRead, serve-IsServed,
}
use mgl03_homekit_bridge.Mqtt.Serve.Broker.{
  read_connect, read_subscribe, connect_as, read_connect-connect_payload,
  read_subscribe-subscribe_payload,
}

-- The id of a client, where none is set.
abbrev pub chosen_id : Bytes → Bytes
chosen_id [] = codes "mgl03-homekit-bridge"
chosen_id (c ∷ s) = c ∷ s

-- A CONNACK of two bytes whose return code is 0.
abbrev pub says_yes : Read → Bool
says_yes (packet header (a ∷ zero ∷ [])) = header / 16 == 2
says_yes _ = false

-- The bytes of a SUBSCRIBE: a packet id, and a length, a topic and a QoS each.
abbrev filters_size : List Bytes → ℕ
filters_size [] = 0
filters_size (t ∷ ts) = length t + 3 + filters_size ts

abbrev pub subscribe_size : List Bytes → ℕ
subscribe_size ts = 2 + filters_size ts

-- What a session needs, with the client id and every topic shorter than 65536 bytes.
abbrev pub can_serve : Client → List Bytes → Link → Bool
can_serve c topics link =
    not (is_empty (trim_space c.address))
    && (ltb 0 (length topics)
        && (link.dials
            && (link.sends_connect
                && (says_yes link.connack
                    && (leb (subscribe_size topics) 1_048_576 && link.sends_subscribe)))))

-- A packet that the broker reads as the CONNECT of the client, and as the SUBSCRIBE of the topics, whatever
-- follows it.
abbrev pub IsConnect : Client → Bytes → Type 0
IsConnect c w =
    (p : Bytes) × ((rest : Bytes) → read_packet (w ++ rest) ≡ ok (16, p, rest))
    × (read_connect p ≡ some (connect_as (chosen_id c.client_id)))

abbrev pub IsSubscribe : List Bytes → Bytes → Type 0
IsSubscribe topics w =
    (p : Bytes) × ((rest : Bytes) → read_packet (w ++ rest) ≡ ok (130, p, rest))
    × (read_subscribe p ≡ some (1, some (with_qos_0 topics)))

-- The requests as far as they were sent.
abbrev pub AreRequests : Client → List Bytes → List Bytes → Type 0
AreRequests c topics [] = Unit
AreRequests c topics (w ∷ []) = IsConnect c w
AreRequests c topics (w ∷ v ∷ []) = IsConnect c w × IsSubscribe topics v
AreRequests c topics (w ∷ v ∷ x ∷ ws) = ⊥

pub record IsSession (c : Client) (topics : List Bytes) (link : Link) (s : Served) : Type 0 where
  pub connects : s.connected ≡ can_serve c topics link
  pub acts :
      s.actions ≡ (if can_serve c topics link then (serve_loop topics false link.turns).0 else [])
  pub asks : leb 2 (length s.wrote) ≡ can_serve c topics link
  pub reads : AreRequests c topics s.wrote

client_id_of-chosen_id : (c : Client) → client_id_of c ≡ chosen_id c.client_id
unfolding client_id_of
client_id_of-chosen_id c = cases c.client_id
  where
    cases : (s : Bytes) → (if is_empty s then codes "mgl03-homekit-bridge" else s) ≡ chosen_id s
    cases [] = refl
    cases (x ∷ s) = refl

is_accepted-says_yes : (r : Read) → is_accepted r ≡ says_yes r
unfolding is_accepted accepts
is_accepted-says_yes timeout = refl
is_accepted-says_yes broken = refl
is_accepted-says_yes no_deadline = refl
is_accepted-says_yes (packet h []) = ground arith
is_accepted-says_yes (packet h (a ∷ [])) = ground arith
is_accepted-says_yes (packet h (a ∷ zero ∷ [])) = ground arith
is_accepted-says_yes (packet h (a ∷ suc b ∷ [])) = ground arith
is_accepted-says_yes (packet h (a ∷ zero ∷ x ∷ s)) = ground arith
is_accepted-says_yes (packet h (a ∷ suc b ∷ x ∷ s)) = ground arith

length-connect_payload : (id : Bytes) → length (connect_payload id) ≡ 12 + length id
unfolding connect_payload write_utf8
length-connect_payload id = omega arith

length-subscribe_payload : (ts : List Bytes) → length (subscribe_payload 1 ts) ≡ subscribe_size ts
unfolding subscribe_payload subscribe_topics write_utf8
length-subscribe_payload ts = omega (arith, filters_size_lem ts)
  where
    filters_size_lem : (ts : List Bytes) → length (subscribe_topics ts) ≡ filters_size ts
    filters_size_lem [] = omega arith
    filters_size_lem (t ∷ ts) =
        omega (arith, length-append t (0 ∷ subscribe_topics ts), filters_size_lem ts)

is_none-length : (ts : List Bytes) → not (is_none ts) ≡ ltb 0 (length ts)
is_none-length [] = ground arith
is_none-length (t ∷ ts) = ground arith

comes_about-can_serve :
    (c : Client) (link : Link)
    → length (chosen_id c.client_id) < 65536
    → comes_about c link ≡ can_serve c (normalized_topics c.topics) link
unfolding comes_about
comes_about-can_serve c link short =
    let fits : leb (length (connect_payload (client_id_of c))) max_packet_size ≡ true =
      rw (client_id_of-chosen_id c, length-connect_payload (chosen_id c.client_id))
        (ground (arith, short)) in
    rw
      (
        fits,
        is_accepted-says_yes link.connack,
        length-subscribe_payload (normalized_topics c.topics),
        is_none-length (normalized_topics c.topics),
      )
      refl

reads_requests :
    (c : Client) (ws : List Bytes)
    → length (chosen_id c.client_id) < 65536
    → All (λ t. length t < 65536) (normalized_topics c.topics)
    → AreRead ws (requests c)
    → AreRequests c (normalized_topics c.topics) ws
unfolding requests
reads_requests c [] id topics h = tt
reads_requests c (w ∷ []) id topics (read, h) = (
  connect_payload (client_id_of c),
  read,
  rw (client_id_of-chosen_id c) (read_connect-connect_payload (chosen_id c.client_id) id),
)
reads_requests c (w ∷ v ∷ []) id topics (read, (again, h)) = (
  (
    connect_payload (client_id_of c),
    read,
    rw (client_id_of-chosen_id c) (read_connect-connect_payload (chosen_id c.client_id) id),
  ),
  (
    subscribe_payload 1 (normalized_topics c.topics),
    again,
    read_subscribe-subscribe_payload (normalized_topics c.topics) topics,
  ),
)
reads_requests c (w ∷ v ∷ x ∷ ws) id topics (read, (again, h)) = absurd h

-- The client id, or "mgl03-homekit-bridge" if none is set, and every trimmed topic are shorter than 65536
-- bytes. A session then connects exactly if an address and a topic are set, the network lets it, the
-- broker answers with a CONNACK of two bytes whose return code is 0, and the SUBSCRIBE is at most a mebibyte
-- long. Only then are both requests sent, and does the client do anything but ask: what its loop does in
-- its rounds. The broker reads the requests that were sent in full as the CONNECT of that client id, for
-- MQTT level 4 with a clean session and a keep-alive of 60 seconds, and then as the SUBSCRIBE with packet
-- id 1 of the topics, in order, each at QoS 0.
pub serve-IsSession :
    (c : Client) (link : Link)
    → length (chosen_id c.client_id) < 65536
    → All (λ t. length t < 65536) (normalized_topics c.topics)
    → IsSession c (normalized_topics c.topics) link (serve c link)
serve-IsSession c link id topics =
    let served = serve-IsServed c link in
    let same = comes_about-can_serve c link id in
    let loop = (serve_loop (normalized_topics c.topics) false link.turns).0 in
    record {
      connects = served.connects ∙ same;
      acts = rw same at served.acts;
      asks = served.asks ∙ same;
      reads = reads_requests c (serve c link).wrote id topics served.reads;
    }
