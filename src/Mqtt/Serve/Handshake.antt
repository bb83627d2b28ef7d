-- ===== src/Mqtt/Serve/Handshake.antt =====
-- When a session comes about, and what the broker reads of it.
use mgl03_homekit_bridge.Common.{
  ◌⊎◌, ℕ, ◌/◌, ◌≡◌, refl, inl, inr, Bool, true, false, not, ◌&&◌, List, [], ◌∷◌, ◌++◌, Bytes, ok,
  err, is_empty, length, trim_space, leb, ◌==◌, if◌then◌else◌, arith, Bool-cases,
}
use mgl03_homekit_bridge.Mqtt.Wire.{
  max_packet_size, encode_remaining_length, write_packet, read_packet,
}
use mgl03_homekit_bridge.Mqtt.Wire.Packet.{write_packet_ok, read_packet-write_packet}
use mgl03_homekit_bridge.Mqtt.Topics.{normalized_topics, connect_payload, subscribe_payload}
use mgl03_homekit_bridge.Mqtt.Session.{Read, packet, timeout, broken, no_deadline, serve_loop}
use mgl03_homekit_bridge.Mqtt.Serve.{
  Client, Link, Served, ServeError, not_configured, dial_failed, connect_failed, connack_failed,
  rejected, subscribe_failed, client_id_of, accepts, is_none, stopped, after_subscribe,
  after_connack, after_connect, serve,
}

-- The broker accepts the connection.
unfoldable pub is_accepted : Read → Bool
is_accepted (packet header payload) = header / 16 == 2 && accepts payload
is_accepted timeout = false
is_accepted broken = false
is_accepted no_deadline = false

-- What a session needs.
unfoldable pub comes_about : Client → Link → Bool
comes_about c link =
    not (is_empty (trim_space c.address))
    && (not (is_none (normalized_topics c.topics))
        && (link.dials
            && (leb (length (connect_payload (client_id_of c))) max_packet_size
                && (link.sends_connect
                    && (is_accepted link.connack
                        && (leb (length (subscribe_payload 1 (normalized_topics c.topics)))
                              max_packet_size
                            && link.sends_subscribe))))))

-- The requests of a session, as header and payload.
unfoldable pub requests : Client → List (ℕ × Bytes)
requests c =
    (0x10, connect_payload (client_id_of c))
    ∷ (0x82, subscribe_payload 1 (normalized_topics c.topics))
    ∷ []

-- Each packet that was written is read as the next of the requests, whatever follows it.
abbrev pub AreRead : List Bytes → List (ℕ × Bytes) → Type 0
AreRead [] rs = Unit
AreRead (w ∷ ws) [] = ⊥
AreRead (w ∷ ws) ((h, p) ∷ rs) =
    ((rest : Bytes) → read_packet (w ++ rest) ≡ ok (h, p, rest)) × AreRead ws rs

-- The session `s` with the loop's actions, given whether it comes about.
pub record IsServed (rs : List (ℕ × Bytes)) (topics : List Bytes) (link : Link) (goes : Bool)
    (s : Served) : Type 0 where
  pub connects : s.connected ≡ goes
  pub acts : s.actions ≡ (if goes then (serve_loop topics false link.turns).0 else [])
  pub asks : leb 2 (length s.wrote) ≡ goes
  pub reads : AreRead s.wrote rs

-- What was written so far, when the session stops.
stopped-IsServed :
    (rs : List (ℕ × Bytes)) (topics : List Bytes) (link : Link) (ws : List Bytes) (e : ServeError)
    → leb 2 (length ws) ≡ false
    → AreRead ws rs
    → IsServed rs topics link false (stopped ws e)
unfolding stopped
stopped-IsServed rs topics link ws e h r = record {
  connects = refl;
  acts = refl;
  asks = h;
  reads = r;
}

-- Writing a packet, by its size.
write_packet-cases :
    (header : ℕ) (payload : Bytes)
    → ((leb (length payload) max_packet_size ≡ false)
        × (n : ℕ) × (write_packet header payload ≡ err n))
      ⊎ ((leb (length payload) max_packet_size ≡ true)
          × (wire : Bytes) × (write_packet header payload ≡ ok wire)
          × ((rest : Bytes) → read_packet (wire ++ rest) ≡ ok (header, payload, rest)))
write_packet-cases header payload = elim (Bool-cases (leb (length payload) max_packet_size)) [
  | inr large ↦ inl (large, length payload, unfold write_packet in ground arith)
  | inl small ↦
      let wire = header ∷ encode_remaining_length (length payload) ++ payload in
      let e = write_packet_ok header payload (ground arith) in
      inr (small, wire, e, λ rest. read_packet-write_packet header payload rest wire e)
]

after_subscribe-IsServed :
    (link : Link) (topics : List Bytes) (sent p : Bytes) (h : ℕ) (rs : List (ℕ × Bytes))
    → ((rest : Bytes) → read_packet (sent ++ rest) ≡ ok (h, p, rest))
    → let payload = subscribe_payload 1 topics in
      IsServed
        ((h, p) ∷ (0x82, payload) ∷ rs)
        topics
        link
        (leb (length payload) max_packet_size && link.sends_subscribe)
        (after_subscribe link topics sent (write_packet 0x82 payload))
unfolding after_subscribe
after_subscribe-IsServed link topics sent p h rs first =
    let payload = subscribe_payload 1 topics in
    let all = (h, p) ∷ (0x82, payload) ∷ rs in
    elim (write_packet-cases 0x82 payload) [
      | inl (large, n, e) ↦
          rw (large, e)
            (stopped-IsServed all topics link (sent ∷ []) subscribe_failed refl (first, tt))
      | inr (small, wire, e, second) ↦
          rw (small, e)
            (elim (Bool-cases link.sends_subscribe) [
              | inl works ↦ simp works (record {
                connects = refl;
                acts = refl;
                asks = refl;
                reads = (first, (second, tt));
              })
              | inr fails ↦
                  simp fails
                    (stopped-IsServed all topics link (sent ∷ []) subscribe_failed refl (first, tt))
            ])
    ]

after_connack-IsServed :
    (link : Link) (topics : List Bytes) (sent p : Bytes) (h : ℕ) (r : Read)
    → ((rest : Bytes) → read_packet (sent ++ rest) ≡ ok (h, p, rest))
    → let payload = subscribe_payload 1 topics in
      IsServed
        ((h, p) ∷ (0x82, payload) ∷ [])
        topics
        link
        (is_accepted r && (leb (length payload) max_packet_size && link.sends_subscribe))
        (after_connack link topics sent r)
unfolding after_connack is_accepted
after_connack-IsServed link topics sent p h timeout first =
    stopped-IsServed ((h, p) ∷ (0x82, subscribe_payload 1 topics) ∷ []) topics link (sent ∷ [])
      connack_failed refl (first, tt)
after_connack-IsServed link topics sent p h broken first =
    stopped-IsServed ((h, p) ∷ (0x82, subscribe_payload 1 topics) ∷ []) topics link (sent ∷ [])
      connack_failed refl (first, tt)
after_connack-IsServed link topics sent p h no_deadline first =
    stopped-IsServed ((h, p) ∷ (0x82, subscribe_payload 1 topics) ∷ []) topics link (sent ∷ [])
      connack_failed refl (first, tt)
after_connack-IsServed link topics sent p h (packet header payload) first =
    elim (Bool-cases (header / 16 == 2 && accepts payload)) [
      | inl good ↦ rw good (after_subscribe-IsServed link topics sent p h [] first)
      | inr bad ↦ rw bad (
          stopped-IsServed ((h, p) ∷ (0x82, subscribe_payload 1 topics) ∷ []) topics link
            (sent ∷ []) rejected refl (first, tt))
    ]

after_connect-IsServed :
    (link : Link) (topics : List Bytes) (p : Bytes)
    → let payload = subscribe_payload 1 topics in
      IsServed
        ((0x10, p) ∷ (0x82, payload) ∷ [])
        topics
        link
        (leb (length p) max_packet_size
          && (link.sends_connect
              && (is_accepted link.connack
                  && (leb (length payload) max_packet_size && link.sends_subscribe))))
        (after_connect link topics (write_packet 0x10 p))
unfolding after_connect
after_connect-IsServed link topics p =
    let all = (0x10, p) ∷ (0x82, subscribe_payload 1 topics) ∷ [] in
    elim (write_packet-cases 0x10 p) [
      | inl (large, n, e) ↦
          rw (large, e) (stopped-IsServed all topics link [] connect_failed refl tt)
      | inr (small, wire, e, first) ↦
          rw (small, e)
            (elim (Bool-cases link.sends_connect) [
              | inl works ↦
                  simp works (after_connack-IsServed link topics wire p 0x10 link.connack first)
              | inr fails ↦ simp fails (stopped-IsServed all topics link [] connect_failed refl tt)
            ])
    ]

-- A session connects exactly if an address and a topic are set, the network lets it, the broker accepts
-- it, and both requests are at most a mebibyte long. Only then does it do anything but ask: what its loop
-- does in its rounds. What it writes before is read by the broker as the CONNECT with its client id and
-- the SUBSCRIBE of its topics, in this order and as far as it came.
pub serve-IsServed :
    (c : Client) (link : Link)
    → IsServed (requests c) (normalized_topics c.topics) link (comes_about c link) (serve c link)
unfolding serve requests comes_about
serve-IsServed c link =
    let topics = normalized_topics c.topics in
    let no = stopped-IsServed (requests c) topics link [] in
    elim (Bool-cases (is_empty (trim_space c.address))) [
      | inl blank ↦ rw blank (no not_configured refl tt)
      | inr address ↦ rw address (elim (Bool-cases (is_none topics)) [
        | inl empty ↦ rw empty (no not_configured refl tt)
        | inr full ↦ rw full (elim (Bool-cases link.dials) [
          | inr fails ↦ simp fails (no dial_failed refl tt)
          | inl dials ↦
              simp dials (after_connect-IsServed link topics (connect_payload (client_id_of c)))
        ])
      ])
    ]
