-- ===== src/Mqtt/Session/Rules.antt =====
-- What the client's loop promises, on any sequence of reads.
use mgl03_homekit_bridge.Common.{
  ℕ, suc, ◌+◌, ◌*◌, ◌/◌, ◌%◌, map, eq_bytes, ◌≡◌, refl, ap, ap₂, ◌∙◌, inl, inr, Bool, true, false,
  not, ◌||◌, List, [], ◌∷◌, ◌++◌, Bytes, Result, ok, err, ◌==◌, if◌then◌else◌, arith, Bool-cases,
}
use mgl03_homekit_bridge.Mqtt.Publish.{PublishError, Publish, parse_publish}
use mgl03_homekit_bridge.Mqtt.Topics.{has_topic}
use mgl03_homekit_bridge.Mqtt.Session.{
  packet, timeout, broken, no_deadline, Turn, Action, ping, puback, handle, packet_of, Round, go_on,
  on_publish, on_suback, on_packet, on_read, serve_loop,
}

abbrev pub pings : List Action → ℕ
pings [] = 0
pings (ping ∷ acts) = suc (pings acts)
pings (_ ∷ acts) = pings acts

abbrev pub pubacks : List Action → List Bytes
pubacks [] = []
pubacks (puback b ∷ acts) = b ∷ pubacks acts
pubacks (_ ∷ acts) = pubacks acts

abbrev pub handled : List Action → List Bytes
handled [] = []
handled (handle m ∷ acts) = m ∷ handled acts
handled (_ ∷ acts) = handled acts

-- A broker's reading of a packet: a PINGREQ is empty, a PUBACK has a packet id of two bytes.
pub data Request : Type 0 where
  alive unreadable : Request
  acknowledged : ℕ → Request

pub read_request : ℕ × Bytes → Request
read_request (header, []) = if header == 192 then alive else unreadable
read_request (header, a ∷ b ∷ []) = if header == 64 then acknowledged (a * 256 + b) else unreadable
read_request (header, _) = unreadable

-- What the broker reads of the packets that the actions write.
abbrev pub requests_of : List Action → List Request
requests_of [] = []
requests_of (a ∷ acts) = map read_request (packet_of a) ++ requests_of acts

-- What the reads ask for: a ping for each timeout, an acknowledgement for each PUBLISH of QoS 1, and the
-- message of each PUBLISH on a subscribed topic for the handler.
abbrev pub published : ℕ → Bytes → Result PublishError Publish
published header payload =
    if header / 16 == 3 then parse_publish header payload else err PublishError.short_packet

abbrev is_owed : Result PublishError Publish → Bool
is_owed (err e) = false
is_owed (ok p) = p.qos == 1

abbrev owed_by : Result PublishError Publish → List Request
owed_by (err e) = []
owed_by (ok p) = if p.qos == 1 then acknowledged (p.packet_id % 65536) ∷ [] else []

-- Is the topic one of these?
pub is_one_of : List Bytes → Bytes → Bool
is_one_of [] t = false
is_one_of (s ∷ ss) t = if eq_bytes t s then true else is_one_of ss t

pub has_topic-is_one_of : (t : Bytes) (ts : List Bytes) → has_topic t ts ≡ is_one_of ts t
unfolding has_topic is_one_of
has_topic-is_one_of t [] = refl
has_topic-is_one_of t (s ∷ ss) = ground (arith, has_topic-is_one_of t ss)

abbrev pub wanted_by : List Bytes → Result PublishError Publish → List Bytes
wanted_by topics (err e) = []
wanted_by topics (ok p) = if is_one_of topics p.topic then p.message ∷ [] else []

abbrev pub owed : List Turn → List Request
owed [] = []
owed ((timeout, _) ∷ ts) = alive ∷ owed ts
owed ((packet h p, _) ∷ ts) = owed_by (published h p) ++ owed ts
owed (_ ∷ ts) = owed ts

abbrev pub wanted : List Bytes → List Turn → List Bytes
wanted topics [] = []
wanted topics ((packet h p, _) ∷ ts) = wanted_by topics (published h p) ++ wanted topics ts
wanted topics (_ ∷ ts) = wanted topics ts

-- Every timeout was the first since the last packet, and neither a read nor a write that was due failed.
abbrev pub HasNoSilence : Bool → List Turn → Type 0
HasNoSilence awaiting [] = Unit
HasNoSilence awaiting ((packet h p, writes) ∷ ts) =
    (writes || not (is_owed (published h p)) ≡ true) × HasNoSilence false ts
HasNoSilence awaiting ((timeout, writes) ∷ ts) =
    (awaiting ≡ false) × (writes ≡ true) × HasNoSilence true ts
HasNoSilence awaiting ((broken, writes) ∷ ts) = ⊥
HasNoSilence awaiting ((no_deadline, writes) ∷ ts) = ⊥

-- The two views of a list of actions, over an append.
requests_of-append :
    (xs ys : List Action) → requests_of (xs ++ ys) ≡ requests_of xs ++ requests_of ys
unfolding packet_of
requests_of-append [] ys = refl
requests_of-append (ping ∷ xs) ys = ap (λ r. read_request (0xC0, []) ∷ r) (requests_of-append xs ys)
requests_of-append (puback b ∷ xs) ys =
    ap (λ r. read_request (0x40, b) ∷ r) (requests_of-append xs ys)
requests_of-append (handle m ∷ xs) ys = requests_of-append xs ys

pub handled-append : (xs ys : List Action) → handled (xs ++ ys) ≡ handled xs ++ handled ys
handled-append [] ys = refl
handled-append (ping ∷ xs) ys = handled-append xs ys
handled-append (puback b ∷ xs) ys = handled-append xs ys
handled-append (handle m ∷ xs) ys = ap (λ r. m ∷ r) (handled-append xs ys)

ack_value : (n : ℕ) → n / 256 % 256 * 256 + n % 256 ≡ n % 65536
ack_value n = omega arith

-- A round that goes on.
record IsRound (r : Result PublishError Publish) (topics : List Bytes) (writes awaiting : Bool)
    (acts : List Action) : Type 0 where
  idle : awaiting ≡ false
  wrote : writes || not (is_owed r) ≡ true
  acked : requests_of acts ≡ owed_by r
  given : handled acts ≡ wanted_by topics r

publish-IsRound :
    (topics : List Bytes) (writes : Bool) (r : Result PublishError Publish) (a : Bool)
    → (on_publish topics writes r).1 ≡ ok a
    → IsRound r topics writes a (on_publish topics writes r).0
unfolding on_publish packet_of read_request
publish-IsRound topics writes (err e) a h = cc
publish-IsRound topics writes (ok p) a h =
    ground (arith, ack_value p.packet_id, has_topic-is_one_of p.topic topics)

packet-IsRound :
    (topics : List Bytes) (writes : Bool) (h : ℕ) (p : Bytes) (a : Bool)
    → (on_packet topics writes h p).1 ≡ ok a
    → IsRound (published h p) topics writes a (on_packet topics writes h p).0
unfolding on_packet on_suback
packet-IsRound topics writes h p a e = elim (Bool-cases (h / 16 == 3)) [
  | inl is_publish ↦
      rw is_publish (publish-IsRound topics writes (parse_publish h p) a (rw is_publish at e))
  | inr other ↦ rw other (ground arith)
]

-- A round that goes on, and then the rest of the loop.
go_on_ok :
    (end : Bool) (r : Round) (more : Bool → Round)
    → (go_on r more).1 ≡ ok end
    → (a : Bool) × (r.1 ≡ ok a) × ((more a).1 ≡ ok end) × ((go_on r more).0 ≡ r.0 ++ (more a).0)
unfolding go_on
go_on_ok end (acts, err e) more h = cc
go_on_ok end (acts, ok a) more h = (a, refl, h, refl)

-- While the client's loop has not failed: every timeout was the first since the last packet, and every
-- write that was due worked. The broker then reads, of the packets that it wrote, one PINGREQ for each
-- timeout and one PUBACK with the packet id, as 16 bits, of each PUBLISH of QoS 1, subscribed or not, all
-- in the order of what was read, and nothing else; and its handler was given the messages on subscribed
-- topics, in order, and no others.
pub serve_loop_lem :
    (ts : List Turn) (topics : List Bytes) (aw : Bool) (end : Bool)
    → (serve_loop topics aw ts).1 ≡ ok end
    → let acts = (serve_loop topics aw ts).0 in
      HasNoSilence aw ts × (requests_of acts ≡ owed ts) × (handled acts ≡ wanted topics ts)
unfolding serve_loop go_on on_read packet_of read_request
serve_loop_lem [] topics aw end h = (tt, refl, refl)
serve_loop_lem ((packet head p, writes) ∷ ts) topics aw end h =
    let now = on_packet topics writes head p in
    let (a, went, on, shape) = go_on_ok end now (λ x. serve_loop topics x ts) h in
    let round = packet-IsRound topics writes head p a went in
    let later = (serve_loop topics a ts).0 in
    let (awake, asked, messages) = serve_loop_lem ts topics a end on in
    (
      (round.wrote, rw (round.idle) at awake),
      ap requests_of shape ∙ requests_of-append now.0 later ∙ ap₂ ◌++◌ round.acked asked,
      ap handled shape ∙ handled-append now.0 later ∙ ap₂ ◌++◌ round.given messages,
    )
serve_loop_lem ((timeout, true) ∷ ts) topics false end h =
    let (awake, asked, messages) = serve_loop_lem ts topics true end h in
    ((refl, refl, awake), ap (λ r. alive ∷ r) asked, messages)
serve_loop_lem ((timeout, false) ∷ ts) topics false end h = cc
serve_loop_lem ((timeout, writes) ∷ ts) topics true end h = cc
serve_loop_lem ((broken, writes) ∷ ts) topics aw end h = cc
serve_loop_lem ((no_deadline, writes) ∷ ts) topics aw end h = cc
