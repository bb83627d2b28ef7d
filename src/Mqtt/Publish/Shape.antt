-- ===== src/Mqtt/Publish/Shape.antt =====
-- parsePublish against the layout of a PUBLISH packet.
use mgl03_homekit_bridge.Common.{
  ℕ, zero, suc, ◌+◌, ◌*◌, ◌/◌, ◌%◌, ◌≤◌, ◌<◌, ◌≡◌, sym, ap, ap₂, ◌∙◌, [], ◌∷◌, ◌++◌, Bytes, ok,
  length, length-append, take, drop, take-length-append, drop-length-append, take-append-drop,
  length-take, arith, ◌==◌, if◌then◌else◌, All,
}
use mgl03_homekit_bridge.Mqtt.Wire.{be_uint16}
use mgl03_homekit_bridge.Mqtt.Publish.{Publish, be_value, publish_qos, parse_body, parse_publish}

-- The body of a PUBLISH packet: the topic behind its length, the packet id at QoS 1, the message.
abbrev pub publish_payload : Publish → Bytes
publish_payload p =
    be_uint16 (length p.topic)
    ++ (p.topic ++ ((if p.qos == 1 then be_uint16 p.packet_id else []) ++ p.message))

-- What a client of QoS 0 and 1 can be sent.
pub record IsPublish (p : Publish) : Type 0 where
  pub named : 0 < length p.topic
  pub short : length p.topic < 65536
  pub low : p.qos ≤ 1
  pub counted : p.packet_id < 65536
  pub unnumbered : p.qos ≡ 0 → p.packet_id ≡ 0

be_value-be_uint16 : (n : ℕ) (s : Bytes) → n < 65536 → be_value (be_uint16 n ++ s) ≡ n
unfolding be_value
be_value-be_uint16 n s h = omega arith

drop_header : (n : ℕ) (a b : ℕ) (s : Bytes) → drop (2 + n) (a ∷ b ∷ s) ≡ drop n s
drop_header n a b s = ap (λ (k : ℕ). drop k (a ∷ b ∷ s)) (two_more n)
  where
    two_more : (k : ℕ) → 2 + k ≡ suc (suc k)
    two_more k = omega arith

parse_topic :
    (header : ℕ) (topic body : Bytes)
    → 0 < length topic
    → length topic < 65536
    → parse_publish header (be_uint16 (length topic) ++ (topic ++ body))
      ≡ parse_body (publish_qos header) topic body
unfolding parse_publish
parse_topic header topic body named short =
    let size = length-append topic body in
    rw
      (
        be_value-be_uint16 (length topic) (topic ++ body) short,
        drop_header (length topic) (length topic / 256 % 256) (length topic % 256) (topic ++ body),
        take-length-append topic body,
        drop-length-append topic body,
      )
      (ground (arith, size))

parse_body_lem :
    (p : Publish)
    → IsPublish p
    → parse_body p.qos p.topic ((if p.qos == 1 then be_uint16 p.packet_id else []) ++ p.message)
      ≡ ok p
unfolding parse_body be_value
parse_body_lem p h = ground arith

-- Every PUBLISH of QoS 0 or 1 with a topic of 1 to 65535 bytes is read as what it says.
pub parse_publish-publish_payload :
    (p : Publish) (header : ℕ)
    → IsPublish p
    → publish_qos header ≡ p.qos
    → parse_publish header (publish_payload p) ≡ ok p
parse_publish-publish_payload p header h q =
    parse_topic header p.topic _ h.named h.short ∙ rw q (parse_body_lem p h)

abbrev ByteString : Bytes → Type 0
ByteString = All (λ b. b < 256)

-- What an accepted body says about the result.
record IsBody (q : ℕ) (topic body : Bytes) (p : Publish) : Type 0 where
  same_topic : p.topic ≡ topic
  same_qos : p.qos ≡ q
  low : q ≤ 1
  counted : p.packet_id < 65536
  unnumbered : p.qos ≡ 0 → p.packet_id ≡ 0
  whole : (if p.qos == 1 then be_uint16 p.packet_id else []) ++ p.message ≡ body

be_uint16_lem : (c d : ℕ) → c < 256 → d < 256 → be_uint16 (c * 256 + d) ≡ c ∷ d ∷ []
be_uint16_lem c d hc hd = ap₂ (λ x y. x ∷ y ∷ []) (omega arith) (omega arith)

parse_body-IsBody :
    (q : ℕ) (topic body : Bytes) (p : Publish)
    → ByteString body
    → parse_body q topic body ≡ ok p
    → IsBody q topic body p
unfolding parse_body be_value
parse_body-IsBody q topic [] p bytes e = ground arith
parse_body-IsBody q topic (c ∷ []) p bytes e = ground arith
parse_body-IsBody q topic (c ∷ d ∷ m) p (hc, (hd, hm)) e = ground (arith, be_uint16_lem c d hc hd)

drop-ByteString : (n : ℕ) (s : Bytes) → ByteString s → ByteString (drop n s)
drop-ByteString zero s h = h
drop-ByteString (suc n) [] h = tt
drop-ByteString (suc n) (b ∷ s) (hb, hs) = drop-ByteString n s hs

parse_publish_accepts :
    (header a b : ℕ) (s : Bytes) (p : Publish)
    → parse_publish header (a ∷ b ∷ s) ≡ ok p
    → (0 < a * 256 + b)
      × (a * 256 + b ≤ length s)
      × (parse_body (publish_qos header) (take (a * 256 + b) s) (drop (a * 256 + b) s) ≡ ok p)
unfolding parse_publish be_value
parse_publish_accepts header a b s p e = ground (arith, drop_header (a * 256 + b) a b s)

-- Whatever is accepted is such a packet: its bytes are those of the result, and nothing is left out.
pub publish_payload-parse_publish :
    (header : ℕ) (payload : Bytes) (p : Publish)
    → All (λ b. b < 256) payload
    → parse_publish header payload ≡ ok p
    → (publish_payload p ≡ payload) × IsPublish p × (publish_qos header ≡ p.qos)
publish_payload-parse_publish header [] p bytes e = unfold parse_publish be_value in cc
publish_payload-parse_publish header (a ∷ []) p bytes e = unfold parse_publish be_value in cc
publish_payload-parse_publish header (a ∷ b ∷ s) p (ha, (hb, hs)) e =
    let n = a * 256 + b in
    let (named, fits, body) = parse_publish_accepts header a b s p e in
    let h =
      parse_body-IsBody (publish_qos header) (take n s) (drop n s) p (drop-ByteString n s hs)
        body in
    let size : length p.topic ≡ n = ap length h.same_topic ∙ omega (arith, length-take n s) in
    (
      rw (size, h.same_topic, h.whole, take-append-drop n s)
          (ap (λ (r : Bytes). r ++ s) (be_uint16_lem a b ha hb)),
      record {
        named = rw size named;
        short = rw size (omega arith);
        low = rw (h.same_qos) (h.low);
        counted = h.counted;
        unnumbered = h.unnumbered;
      },
      sym h.same_qos,
    )
