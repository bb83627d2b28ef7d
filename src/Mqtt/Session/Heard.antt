-- ===== src/Mqtt/Session/Heard.antt =====
-- What the handler is given, however a session ends.
use mgl03_homekit_bridge.Common.{
  ◌/◌, ◌≡◌, refl, ap₂, sym, ◌∙◌, inl, inr, Bool, List, [], ◌∷◌, ◌++◌, Bytes, Result, ok, err, ◌==◌,
  append_nil, arith, Bool-cases,
}
use mgl03_homekit_bridge.Mqtt.Publish.{PublishError, Publish, parse_publish}
use mgl03_homekit_bridge.Mqtt.Session.{
  Read, packet, timeout, broken, no_deadline, Turn, SessionError, Round, go_on, on_publish,
  on_suback, on_packet, on_read, serve_loop,
}
use mgl03_homekit_bridge.Mqtt.Session.Rules.{
  has_topic-is_one_of, handled, handled-append, published, wanted_by, wanted,
}

-- The rounds up to the first that fails, this one with them.
abbrev while_ok : Result SessionError Bool → (Bool → List Turn) → List Turn
while_ok (err e) more = []
while_ok (ok a) more = more a

abbrev pub heard : List Bytes → Bool → List Turn → List Turn
heard topics aw [] = []
heard topics aw ((r, writes) ∷ ts) =
    (r, writes) ∷ while_ok (on_read topics aw writes r).1 (λ a. heard topics a ts)

publish-handled :
    (topics : List Bytes) (writes : Bool) (r : Result PublishError Publish)
    → handled (on_publish topics writes r).0 ≡ wanted_by topics r
unfolding on_publish
publish-handled topics writes (err e) = refl
publish-handled topics writes (ok p) = ground (arith, has_topic-is_one_of p.topic topics)

-- A round hands over the message that it read, whether or not it fails.
round-handled :
    (topics : List Bytes) (aw writes : Bool) (r : Read)
    → handled (on_read topics aw writes r).0 ≡ wanted topics ((r, writes) ∷ [])
unfolding on_read on_packet on_suback
round-handled topics aw writes no_deadline = refl
round-handled topics aw writes broken = refl
round-handled topics aw writes timeout = ground arith
round-handled topics aw writes (packet h p) = elim (Bool-cases (h / 16 == 3)) [
  | inl is_publish ↦
      rw (is_publish, publish-handled topics writes (parse_publish h p))
        (sym (append_nil (wanted_by topics (parse_publish h p))))
  | inr other ↦ rw other (ground arith)
]

wanted_cons :
    (topics : List Bytes) (t : Turn) (ts : List Turn)
    → wanted topics (t ∷ ts) ≡ wanted topics (t ∷ []) ++ wanted topics ts
wanted_cons topics (packet h p, writes) ts = rw (append_nil (wanted_by topics (published h p))) refl
wanted_cons topics (timeout, writes) ts = refl
wanted_cons topics (broken, writes) ts = refl
wanted_cons topics (no_deadline, writes) ts = refl

go_on-handled :
    (topics : List Bytes) (t : Turn) (r : Round) (more : Bool → Round) (rest : Bool → List Turn)
    → handled r.0 ≡ wanted topics (t ∷ [])
    → ((a : Bool) → handled (more a).0 ≡ wanted topics (rest a))
    → handled (go_on r more).0 ≡ wanted topics (t ∷ while_ok r.1 rest)
unfolding go_on
go_on-handled topics t (acts, err e) more rest h later = h
go_on-handled topics t (acts, ok a) more rest h later =
    handled-append acts (more a).0 ∙ ap₂ ◌++◌ h (later a) ∙ sym (wanted_cons topics t (rest a))

-- In every session, however it ends: the handler is given the messages on subscribed topics that were
-- read up to the failure, if there is one, in their order and no others.
pub handled-serve_loop :
    (topics : List Bytes) (aw : Bool) (ts : List Turn)
    → handled (serve_loop topics aw ts).0 ≡ wanted topics (heard topics aw ts)
unfolding serve_loop
handled-serve_loop topics aw [] = refl
handled-serve_loop topics aw ((r, writes) ∷ ts) =
    go_on-handled topics (r, writes) (on_read topics aw writes r) (λ a. serve_loop topics a ts)
      (λ a. heard topics a ts) (round-handled topics aw writes r)
      (λ a. handled-serve_loop topics a ts)
