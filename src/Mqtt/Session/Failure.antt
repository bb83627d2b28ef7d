-- ===== src/Mqtt/Session/Failure.antt =====
-- How a session fails.
use mgl03_homekit_bridge.Common.{
  ◌/◌, ◌≡◌, ◌⊎◌, refl, ap, sym, ◌∙◌, inl, inr, Bool, List, [], ◌∷◌, ◌++◌, Bytes, Result, ok, err,
  ◌==◌, arith, Bool-cases,
}
use mathlib.Core.List.{append_assoc}
use mgl03_homekit_bridge.Mqtt.Publish.{PublishError, Publish, parse_publish}
use mgl03_homekit_bridge.Mqtt.Session.{
  Read, packet, timeout, broken, no_deadline, Turn, Action, SessionError, puback_unsent, Round,
  go_on, on_publish, on_suback, on_packet, on_read, serve_loop,
}
use mgl03_homekit_bridge.Mqtt.Session.Rules.{pings, pubacks, handled}

-- The round that fails writes nothing, and its message was handled only if the acknowledgement failed.
abbrev pub IsCutShort : SessionError → List Action → Type 0
IsCutShort e acts =
    (pings acts ≡ 0) × (pubacks acts ≡ []) × ((handled acts ≡ []) ⊎ (e ≡ puback_unsent))

-- The rounds before, the one that fails, and the others, which are not looked at.
pub record HasFailed (topics : List Bytes) (aw : Bool) (e : SessionError) (ts : List Turn)
    : Type 0 where
  pub before : List Turn
  pub last : Turn
  pub after : List Turn
  pub awaiting : Bool
  pub parts : ts ≡ before ++ (last ∷ after)
  pub went : (serve_loop topics aw before).1 ≡ ok awaiting
  pub failed : (on_read topics awaiting last.1 last.0).1 ≡ err e
  pub done :
      (serve_loop topics aw ts).0
      ≡ (serve_loop topics aw before).0 ++ (on_read topics awaiting last.1 last.0).0
  pub cut_short : IsCutShort e (on_read topics awaiting last.1 last.0).0

publish-IsCutShort :
    (topics : List Bytes) (writes : Bool) (r : Result PublishError Publish) (e : SessionError)
    → (on_publish topics writes r).1 ≡ err e
    → IsCutShort e (on_publish topics writes r).0
unfolding on_publish
publish-IsCutShort topics writes (err x) e h = (refl, refl, inl refl)
publish-IsCutShort topics writes (ok p) e h = ground arith

round-IsCutShort :
    (topics : List Bytes) (aw writes : Bool) (r : Read) (e : SessionError)
    → (on_read topics aw writes r).1 ≡ err e
    → IsCutShort e (on_read topics aw writes r).0
unfolding on_read on_packet on_suback
round-IsCutShort topics aw writes no_deadline e h = (refl, refl, inl refl)
round-IsCutShort topics aw writes timeout e h = ground arith
round-IsCutShort topics aw writes broken e h = (refl, refl, inl refl)
round-IsCutShort topics aw writes (packet head p) e h = elim (Bool-cases (head / 16 == 3)) [
  | inl is_publish ↦
      rw is_publish (publish-IsCutShort topics writes (parse_publish head p) e (rw is_publish at h))
  | inr other ↦ rw other (ground arith)
]

go_on_err :
    (x : SessionError) (r : Round) (more : Bool → Round) → r.1 ≡ err x → go_on r more ≡ (r.0, err x)
unfolding go_on
go_on_err x (acts, err e) more h = ap (λ (end : Result SessionError Bool). (acts, end)) h
go_on_err x (acts, ok a) more h = cc

go_on_more :
    (a : Bool) (r : Round) (more : Bool → Round)
    → r.1 ≡ ok a
    → go_on r more ≡ (r.0 ++ (more a).0, (more a).1)
unfolding go_on
go_on_more a (acts, err e) more h = cc
go_on_more a (acts, ok b) more h =
    let same : b ≡ a = cc in ap (λ (c : Bool). (acts ++ (more c).0, (more c).1)) same

end_cases :
    (r : Result SessionError Bool) → ((e : SessionError) × (r ≡ err e)) ⊎ ((a : Bool) × (r ≡ ok a))
end_cases (err e) = inl (e, refl)
end_cases (ok a) = inr (a, refl)

-- When the loop ends with an error: the rounds before went well, one round gave the error, and no later
-- one was looked at. What was done is what those before did and the failing round, which wrote nothing,
-- and handled a message only if it was its acknowledgement that could not be sent.
pub serve_loop_failed :
    (ts : List Turn) (topics : List Bytes) (aw : Bool) (e : SessionError)
    → (serve_loop topics aw ts).1 ≡ err e
    → HasFailed topics aw e ts
unfolding serve_loop
serve_loop_failed [] topics aw e h = cc
serve_loop_failed ((r, writes) ∷ ts) topics aw e h =
    let now = on_read topics aw writes r in
    let more = λ (a : Bool). serve_loop topics a ts in
    elim (end_cases now.1) [
      | inl (x, failed) ↦
          let stop = go_on_err x now more failed in
          let same : now.1 ≡ err e = failed ∙ sym (ap (λ (o : Round). o.1) stop) ∙ h in
          record {
            before = [];
            last = (r, writes);
            after = ts;
            awaiting = aw;
            parts = refl;
            went = refl;
            failed = same;
            done = ap (λ (o : Round). o.0) stop;
            cut_short = round-IsCutShort topics aw writes r e same;
          }
      | inr (a, goes) ↦
          let on = go_on_more a now more goes in
          let f = serve_loop_failed ts topics a e (sym (ap (λ (o : Round). o.1) on) ∙ h) in
          let begin = go_on_more a now (λ b. serve_loop topics b f.before) goes in
          let last_acts = (on_read topics f.awaiting f.last.1 f.last.0).0 in
          record {
            before = (r, writes) ∷ f.before;
            last = f.last;
            after = f.after;
            awaiting = f.awaiting;
            parts = ap (λ (l : List Turn). (r, writes) ∷ l) f.parts;
            went = ap (λ (o : Round). o.1) begin ∙ f.went;
            failed = f.failed;
            done =
                ap (λ (o : Round). o.0) on
                ∙ ap (λ (l : List Action). now.0 ++ l) f.done
                ∙ sym (append_assoc now.0 (serve_loop topics a f.before).0 last_acts)
                ∙ ap (λ (o : Round). o.0 ++ last_acts) (sym begin);
            cut_short = f.cut_short;
          }
    ]
