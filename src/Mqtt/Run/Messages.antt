-- ===== src/Mqtt/Run/Messages.antt =====
-- The messages that the handler is given over many sessions.
use mgl03_homekit_bridge.Common.{
  ℕ, ◌≡◌, refl, ap, ap₂, ◌∙◌, inl, inr, Bool, true, false, List, [], ◌∷◌, ◌++◌, Bytes, Result, ok,
  err, map, if◌then◌else◌, Bool-cases,
}
use mathlib.Core.List.{append_assoc}
use mgl03_homekit_bridge.Mqtt.Topics.{normalized_topics}
use mgl03_homekit_bridge.Mqtt.Session.{Action, ping, puback, handle}
use mgl03_homekit_bridge.Mqtt.Session.Rules.{handled, wanted}
use mgl03_homekit_bridge.Mqtt.Session.Heard.{heard, handled-serve_loop}
use mgl03_homekit_bridge.Mqtt.Serve.{Client, Link, Served, ServeError, serve}
use mgl03_homekit_bridge.Mqtt.Serve.Handshake.{comes_about, serve-IsServed}
use mgl03_homekit_bridge.Mqtt.Backoff.{second, next_backoff}
use mgl03_homekit_bridge.Mqtt.Run.{
  Cancel, later, in_session, in_wait, Attempt, Event, sent, state, acted, failed, waited,
  session_events, after_session, run_from, run,
}

-- The messages of the events.
abbrev pub messages_of : List Event → List Bytes
messages_of [] = []
messages_of (acted (handle m) ∷ es) = m ∷ messages_of es
messages_of (acted ping ∷ es) = messages_of es
messages_of (acted (puback b) ∷ es) = messages_of es
messages_of (sent w ∷ es) = messages_of es
messages_of (state b ∷ es) = messages_of es
messages_of (failed e ∷ es) = messages_of es
messages_of (waited n ∷ es) = messages_of es

-- What the broker published on the subscribed topics while the client was listening: in each session
-- that comes about, up to its failure, and then in the sessions after it, unless the session lasts or
-- the context is cancelled.
abbrev heard_in : Client → Link → List Bytes
heard_in c link =
    let topics = normalized_topics c.topics in
    if comes_about c link then wanted topics (heard topics false link.turns) else []

abbrev then_heard : Result ServeError Bool → Cancel → List Bytes → List Bytes
then_heard (ok b) cancel more = []
then_heard (err e) in_session more = []
then_heard (err e) in_wait more = []
then_heard (err e) later more = more

abbrev pub heard_messages : Client → List Attempt → List Bytes
heard_messages c [] = []
heard_messages c (a ∷ rest) =
    heard_in c a.link ++ then_heard (serve c a.link).ending a.cancel (heard_messages c rest)

messages_of-acts :
    (acts : List Action) (es : List Event)
    → messages_of (map acted acts ++ es) ≡ handled acts ++ messages_of es
messages_of-acts [] es = refl
messages_of-acts (ping ∷ acts) es = messages_of-acts acts es
messages_of-acts (puback b ∷ acts) es = messages_of-acts acts es
messages_of-acts (handle m ∷ acts) es = ap (λ (ms : List Bytes). m ∷ ms) (messages_of-acts acts es)

messages_of-requests :
    (ws : List Bytes) (es : List Event) → messages_of (map sent ws ++ es) ≡ messages_of es
messages_of-requests [] es = refl
messages_of-requests (w ∷ ws) es = messages_of-requests ws es

messages_of-session_events :
    (s : Served) (es : List Event)
    → messages_of (session_events s ++ es) ≡ handled s.actions ++ messages_of es
unfolding session_events
messages_of-session_events s es =
    let told = if s.connected then state true ∷ [] else [] in
    rw
      (
        append_assoc (map sent s.wrote) (told ++ map acted s.actions) es,
        messages_of-requests s.wrote ((told ++ map acted s.actions) ++ es),
      )
      (elim (Bool-cases s.connected) [
        | inl on ↦ rw on (messages_of-acts s.actions es)
        | inr off ↦ rw off (messages_of-acts s.actions es)
      ])

handled-serve : (c : Client) (link : Link) → handled (serve c link).actions ≡ heard_in c link
handled-serve c link =
    let topics = normalized_topics c.topics in
    let acts = (serve-IsServed c link).acts in
    elim (Bool-cases (comes_about c link)) [
      | inl on ↦ rw (acts, on) (handled-serve_loop topics false link.turns)
      | inr off ↦ rw (acts, off) refl
    ]

messages_of-after_session :
    (end : Result ServeError Bool) (cancel : Cancel) (wait : ℕ) (more : List Event)
    (ms : List Bytes)
    → messages_of more ≡ ms
    → messages_of (after_session end cancel wait more) ≡ then_heard end cancel ms
unfolding after_session
messages_of-after_session (ok b) cancel wait more ms h = refl
messages_of-after_session (err e) in_session wait more ms h = refl
messages_of-after_session (err e) in_wait wait more ms h = refl
messages_of-after_session (err e) later wait more ms h = h

messages_of-run_from :
    (c : Client) (backoff : ℕ) (attempts : List Attempt)
    → messages_of (run_from c backoff attempts) ≡ heard_messages c attempts
unfolding run_from
messages_of-run_from c backoff [] = refl
messages_of-run_from c backoff (a ∷ rest) =
    let s = serve c a.link in
    let (wait, backoff') = next_backoff backoff a.lasted in
    let more = run_from c backoff' rest in
    messages_of-session_events s (after_session s.ending a.cancel wait more)
    ∙ ap₂ ◌++◌ (handled-serve c a.link) (
        messages_of-after_session s.ending a.cancel wait more (heard_messages c rest)
          (messages_of-run_from c backoff' rest))

-- Over all sessions the handler is given the messages that were heard, in their order and no others.
pub messages_of-run :
    (c : Client) (attempts : List Attempt)
    → messages_of (run c attempts) ≡ heard_messages c attempts
unfolding run
messages_of-run c attempts = messages_of-run_from c second attempts
