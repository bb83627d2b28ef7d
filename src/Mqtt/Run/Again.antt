-- ===== src/Mqtt/Run/Again.antt =====
-- The client connects again.
use mgl03_homekit_bridge.Common.{
  ℕ, suc, ◌*◌, ◌≡◌, refl, ap, sym, ◌∙◌, Bool, true, false, List, [], ◌∷◌, ◌++◌, Result, err, map,
  leb, if◌then◌else◌, All,
}
use mathlib.Core.List.{append_assoc}
use mgl03_homekit_bridge.Mqtt.Topics.{normalized_topics}
use mgl03_homekit_bridge.Mqtt.Session.{serve_loop}
use mgl03_homekit_bridge.Mqtt.Serve.{Client, ServeError, serve}
use mgl03_homekit_bridge.Mqtt.Serve.Handshake.{comes_about, serve-IsServed}
use mgl03_homekit_bridge.Mqtt.Backoff.{second, next_backoff}
use mgl03_homekit_bridge.Mqtt.Backoff.Bounds.{step_wait, next_backoff-step_wait}
use mgl03_homekit_bridge.Mqtt.Run.{
  Cancel, later, Attempt, Event, sent, state, acted, failed, waited, session_events, after_session,
  run_from, run,
}

-- A session that fails before the context is cancelled.
abbrev pub GoesOn : Client → Attempt → Type 0
GoesOn c a = (a.cancel ≡ later) × (e : ServeError) × ((serve c a.link).ending ≡ err e)

after_session-later :
    (end : Result ServeError Bool) (cancel : Cancel) (wait : ℕ) (more : List Event) (e : ServeError)
    → cancel ≡ later
    → end ≡ err e
    → after_session end cancel wait more ≡ state false ∷ failed e ∷ waited wait ∷ more
unfolding after_session
after_session-later end cancel wait more e goes fails = rw (goes, fails) refl

run_from_later :
    (c : Client) (a : Attempt) (rest : List Attempt) (k : ℕ) (e : ServeError)
    → a.cancel ≡ later
    → (serve c a.link).ending ≡ err e
    → let here = if leb (60 * second) a.lasted then 0 else k in
      run_from c (step_wait k) (a ∷ rest)
      ≡ session_events (serve c a.link)
        ++ (state false
            ∷ failed e
            ∷ waited (step_wait here)
            ∷ run_from c (step_wait (suc here)) rest)
unfolding run_from
run_from_later c a rest k e goes fails =
    let here = if leb (60 * second) a.lasted then 0 else k in
    let more = run_from c (step_wait (suc here)) rest in
    rw (next_backoff-step_wait k a.lasted) (
      ap (λ (es : List Event). session_events (serve c a.link) ++ es)
        (after_session-later (serve c a.link).ending a.cancel (step_wait here) more e goes fails))

-- The sessions after such ones come about as if they stood alone, with a wait of their own.
run_from-append :
    (c : Client) (before rest : List Attempt) (k : ℕ)
    → All (GoesOn c) before
    → (n : ℕ) × (es : List Event) × (run_from c (step_wait k) (before ++ rest)
        ≡ es ++ run_from c (step_wait n) rest)
run_from-append c [] rest k h = (k, [], refl)
run_from-append c (a ∷ before) rest k ((goes, e, fails), h) =
    let here = if leb (60 * second) a.lasted then 0 else k in
    let (n, es, parts) = run_from-append c before rest (suc here) h in
    let seen = session_events (serve c a.link) in
    let told = state false ∷ failed e ∷ waited (step_wait here) ∷ [] in
    (
      n,
      seen ++ (told ++ es),
      run_from_later c a (before ++ rest) k e goes fails
          ∙ ap (λ (l : List Event). seen ++ (told ++ l)) parts
          ∙ sym (append_assoc seen (told ++ es) (run_from c (step_wait n) rest)),
    )

session_parts :
    (c : Client) (a : Attempt) (rest : List Attempt) (backoff : ℕ)
    → let s = serve c a.link in
      s.connected ≡ true
      → (es : List Event) × (run_from c backoff (a ∷ rest)
          ≡ map sent s.wrote ++ (state true ∷ (map acted s.actions ++ es)))
unfolding run_from session_events
session_parts c a rest backoff on =
    let s = serve c a.link in
    let (wait, backoff') = next_backoff backoff a.lasted in
    let es = after_session s.ending a.cancel wait (run_from c backoff' rest) in
    (es, rw on (append_assoc (map sent s.wrote) (state true ∷ map acted s.actions) es))

-- However many sessions have failed, while the context is not cancelled: the next one for which the
-- network and the broker allow it is reported as connected, and its loop does what it does on its own.
pub run-comes_about :
    (c : Client) (before rest : List Attempt) (a : Attempt)
    → All (GoesOn c) before
    → comes_about c a.link ≡ true
    → let acts = (serve_loop (normalized_topics c.topics) false a.link.turns).0 in
      (es es' : List Event) × (run c (before ++ (a ∷ rest))
        ≡ es ++ (state true ∷ (map acted acts ++ es')))
unfolding run
run-comes_about c before rest a h comes =
    let (n, es, parts) = run_from-append c before (a ∷ rest) 0 h in
    let s = serve c a.link in
    let served = serve-IsServed c a.link in
    let on : s.connected ≡ true = served.connects ∙ comes in
    let acts : s.actions ≡ (serve_loop (normalized_topics c.topics) false a.link.turns).0 =
      served.acts ∙ rw comes refl in
    let (seen, e) = session_parts c a rest (step_wait n) on in
    (
      es ++ map sent s.wrote,
      seen,
      parts
          ∙ ap (λ (l : List Event). es ++ l) e
          ∙ sym (append_assoc es (map sent s.wrote) (state true ∷ (map acted s.actions ++ seen)))
          ∙ rw acts refl,
    )
