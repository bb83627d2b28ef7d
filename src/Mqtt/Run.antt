-- ===== src/Mqtt/Run.antt =====
-- client.go, Run: sessions one after the other, with the waits between them.
pub mod Trace
pub mod Again
pub mod Messages
use mgl03_homekit_bridge.Common.{
  ℕ, Bool, true, false, List, [], ◌∷◌, ◌++◌, Bytes, Result, ok, err, map, if◌then◌else◌,
}
use mgl03_homekit_bridge.Mqtt.Session.{Action}
use mgl03_homekit_bridge.Mqtt.Serve.{Client, Link, Served, ServeError, serve}
use mgl03_homekit_bridge.Mqtt.Backoff.{second, next_backoff}

-- When the context is cancelled: not before the next session, while serve runs, or while Run waits.
pub data Cancel : Type 0 where
  later in_session in_wait : Cancel

-- One session: what the network does, how long serve took, and whether the context was cancelled.
pub record Attempt : Type 0 where
  pub link : Link
  pub lasted : ℕ
  pub cancel : Cancel

-- What is seen of the client: a request that it sends, a call of OnState, an action of its loop, a call of
-- OnError, and a timer that it waits for.
pub data Event : Type 0 where
  sent : Bytes → Event
  state : Bool → Event
  acted : Action → Event
  failed : ServeError → Event
  waited : ℕ → Event

unfoldable pub session_events : Served → List Event
session_events s =
    map sent s.wrote ++ ((if s.connected then state true ∷ [] else []) ++ map acted s.actions)

-- Behind the call of serve; a session that lasts has not returned. `more` is the next round of the loop.
unfoldable pub after_session : Result ServeError Bool → Cancel → ℕ → List Event → List Event
after_session (ok b) cancel wait more = []
after_session (err e) in_session wait more = state false ∷ []
after_session (err e) in_wait wait more = state false ∷ failed e ∷ waited wait ∷ []
after_session (err e) later wait more = state false ∷ failed e ∷ waited wait ∷ more

unfoldable pub run_from : Client → ℕ → List Attempt → List Event
run_from c backoff [] = []
run_from c backoff (a ∷ rest) =
    let s = serve c a.link in
    let (wait, backoff') = next_backoff backoff a.lasted in
    session_events s ++ after_session s.ending a.cancel wait (run_from c backoff' rest)

unfoldable pub run : Client → List Attempt → List Event
run c attempts = run_from c second attempts
