-- ===== src/Mqtt/Run/Trace.antt =====
-- What is seen of the client over many sessions.
use mgl03_homekit_bridge.Common.{
  ℕ, suc, ◌*◌, ◌≤◌, ◌≡◌, refl, ap, ◌∙◌, inl, inr, Bool, true, false, List, [], ◌∷◌, ◌++◌, Bytes,
  Result, ok, err, map, if◌then◌else◌, All, leb, Bool-cases,
}
use mathlib.Core.List.{append_assoc}
use mgl03_homekit_bridge.Mqtt.Session.{Action}
use mgl03_homekit_bridge.Mqtt.Serve.{Client, Served, ServeError, serve}
use mgl03_homekit_bridge.Mqtt.Backoff.{second}
use mgl03_homekit_bridge.Mqtt.Backoff.Bounds.{
  step_wait, expected_waits, next_backoff-step_wait, expected_waits_bounds,
}
use mgl03_homekit_bridge.Mqtt.Run.{
  Cancel, later, in_session, in_wait, Attempt, Event, sent, state, acted, failed, waited,
  session_events, after_session, run_from, run,
}

abbrev pub states : List Event → List Bool
states [] = []
states (state b ∷ es) = b ∷ states es
states (_ ∷ es) = states es

abbrev pub waits_of : List Event → List ℕ
waits_of [] = []
waits_of (waited w ∷ es) = w ∷ waits_of es
waits_of (_ ∷ es) = waits_of es

abbrev pub errors : List Event → List ServeError
errors [] = []
errors (failed e ∷ es) = e ∷ errors es
errors (_ ∷ es) = errors es

-- The sessions after which the client waits, each with its length and its error: those that end, up to
-- the first that lasts or that is cancelled.
abbrev ended : Result ServeError Bool → Cancel → ℕ → List (ℕ × ServeError) → List (ℕ × ServeError)
ended (ok b) cancel lasted rest = []
ended (err e) in_session lasted rest = []
ended (err e) in_wait lasted rest = (lasted, e) ∷ []
ended (err e) later lasted rest = (lasted, e) ∷ rest

abbrev pub rounds : Client → List Attempt → List (ℕ × ServeError)
rounds c [] = []
rounds c (a ∷ rest) = ended (serve c a.link).ending a.cancel a.lasted (rounds c rest)

abbrev pub lengths : List (ℕ × ServeError) → List ℕ
lengths [] = []
lengths ((n, e) ∷ rs) = n ∷ lengths rs

abbrev pub causes : List (ℕ × ServeError) → List ServeError
causes [] = []
causes ((n, e) ∷ rs) = e ∷ causes rs

-- OnState(true) is called only when the last call, if there is one, was OnState(false).
abbrev pub IsToggled : Bool → List Bool → Type 0
IsToggled on [] = Unit
IsToggled on (true ∷ bs) = (on ≡ false) × IsToggled true bs
IsToggled on (false ∷ bs) = IsToggled false bs

-- What is seen of a session, before anything else.
abbrev IsSeen : Served → List Event → List Event → Type 0
IsSeen s es all =
    (states all ≡ (if s.connected then true ∷ states es else states es))
    × (waits_of all ≡ waits_of es)
    × (errors all ≡ errors es)

silent_acts :
    (acts : List Action) (es : List Event)
    → (states (map acted acts ++ es) ≡ states es)
      × (waits_of (map acted acts ++ es) ≡ waits_of es)
      × (errors (map acted acts ++ es) ≡ errors es)
silent_acts [] es = (refl, refl, refl)
silent_acts (a ∷ acts) es = silent_acts acts es

silent_requests :
    (ws : List Bytes) (es : List Event)
    → (states (map sent ws ++ es) ≡ states es)
      × (waits_of (map sent ws ++ es) ≡ waits_of es)
      × (errors (map sent ws ++ es) ≡ errors es)
silent_requests [] es = (refl, refl, refl)
silent_requests (w ∷ ws) es = silent_requests ws es

session_events-IsSeen : (s : Served) (es : List Event) → IsSeen s es (session_events s ++ es)
unfolding session_events
session_events-IsSeen s es =
    let told = if s.connected then state true ∷ [] else [] in
    let (a, b, c) = silent_requests s.wrote ((told ++ map acted s.actions) ++ es) in
    let (d, e, f) = silent_acts s.actions es in
    rw (append_assoc (map sent s.wrote) (told ++ map acted s.actions) es, a, b, c)
      (elim (Bool-cases s.connected) [
        | inl on ↦ rw on (ap (λ (bs : List Bool). true ∷ bs) d, e, f)
        | inr off ↦ rw off (d, e, f)
      ])

-- The sessions `rs` were followed by a wait, from the k-th in a row on.
record IsRun (k : ℕ) (rs : List (ℕ × ServeError)) (on : Bool) (es : List Event) : Type 0 where
  waits : waits_of es ≡ expected_waits k (lengths rs)
  reports : errors es ≡ causes rs
  toggled : IsToggled on (states es)

after_session-IsRun :
    (end : Result ServeError Bool) (cancel : Cancel) (lasted k : ℕ) (rs : List (ℕ × ServeError))
    (more : List Event) (on : Bool)
    → let here = if leb (60 * second) lasted then 0 else k in
      IsRun (suc here) rs false more
      → IsRun k (ended end cancel lasted rs) on (after_session end cancel (step_wait here) more)
unfolding after_session
after_session-IsRun (ok b) cancel lasted k rs more on h = record {
  waits = refl;
  reports = refl;
  toggled = tt;
}
after_session-IsRun (err e) in_session lasted k rs more on h = record {
  waits = refl;
  reports = refl;
  toggled = tt;
}
after_session-IsRun (err e) in_wait lasted k rs more on h = record {
  waits = refl;
  reports = refl;
  toggled = tt;
}
after_session-IsRun (err e) later lasted k rs more on h =
    let here = if leb (60 * second) lasted then 0 else k in
    record {
      waits = ap (λ (ws : List ℕ). step_wait here ∷ ws) h.waits;
      reports = ap (λ (es : List ServeError). e ∷ es) h.reports;
      toggled = h.toggled;
    }

run_from-IsRun :
    (c : Client) (attempts : List Attempt) (k : ℕ)
    → IsRun k (rounds c attempts) false (run_from c (step_wait k) attempts)
unfolding run_from
run_from-IsRun c [] k = record { waits = refl; reports = refl; toggled = tt }
run_from-IsRun c (a ∷ rest) k =
    let here = if leb (60 * second) a.lasted then 0 else k in
    let s = serve c a.link in
    let more = run_from c (step_wait (suc here)) rest in
    let es = after_session s.ending a.cancel (step_wait here) more in
    let (seen, no_wait, no_report) = session_events-IsSeen s es in
    let after = λ (on : Bool).
      after_session-IsRun s.ending a.cancel a.lasted k (rounds c rest) more on
        (run_from-IsRun c rest (suc here)) in
    rw (next_backoff-step_wait k a.lasted) (record {
      waits = no_wait ∙ (after true).waits;
      reports = no_report ∙ (after true).reports;
      toggled = rw seen (elim (Bool-cases s.connected) [
        | inl on ↦ rw on (refl, (after true).toggled)
        | inr off ↦ rw off ((after false).toggled)
      ]);
    })

-- What an observer sees of the client over any sessions: OnState(true) is never called twice without an
-- OnState(false) between; OnError is called with the error of each session that ends before the context
-- is cancelled, in order; and after each of these the client waits, 1, 2, 4, 8, 16 and then 32 seconds,
-- and again from one second on after a session of a minute.
pub run_lem :
    (c : Client) (attempts : List Attempt)
    → let es = run c attempts in
      IsToggled false (states es)
      × (errors es ≡ causes (rounds c attempts))
      × (waits_of es ≡ expected_waits 0 (lengths (rounds c attempts)))
      × All (λ w. (second ≤ w) × (w ≤ 32 * second)) (waits_of es)
unfolding run
run_lem c attempts =
    let h = run_from-IsRun c attempts 0 in
    (
      h.toggled,
      h.reports,
      h.waits,
      rw (h.waits) (expected_waits_bounds (lengths (rounds c attempts)) 0),
    )
