-- ===== src/Bridge/Toothbrush/Ends.antt =====
-- A session whose brush falls silent is ended by the watchdog.
use mgl03_homekit_bridge.Common.{
  ℕ, ◌+◌, ◌<◌, ◌^◌, ◌≡◌, refl, inl, inr, true, false, some, List, [], ◌∷◌, ◌==◌, arith, Bool-cases,
}
use mgl03_homekit_bridge.Common.Int.{pos}
use mgl03_homekit_bridge.Bridge.Battery.{BatteryService}
use mgl03_homekit_bridge.Bridge.Timers.{
  Pending, Timers, count_waiting, count_in_flight, live, fire_waiting, fire_timer, take_one,
}
use mgl03_homekit_bridge.Bridge.Toothbrush.System.{
  System, Step, report, fire, expire, shut, Reach, with_in_flight, run_callback,
}
use mgl03_homekit_bridge.Bridge.Toothbrush.Session.{expire_watchdog-late}
use mgl03_homekit_bridge.Bridge.Toothbrush.Trace.{initial, Reach-Inv}

-- A timer that fires or a callback that runs: no report, no Close.
abbrev pub IsOwn : {s t : System} → Step s t → Type 0
IsOwn (report s u now) = ⊥
IsOwn (fire s i ts e) = Unit
IsOwn (expire s g now rest e) = Unit
IsOwn (shut s) = ⊥

-- From one state to another by such steps alone.
pub data Quiet : System → System → Type 0 where
  done : (s : System) → Quiet s s
  more : {s t u : System} (st : Step s t) → IsOwn st → Quiet t u → Quiet s u

with_timers : Timers → System → System
with_timers ts s = record s { brush = record (s.brush) { timers = ts } }

take_one_found :
    (g : ℕ) (hs : List ℕ) → 0 < count_in_flight g hs → (rest : List ℕ) × (take_one g hs ≡ some rest)
unfolding count_in_flight take_one
take_one_found g [] h = absurd (omega arith)
take_one_found g (x ∷ hs) h = elim (Bool-cases (x == g)) [
  | inl e ↦ (hs, rw e refl)
  | inr e ↦ let (rest, found) = take_one_found g hs (rw e at h) in (x ∷ rest, rw (e, found) refl)
]

fire_timer_first :
    (n : ℕ) (p : Pending) (ps : List Pending) (hs : List ℕ)
    → fire_timer p.id (record { next_id = n; waiting = p ∷ ps; in_flight = hs })
      ≡ some (record { next_id = n; waiting = ps; in_flight = p.generation ∷ hs })
unfolding fire_timer fire_waiting
fire_timer_first n p ps hs = ground arith

-- The system when its waiting timers are `ps` and its callbacks in flight `hs`.
abbrev at_timers : ℕ → List Pending → List ℕ → System → System
at_timers n ps hs s = with_timers (record { next_id = n; waiting = ps; in_flight = hs }) s

-- By such steps the session ends and the motion is cleared.
abbrev pub Ends : System → Type 0
Ends s = (u : System) × Quiet s u × (u.brush.active ≡ false) × (u.brush.motion ≡ false)

Ends-more : {s t : System} (st : Step s t) → IsOwn st → Ends t → Ends s
Ends-more st own (u, q, off, still) = (u, more st own q, off, still)

-- Timers fire one after the other until a callback of generation `g` is in flight.
reach_callback :
    (s : System) (n : ℕ) (ps : List Pending) (hs : List ℕ) (g : ℕ)
    → 0 < count_waiting g ps + count_in_flight g hs
    → ((ps' : List Pending) (hs' rest : List ℕ)
        → take_one g hs' ≡ some rest
        → Ends (at_timers n ps' hs' s))
    → Ends (at_timers n ps hs s)
unfolding with_timers count_waiting
reach_callback s n [] hs g h finish =
    let (rest, found) = take_one_found g hs (omega arith) in finish [] hs rest found
reach_callback s n (p ∷ ps) hs g h finish =
    let fired : Timers = record { next_id = n; waiting = ps; in_flight = p.generation ∷ hs } in
    Ends-more (fire (at_timers n (p ∷ ps) hs s) p.id fired (fire_timer_first n p ps hs)) tt
      (reach_callback s n ps (p.generation ∷ hs) g (unfold count_in_flight in ground arith) finish)

-- The callback of the current generation, run when the last activity is long past, ends the session.
late_callback :
    (s : System) (rest : List ℕ) (l : ℕ)
    → s.brush.active ≡ true
    → s.brush.last_activity ≡ some (pos l)
    → l + 30000000000 < 2 ^ 63
    → take_one s.brush.generation s.brush.timers.in_flight ≡ some rest
    → Ends s
unfolding run_callback with_in_flight
late_callback s rest l on last small found =
    let t = with_in_flight rest s.brush in
    let now = pos (l + 30000000000) in
    let (off, still, cleared, forgot) =
      expire_watchdog-late t l (l + 30000000000) on last (omega arith) small in
    (
      record s { brush = run_callback s.brush.generation now rest s.brush },
      more (expire s s.brush.generation now rest found) tt (done _),
      off,
      still,
    )

-- A session that any run of fewer than 2^64 - 1 steps has reached does not last for ever: from every such
-- state before Close, without a report or any other call, its timers can fire and its callbacks run until
-- the session is over and HomeKit shows no motion.
pub Reach-Ends :
    (b : BatteryService) {n : ℕ} {s : System} (l : ℕ)
    → Reach (initial b) n s
    → n + 1 < 2 ^ 64
    → s.closed ≡ false
    → s.brush.active ≡ true
    → s.brush.last_activity ≡ some (pos l)
    → l + 30000000000 < 2 ^ 63
    → Ends s
unfolding with_timers
Reach-Ends b {s = s} l r room opened on last small =
    let inv = Reach-Inv b r room in
    let ts = s.brush.timers in
    reach_callback s ts.next_id ts.waiting ts.in_flight s.brush.generation
      (unfold live in omega (arith, inv.watched opened on))
      λ ps hs rest found.
        late_callback (at_timers ts.next_id ps hs s) rest l (on) (last) small (found)
