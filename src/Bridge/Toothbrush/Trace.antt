-- ===== src/Bridge/Toothbrush/Trace.antt =====
-- Every run of the toothbrush from its start.
use mgl03_homekit_bridge.Common.{ℕ, suc, ◌+◌, ◌≤◌, ◌<◌, ◌^◌, false, Option, none, some, List, arith}
use mgl03_homekit_bridge.Common.Int.{ℤ}
use mgl03_homekit_bridge.Openmiio.Types.{ToothbrushEvent, Update}
use mgl03_homekit_bridge.Bridge.Battery.{BatteryService}
use mgl03_homekit_bridge.Bridge.Timers.{live, count_waiting, count_in_flight}
use mgl03_homekit_bridge.Bridge.Toothbrush.{
  Toothbrush, Now, next_generation, arm_watchdog, stop_watchdog, apply_start, apply_end,
  apply_event, apply_level, apply, close, expire_at, expire_since, expire_watchdog, new_toothbrush,
  end_session, complete, reference_time,
}
use mgl03_homekit_bridge.Bridge.Toothbrush.System.{
  System, with_in_flight, run_callback, Step, report, fire, expire, shut, Reach, here, next,
}
use mgl03_homekit_bridge.Bridge.Toothbrush.Invariant.{Inv}
use mgl03_homekit_bridge.Bridge.Toothbrush.Watchdog.{Step-Inv}

-- A new toothbrush that has not been closed.
abbrev pub initial : BatteryService → System
initial b = record { brush = new_toothbrush b; closed = false }

next_generation-le : (g : ℕ) → next_generation g ≤ suc g
unfolding next_generation
next_generation-le g = omega arith

-- A call starts at most one generation.
apply_start-generation :
    (e : ToothbrushEvent) (r : ℤ) (now : Now) (t : Toothbrush)
    → (apply_start e r now t).generation ≤ suc t.generation
unfolding apply_start arm_watchdog
apply_start-generation e r now t = ground (arith, next_generation-le t.generation)

apply_end-generation :
    (e : ToothbrushEvent) (r : ℤ) (t : Toothbrush) → (apply_end e r t).generation ≤ suc t.generation
unfolding apply_end complete end_session stop_watchdog
apply_end-generation e r t = ground (arith, next_generation-le t.generation)

apply_event-generation :
    (o : Option ToothbrushEvent) (r : ℤ) (now : Now) (t : Toothbrush)
    → (apply_event o r now t).generation ≤ suc t.generation
unfolding apply_event
apply_event-generation none r now t = omega arith
apply_event-generation (some e) r now t =
    ground (arith, apply_start-generation e r now t, apply_end-generation e r t)

apply-generation :
    (u : Update) (now : Now) (t : Toothbrush) → (apply u now t).generation ≤ suc t.generation
unfolding apply apply_level
apply-generation u now t = ground (
  arith,
  apply_event-generation u.toothbrush (reference_time u now) now (apply_level u.battery t),
)

expire_since-generation :
    (g : ℕ) (now : ℤ) (o : Option ℤ) (t : Toothbrush)
    → (expire_since g now o t).generation ≤ suc t.generation
unfolding expire_since expire_at
expire_since-generation g now none t = omega arith
expire_since-generation g now (some last) t = ground (arith, next_generation-le t.generation)

run_callback-generation :
    (g : ℕ) (now : ℤ) (rest : List ℕ) (t : Toothbrush)
    → (run_callback g now rest t).generation ≤ suc t.generation
unfolding run_callback expire_watchdog with_in_flight
run_callback-generation g now rest t =
    ground (arith, expire_since-generation g now t.last_activity (with_in_flight rest t))

Step-generation : {s t : System} → Step s t → t.brush.generation ≤ suc s.brush.generation
Step-generation (report s u now) = apply-generation u now s.brush
Step-generation (fire s i ts e) = omega arith
Step-generation (expire s g now rest e) = run_callback-generation g now rest s.brush
Step-generation (shut s) = unfold close stop_watchdog in next_generation-le s.brush.generation

Reach-generation :
    {s : System} {n : ℕ} {t : System} → Reach s n t → t.brush.generation ≤ s.brush.generation + n
Reach-generation here = omega arith
Reach-generation (next r st) = omega (arith, Step-generation st, Reach-generation r)

new_toothbrush-Inv : (b : BatteryService) → Inv false (new_toothbrush b)
unfolding new_toothbrush live count_waiting count_in_flight
new_toothbrush-Inv b = ground arith

-- In every state that fewer than 2^64 - 1 reports, timers, callbacks and calls of Close reach from a
-- new toothbrush, in any order and with any clock readings: motion is shown exactly during a session, a
-- session has a positive start and a last activity, no callback is of a later generation than the
-- current one and at most one is of it, and exactly one if there is a session and Close was not called.
pub Reach-Inv :
    (b : BatteryService) {n : ℕ} {t : System}
    → Reach (initial b) n t
    → n + 1 < 2 ^ 64
    → Inv t.closed t.brush
Reach-Inv b here room = new_toothbrush-Inv b
Reach-Inv b (next r st) room =
    let old = Reach-generation r in
    Step-Inv st (unfold new_toothbrush in omega (arith, old)) (Reach-Inv b r (omega arith))
