-- ===== src/Bridge/Toothbrush/System.antt =====
-- The toothbrush with its callers: reports, timers that fire, callbacks that get the lock, and Close.
use mgl03_homekit_bridge.Common.{ℕ, suc, ◌≡◌, Bool, true, some, List}
use mgl03_homekit_bridge.Common.Int.{ℤ}
use mgl03_homekit_bridge.Openmiio.Types.{Update}
use mgl03_homekit_bridge.Bridge.Timers.{Timers, fire_timer, take_one}
use mgl03_homekit_bridge.Bridge.Toothbrush.{Toothbrush, Now, apply, close, expire_watchdog}

-- Has Close been called?
pub record System : Type 0 where
  pub brush : Toothbrush
  pub closed : Bool

unfoldable pub with_in_flight : List ℕ → Toothbrush → Toothbrush
with_in_flight rest t = record t { timers = record (t.timers) { in_flight = rest } }

-- The callback of generation `g` leaves the set in flight and runs expireWatchdog.
unfoldable pub run_callback : ℕ → ℤ → List ℕ → Toothbrush → Toothbrush
run_callback g now rest t = expire_watchdog g now (with_in_flight rest t)

-- The mutex makes each call one step.
pub data Step : System → System → Type 0 where
  report : (s : System) (u : Update) (now : Now) → Step s (record s { brush = apply u now s.brush })
  fire :
      (s : System) (i : ℕ) (ts : Timers)
      → fire_timer i s.brush.timers ≡ some ts
      → Step s (record s { brush = record (s.brush) { timers = ts } })
  expire :
      (s : System) (g : ℕ) (now : ℤ) (rest : List ℕ)
      → take_one g s.brush.timers.in_flight ≡ some rest
      → Step s (record s { brush = run_callback g now rest s.brush })
  shut : (s : System) → Step s (record { brush = close s.brush; closed = true })

-- Reached from `s` in a number of steps.
pub data Reach (s : System) : ℕ → System → Type 0 where
  here : Reach s 0 s
  next : {n : ℕ} {t u : System} → Reach s n t → Step t u → Reach s (suc n) u
