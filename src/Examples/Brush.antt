-- ===== src/Examples/Brush.antt =====
-- The toothbrush accessory.
use mgl03_homekit_bridge.Common.{◌≤◌, ◌<◌, ◌≡◌, ◌↔◌, refl, true, false, none, arith}
use mgl03_homekit_bridge.Common.Int.{pos, ◌≤ℤ◌, sub64, neg64, seconds64}
use mgl03_homekit_bridge.Bridge.Toothbrush.{apply, apply_end, raw_live, duration_abs}
use mgl03_homekit_bridge.Bridge.Toothbrush.System.{report, here, next}
use mgl03_homekit_bridge.Bridge.Toothbrush.Invariant.{Inv}
use mgl03_homekit_bridge.Bridge.Toothbrush.Trace.{initial, Reach-Inv}
use mgl03_homekit_bridge.Bridge.Toothbrush.Window.{raw_live_iff, raw_live_overflow}
use mgl03_homekit_bridge.Bridge.Toothbrush.Session.{apply_end-duration}
use mgl03_homekit_bridge.Examples.Data.{event, brushing, clock, full_battery, busy}

Reach-Inv_example :
    Inv false (apply (brushing 1 (event 0 1000 none) 1000) (clock 5) (initial full_battery).brush)
Reach-Inv_example =
    Reach-Inv full_battery
      (next here (report (initial full_battery) (brushing 1 (event 0 1000 none) 1000) (clock 5)))
      (omega arith)

apply_end-duration_example :
    let t' = apply_end (event 1 1120 none) (pos 1120) busy in
    (t'.active ≡ false)
    × (t'.motion ≡ false)
    × (t'.session_start ≡ pos 0)
    × (t'.last_duration ≡ pos 120_000_000_000)
    × (pos 1120 ≤ℤ t'.last_completed)
unfolding raw_live duration_abs sub64 neg64 seconds64
apply_end-duration_example =
    apply_end-duration busy (event 1 1120 none) 1000 1120 1120 refl refl refl (omega arith)
      (omega arith) (omega arith) (omega arith)

raw_live_iff_example :
    (raw_live (event 0 1000 none) (pos 1050) ≡ true) ↔ ((0 < 1000) × (1050 ≤ 1060) × (1000 ≤ 1110))
raw_live_iff_example =
    raw_live_iff (event 0 1000 none) 1050 1000 refl (omega arith) (omega arith) (omega arith)

raw_live_overflow_example : raw_live (event 0 1000 none) (pos 10000001000) ≡ true
raw_live_overflow_example =
    raw_live_overflow (event 0 1000 none) 1000 10000000000 refl (omega arith) (omega arith)
      (omega arith) (omega arith)
