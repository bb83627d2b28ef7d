-- ===== src/Bridge/Toothbrush/Window.antt =====
-- The 60-second live window: exact where no duration overflows, and too wide beyond.
use mgl03_homekit_bridge.Common.{ℕ, ◌+◌, ◌-◌, ◌*◌, ◌≤◌, ◌<◌, ◌^◌, ◌≡◌, true, ◌↔◌, arith}
use mgl03_homekit_bridge.Common.Int.{pos, negsuc, sub64, neg64, seconds64}
use mgl03_homekit_bridge.Openmiio.Types.{ToothbrushEvent}
use mgl03_homekit_bridge.Bridge.Toothbrush.{duration_abs, raw_live}

-- The distance of two times in seconds.
abbrev pub distance : ℕ → ℕ → ℕ
distance a b = a - b + (b - a)

duration_abs-sub64 :
    (r t : ℕ)
    → r < 2 ^ 63
    → t < 2 ^ 63
    → distance r t ≤ 9223372036
    → duration_abs (sub64 (pos r) (pos t)) ≡ pos (distance r t * 1000000000)
unfolding duration_abs sub64 neg64 seconds64
duration_abs-sub64 r t hr ht h = ground arith

-- For times at most 292 years apart an event is live exactly if its time is set and at most 60
-- seconds away from the reference, before or after.
pub raw_live_iff :
    (event : ToothbrushEvent) (r t : ℕ)
    → event.timestamp ≡ pos t
    → r < 2 ^ 63
    → t < 2 ^ 63
    → distance r t ≤ 9223372036
    → (raw_live event (pos r) ≡ true) ↔ ((0 < t) × (r ≤ t + 60) × (t ≤ r + 60))
unfolding raw_live
raw_live_iff event r t e hr ht h =
    rw (e, duration_abs-sub64 r t hr ht h) (ground arith, ground arith)

sub64_pos : (t k : ℕ) → t + k < 2 ^ 63 → sub64 (pos (t + k)) (pos t) ≡ pos k
unfolding sub64
sub64_pos t k h = ground arith

duration_abs_wraps :
    (k : ℕ)
    → 9223372037 ≤ k
    → k ≤ 18446744073
    → duration_abs (pos k) ≡ negsuc (2 ^ 64 - 1 - k * 1000000000)
unfolding duration_abs seconds64
duration_abs_wraps k lo hi = ground arith

-- Beyond that the product with a second overflows: an event between 292 and 584 years before its
-- reference is live.
pub raw_live_overflow :
    (event : ToothbrushEvent) (t k : ℕ)
    → event.timestamp ≡ pos t
    → 0 < t
    → 9223372037 ≤ k
    → k ≤ 18446744073
    → t < 4294967296
    → raw_live event (pos (t + k)) ≡ true
unfolding raw_live
raw_live_overflow event t k e pt lo hi ht =
    rw (e, sub64_pos t k (omega arith), duration_abs_wraps k lo hi) (ground arith)
