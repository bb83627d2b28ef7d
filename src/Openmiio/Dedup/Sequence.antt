-- ===== src/Openmiio/Dedup/Sequence.antt =====
-- Deduplicator.Classify on a run of frames of one device, against true sequence numbers.
use mgl03_homekit_bridge.Common.{
  ℕ, ◌+◌, ◌%◌, ◌≤◌, ◌≡◌, refl, ap₂, some, List, [], ◌∷◌, if◌then◌else◌, arith, ltb, ◌==◌,
}
use mgl03_homekit_bridge.Common.Int.{ℤ, pos, ◌<ℤ◌, sub_time}
use mgl03_homekit_bridge.Common.Table.{lookup, lookup-insert_self}
use mgl03_homekit_bridge.Openmiio.Types.{Update}
use mgl03_homekit_bridge.Openmiio.Dedup.{
  FrameState, Deduplicator, FrameDisposition, accepted, duplicate, stale, frame_key, remember,
  classify_known, classify,
}
use mgl03_homekit_bridge.Openmiio.Dedup.Order.{IsTracked, classify-tracked}

-- Frame number `n` of the device of `u`, before the counter is cut to a byte.
abbrev pub numbered : Update → ℕ → Update
numbered u n = record u { frame_count = pos n }

-- The dispositions of a run of frames, each with the time of its arrival.
unfoldable pub classify_run : Deduplicator → Update → List (ℤ × ℕ) → List FrameDisposition
classify_run d u [] = []
classify_run d u ((t, n) ∷ rest) =
    let (d', x) = classify d t (numbered u n) in x ∷ classify_run d' u rest

-- The specification knows the newest number `m` so far: a frame counts exactly if it is newer.
abbrev pub newer : ℕ → ℕ → FrameDisposition
newer m n = if n == m then duplicate else if ltb n m then stale else accepted

abbrev pub newest_first : ℕ → List (ℤ × ℕ) → List FrameDisposition
newest_first m [] = []
newest_first m ((t, n) ∷ rest) = newer m n ∷ newest_first (if ltb m n then n else m) rest

-- Every frame comes before the reset, at most 127 ahead of the newest and at most 128 behind it.
abbrev pub IsSteady : ℤ → ℕ → ℤ → List (ℤ × ℕ) → Type 0
IsSteady reset m s [] = Unit
IsSteady reset m s ((t, n) ∷ rest) =
    (n ≤ m + 127)
    × (m ≤ n + 128)
    × (sub_time t s <ℤ reset)
    × IsSteady reset (if ltb m n then n else m) (if ltb m n then t else s) rest

-- What the filter holds of the device: the newest number modulo 256, and when it came.
abbrev pub baseline : ℕ → ℤ → FrameState
baseline m s = record { counter = m % 256; seen_at = s }

numbered-IsTracked : (u : Update) (n : ℕ) → IsTracked u → IsTracked (numbered u n)
unfolding frame_key
numbered-IsTracked u n h = record { counted = h.counted; keyed = h.keyed }

frame_key-numbered : (u : Update) (n : ℕ) → frame_key (numbered u n) ≡ frame_key u
unfolding frame_key
frame_key-numbered u n = refl

classify-numbered :
    (d : Deduplicator) (t : ℤ) (u : Update) (m n : ℕ) (s : ℤ)
    → IsTracked u
    → lookup (frame_key u) d.frames ≡ some (baseline m s)
    → classify d t (numbered u n) ≡ classify_known d t (frame_key u) (n % 256) (some (baseline m s))
classify-numbered d t u m n s h e =
    rw (classify-tracked d t (numbered u n) (numbered-IsTracked u n h), frame_key-numbered, e)

-- One step keeps the link to the newest number.
known_step :
    (d : Deduplicator) (t s : ℤ) (u : Update) (m n : ℕ)
    → pos 0 <ℤ d.reset_after
    → sub_time t s <ℤ d.reset_after
    → n ≤ m + 127
    → m ≤ n + 128
    → let r = classify_known d t (frame_key u) (n % 256) (some (baseline m s)) in
      (r.1 ≡ newer m n) × (r.0 ≡ (if ltb m n then remember (frame_key u) (n % 256) t d else d))
unfolding classify_known
known_step d t s u m n hr hw up down = (ground arith, ground arith)

remembered :
    (d : Deduplicator) (t s : ℤ) (u : Update) (m n : ℕ)
    → lookup (frame_key u) d.frames ≡ some (baseline m s)
    → let d' = if ltb m n then remember (frame_key u) (n % 256) t d else d in
      (lookup (frame_key u) d'.frames
        ≡ some (baseline (if ltb m n then n else m) (if ltb m n then t else s)))
      × (d'.reset_after ≡ d.reset_after)
unfolding remember
remembered d t s u m n e = ground (arith, lookup-insert_self (frame_key u) (baseline n t) d.frames)

-- On a steady run of frames of one device the filter accepts exactly the frames whose true number is
-- greater than all that it accepted before, though it compares only bytes.
pub classify_run-newest_first :
    (fs : List (ℤ × ℕ)) (d : Deduplicator) (u : Update) (m : ℕ) (s : ℤ)
    → IsTracked u
    → pos 0 <ℤ d.reset_after
    → lookup (frame_key u) d.frames ≡ some (baseline m s)
    → IsSteady d.reset_after m s fs
    → classify_run d u fs ≡ newest_first m fs
unfolding classify_run
classify_run-newest_first [] d u m s h hr e w = refl
classify_run-newest_first ((t, n) ∷ rest) d u m s h hr e (up, down, soon, steady) =
    let (same, state) = known_step d t s u m n hr soon up down in
    let (kept, reset) = remembered d t s u m n e in
    rw (classify-numbered d t u m n s h e) (
      ap₂ ◌∷◌ same
        (rw state (classify_run-newest_first rest _ u _ _ h (rw reset hr) kept (rw reset steady))))
