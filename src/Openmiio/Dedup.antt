-- ===== src/Openmiio/Dedup.antt =====
-- deduplicator.go: the filter of duplicate and out-of-order frame counters.
pub mod Order
pub mod Sequence
use mgl03_homekit_bridge.Common.{
  ℕ, ◌+◌, ◌-◌, ◌%◌, Bool, ◌||◌, Option, none, some, List, [], ◌++◌, Bytes, codes, eq_bytes,
  is_empty, to_lower, ltb, ◌==◌, if◌then◌else◌, true, false,
}
use mgl03_homekit_bridge.Common.Int.{ℤ, pos, negsuc, sub_time, leb_ℤ}
use mgl03_homekit_bridge.Common.Table.{lookup, insert}
use mgl03_homekit_bridge.Openmiio.Types.{Update}

-- `seen_at` is a reading of the monotonic clock in nanoseconds.
pub record FrameState : Type 0 where
  pub counter : ℕ
  pub seen_at : ℤ

pub record Deduplicator : Type 0 where
  pub reset_after : ℤ
  pub frames : List (Bytes × FrameState)

pub data FrameDisposition : Type 0 where
  accepted duplicate stale : FrameDisposition

unfoldable pub new_deduplicator : ℤ → Deduplicator
new_deduplicator d = record { reset_after = d; frames = [] }

-- uint8(n) of an int.
abbrev pub to_uint8 : ℤ → ℕ
to_uint8 (pos n) = n % 256
to_uint8 (negsuc n) = 255 - n % 256

-- The identity of a frame's device: "did:" alone stands for a device with neither MAC nor DID.
unfoldable pub frame_key : Update → Bytes
frame_key u = let mac = to_lower u.mac in if is_empty mac then codes "did:" ++ u.did else mac

-- uint8(next - previous.counter)
abbrev pub frame_delta : ℕ → ℕ → ℕ
frame_delta next previous = (next + 256 - previous) % 256

unfoldable pub remember : Bytes → ℕ → ℤ → Deduplicator → Deduplicator
remember key next now d = record d {
  frames = insert key (record { counter = next; seen_at = now }) d.frames;
}

unfoldable pub classify_known :
    Deduplicator → ℤ → Bytes → ℕ → Option FrameState → Deduplicator × FrameDisposition
classify_known d now key next none = (remember key next now d, accepted)
classify_known d now key next (some previous) =
    let delta = frame_delta next previous.counter in
    if leb_ℤ d.reset_after (pos 0) || leb_ℤ d.reset_after (sub_time now previous.seen_at)
    then (remember key next now d, accepted)
    else if delta == 0
    then (d, duplicate)
    else if ltb 127 delta
    then (d, stale)
    else (remember key next now d, accepted)

-- `now` is what `d.now()` answers.
unfoldable pub classify : Deduplicator → ℤ → Update → Deduplicator × FrameDisposition
classify d now update =
    if update.has_frame_count
    then (let key = frame_key update in
        if eq_bytes key (codes "did:")
        then (d, accepted)
        else classify_known d now key (to_uint8 update.frame_count) (lookup key d.frames))
    else (d, accepted)

abbrev is_accepted : FrameDisposition → Bool
is_accepted accepted = true
is_accepted _ = false

unfoldable pub accept : Deduplicator → ℤ → Update → Deduplicator × Bool
accept d now update = let (d', disposition) = classify d now update in (d', is_accepted disposition)
