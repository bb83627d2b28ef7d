-- ===== src/Openmiio/Dedup/Order.antt =====
-- Deduplicator.Classify on one frame.
use mgl03_homekit_bridge.Common.{
  ℕ, ◌+◌, ◌%◌, ◌<◌, ◌≡◌, ◌≢◌, true, false, some, Bytes, codes, eq_bytes, to_lower, if◌then◌else◌,
  arith, ltb, ◌==◌,
}
use mgl03_homekit_bridge.Common.Int.{ℤ, pos, ◌<ℤ◌, sub_time}
use mgl03_homekit_bridge.Common.Table.{lookup, lookup-insert}
use mgl03_homekit_bridge.Openmiio.Types.{Update}
use mgl03_homekit_bridge.Openmiio.Dedup.{
  FrameState, Deduplicator, FrameDisposition, accepted, duplicate, stale, to_uint8, frame_key,
  frame_delta, remember, classify_known, classify,
}

-- The disposition of a frame that is `k` steps ahead of the last accepted one, modulo 256.
abbrev pub verdict : ℕ → FrameDisposition
verdict k = if k == 0 then duplicate else if ltb 127 k then stale else accepted

-- A frame that carries a counter, from a device with an identity.
pub record IsTracked (u : Update) : Type 0 where
  pub counted : u.has_frame_count ≡ true
  pub keyed : eq_bytes (frame_key u) (codes "did:") ≡ false

frame_delta_lem : (p k : ℕ) → p < 256 → k < 256 → frame_delta ((p + k) % 256) p ≡ k
frame_delta_lem p k hp hk = omega arith

pub classify-tracked :
    (d : Deduplicator) (now : ℤ) (u : Update)
    → IsTracked u
    → classify d now u
      ≡ classify_known d now (frame_key u) (to_uint8 u.frame_count) (lookup (frame_key u) d.frames)
unfolding classify
classify-tracked d now u h = ground (arith, h.counted, h.keyed)

-- Within the reset window the disposition depends only on how far the counter has moved: a repeat is
-- a duplicate, 1 to 127 steps ahead are accepted, and anything else is stale.
pub classify-verdict :
    (d : Deduplicator) (now : ℤ) (u : Update) (previous : FrameState) (k : ℕ)
    → IsTracked u
    → lookup (frame_key u) d.frames ≡ some previous
    → previous.counter < 256
    → pos 0 <ℤ d.reset_after
    → sub_time now previous.seen_at <ℤ d.reset_after
    → k < 256
    → to_uint8 u.frame_count ≡ (previous.counter + k) % 256
    → (classify d now u).1 ≡ verdict k
unfolding classify_known
classify-verdict d now u previous k h found hp hr hw hk e =
    rw (classify-tracked d now u h)
      (rw (found, e) (rw (frame_delta_lem previous.counter k hp hk) (ground arith)))

-- A frame that is not accepted leaves the filter as it was.
pub classify_rejected_unchanged :
    (d : Deduplicator) (now : ℤ) (u : Update)
    → (classify d now u).1 ≢ accepted
    → (classify d now u).0 ≡ d
unfolding classify classify_known
classify_rejected_unchanged d now u h = ground arith

-- An accepted tracked frame is remembered under its device, with its counter modulo 256 and the time
-- of its arrival, and no other device's entry changes.
pub classify_accepted-frames :
    (d : Deduplicator) (now : ℤ) (u : Update) (j : Bytes)
    → IsTracked u
    → (classify d now u).1 ≡ accepted
    → lookup j (classify d now u).0.frames ≡ (
        if eq_bytes (frame_key u) j
        then some (record { counter = to_uint8 u.frame_count; seen_at = now })
        else lookup j d.frames)
unfolding classify_known remember
classify_accepted-frames d now u j t h =
    let step = classify-tracked d now u t in
    ground (
      arith,
      step,
      lookup-insert j (frame_key u) (record { counter = to_uint8 u.frame_count; seen_at = now })
          d.frames,
    )

-- MAC addresses that differ only in the case of their letters name one device.
pub classify_fold_case :
    (d : Deduplicator) (now : ℤ) (u : Update) (mac' : Bytes)
    → to_lower mac' ≡ to_lower u.mac
    → classify d now (record u { mac = mac' }) ≡ classify d now u
unfolding classify frame_key
classify_fold_case d now u mac' e = rw e
