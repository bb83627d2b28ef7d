-- ===== src/App/Merge/Again.antt =====
-- Merging what came out of a merge, prepared, changes nothing.
use mgl03_homekit_bridge.Common.{
  ◌≡◌, refl, ap, inl, inr, true, false, ◌&&◌, ◌||◌, List, [], ◌∷◌, ◌++◌, eq_bytes_refl, is_empty,
  to_lower, arith, All, Bool-cases,
}
use mgl03_homekit_bridge.Config.Device.{Device}
use mgl03_homekit_bridge.App.Merge.{
  Seen, seen_in, note_device, note_devices, is_duplicate, merge_loop, device_key,
}

-- Each device is new to those before it, and can be identified.
abbrev pub IsFixed : Seen → List Device → Type 0
IsFixed seen [] = Unit
IsFixed seen (d ∷ ds) =
    (is_duplicate d seen ≡ false)
    × (is_empty (device_key d) ≡ false)
    × IsFixed (note_device d seen) ds

pub merge_loop-IsFixed : (ds : List Device) (seen : Seen) → IsFixed seen (merge_loop ds seen)
unfolding merge_loop
merge_loop-IsFixed [] seen = tt
merge_loop-IsFixed (d ∷ ds) seen =
    let later = merge_loop-IsFixed ds (note_device d seen) in
    let others = merge_loop-IsFixed ds seen in
    elim (Bool-cases (is_duplicate d seen || is_empty (device_key d))) [
      | inl skip ↦ rw skip others
      | inr add ↦ rw add (ground arith, ground arith, later)
    ]

pub merge_loop_fixed : (ds : List Device) (seen : Seen) → IsFixed seen ds → merge_loop ds seen ≡ ds
unfolding merge_loop
merge_loop_fixed [] seen h = refl
merge_loop_fixed (d ∷ ds) seen (new, keyed, h) =
    rw (new, keyed) (ap (λ (r : List Device). d ∷ r) (merge_loop_fixed ds (note_device d seen) h))

-- The same MACs and DIDs, one by one.
abbrev pub AreSame : List Device → List Device → Type 0
AreSame [] [] = Unit
AreSame [] (e ∷ es) = ⊥
AreSame (d ∷ ds) [] = ⊥
AreSame (d ∷ ds) (e ∷ es) = (d.mac ≡ e.mac) × (d.did ≡ e.did) × AreSame ds es

pub IsFixed-same :
    (ds es : List Device) (seen : Seen) → AreSame ds es → IsFixed seen ds → IsFixed seen es
unfolding is_duplicate device_key note_device
IsFixed-same [] [] seen s h = tt
IsFixed-same [] (e ∷ es) seen s h = absurd s
IsFixed-same (d ∷ ds) [] seen s h = absurd s
IsFixed-same (d ∷ ds) (e ∷ es) seen (mac, did, s) (new, keyed, h) =
    let rest = IsFixed-same ds es (note_device d seen) s h in
    (rw (← mac, ← did) new, rw (← mac, ← did) keyed, rw (← mac, ← did) rest)

-- Devices that were seen are left out.
abbrev pub AreSeen : Seen → List Device → Type 0
AreSeen seen ds = All (λ d. is_duplicate d seen ≡ true) ds

pub merge_loop-seen :
    (ds es : List Device) (seen : Seen)
    → AreSeen seen ds
    → merge_loop (ds ++ es) seen ≡ merge_loop es seen
unfolding merge_loop
merge_loop-seen [] es seen h = refl
merge_loop-seen (d ∷ ds) es seen (old, h) = rw old (merge_loop-seen ds es seen h)

seen_note :
    (d e : Device) (seen : Seen)
    → is_duplicate d seen ≡ true
    → is_duplicate d (note_device e seen) ≡ true
unfolding is_duplicate note_device seen_in
seen_note d e seen h = ground arith

seen_notes :
    (es : List Device) (d : Device) (seen : Seen)
    → is_duplicate d seen ≡ true
    → is_duplicate d (note_devices es seen) ≡ true
unfolding note_devices
seen_notes [] d seen h = h
seen_notes (e ∷ es) d seen h = seen_notes es d (note_device e seen) (seen_note d e seen h)

-- A device with a MAC or a DID.
abbrev pub IsKeyed : Device → Type 0
IsKeyed d = is_empty d.mac && is_empty d.did ≡ false

seen_own : (d : Device) (seen : Seen) → IsKeyed d → is_duplicate d (note_device d seen) ≡ true
unfolding is_duplicate note_device seen_in
seen_own d seen h = ground (arith, eq_bytes_refl d.did, eq_bytes_refl (to_lower d.mac))

pub note_devices-AreSeen :
    (ds : List Device) (seen : Seen) → All IsKeyed ds → AreSeen (note_devices ds seen) ds
unfolding note_devices
note_devices-AreSeen [] seen h = tt
note_devices-AreSeen (d ∷ ds) seen (k, h) = (
  seen_notes ds d (note_device d seen) (seen_own d seen k),
  note_devices-AreSeen ds (note_device d seen) h,
)

pub AreSeen-same :
    (ds es : List Device) (seen : Seen) → AreSame ds es → AreSeen seen ds → AreSeen seen es
unfolding is_duplicate
AreSeen-same [] [] seen s h = tt
AreSeen-same [] (e ∷ es) seen s h = absurd s
AreSeen-same (d ∷ ds) [] seen s h = absurd s
AreSeen-same (d ∷ ds) (e ∷ es) seen (mac, did, s) (old, h) =
    (rw (← mac, ← did) old, AreSeen-same ds es seen s h)
