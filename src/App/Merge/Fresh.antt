-- ===== src/App/Merge/Fresh.antt =====
-- Merging adds exactly the saved devices that are new.
use mgl03_homekit_bridge.Common.{
  ◌≡◌, refl, ap, ◌∙◌, inl, inr, Bool, true, false, not, ◌&&◌, ◌||◌, List, [], ◌∷◌, ◌++◌, eq_bytes,
  eq_bytes_refl, is_empty, to_lower, lower_char, map, codes, Bytes, if◌then◌else◌, arith, All,
  All-map, Bool-cases,
}
use mathlib.Core.Path.{subst}
use mgl03_homekit_bridge.Config.Device.{Device}
use mgl03_homekit_bridge.App.Merge.{
  Seen, seen_in, note_device, note_devices, is_duplicate, merge_loop, merge_devices, device_key,
}

-- Two records of one device: they share a MAC, up to the case of its letters, or a DID.
abbrev pub same_device : Device → Device → Bool
same_device d e =
    not (is_empty d.mac) && (not (is_empty e.mac) && eq_bytes (to_lower d.mac) (to_lower e.mac))
    || not (is_empty d.did) && (not (is_empty e.did) && eq_bytes d.did e.did)

abbrev pub has_same : Device → List Device → Bool
has_same d [] = false
has_same d (e ∷ es) = same_device d e || has_same d es

is_duplicate-note_device :
    (d e : Device) (seen : Seen)
    → is_duplicate d (note_device e seen) ≡ same_device d e || is_duplicate d seen
unfolding is_duplicate note_device seen_in
is_duplicate-note_device d e seen = ground arith

pub is_duplicate-note_devices :
    (es : List Device) (d : Device) (seen : Seen)
    → is_duplicate d (note_devices es seen) ≡ has_same d es || is_duplicate d seen
unfolding note_devices
is_duplicate-note_devices [] d seen = refl
is_duplicate-note_devices (e ∷ es) d seen =
    is_duplicate-note_devices es d (note_device e seen)
    ∙ regroup (has_same d es) (same_device d e) (is_duplicate d seen)
        (is_duplicate-note_device d e seen)
  where
    regroup : (a b c : Bool) {x : Bool} → x ≡ b || c → a || x ≡ (b || a) || c
    regroup a b c h = ground arith

-- A device that has neither a MAC nor a DID.
abbrev pub is_unknown : Device → Bool
is_unknown d = is_empty d.mac && is_empty d.did

device_key-is_unknown : (d : Device) → is_empty (device_key d) ≡ is_unknown d
unfolding device_key to_lower
device_key-is_unknown d = cases d.mac d.did
  where
    cases :
        (m s : Bytes)
        → is_empty (
            if not (is_empty m)
            then map lower_char m
            else if not (is_empty s)
            then codes "did:" ++ s
            else [])
          ≡ is_empty m && is_empty s
    cases [] [] = refl
    cases [] (x ∷ s) = refl
    cases (c ∷ m) s = refl

-- None of the devices is one of `prev` or one before it, and each can be identified.
abbrev pub IsNew : List Device → List Device → Type 0
IsNew prev [] = Unit
IsNew prev (d ∷ ds) = (has_same d prev ≡ false) × (is_unknown d ≡ false) × IsNew (d ∷ prev) ds

-- What the maps know of a device.
Links : Seen → List Device → Type 0
Links seen prev = (x : Device) → is_duplicate x seen ≡ has_same x prev

Links-note_device :
    (d : Device) (seen : Seen) (prev : List Device)
    → Links seen prev
    → Links (note_device d seen) (d ∷ prev)
unfolding Links
Links-note_device d seen prev link x =
    is_duplicate-note_device x d seen ∙ ap (λ (b : Bool). same_device x d || b) (link x)

merge_loop-IsNew :
    (ds : List Device) (seen : Seen) (prev : List Device)
    → Links seen prev
    → IsNew prev (merge_loop ds seen)
unfolding merge_loop
merge_loop-IsNew [] seen prev link = tt
merge_loop-IsNew (d ∷ ds) seen prev link =
    let later =
      merge_loop-IsNew ds (note_device d seen) (d ∷ prev) (Links-note_device d seen prev link) in
    let others = merge_loop-IsNew ds seen prev link in
    elim (Bool-cases (is_duplicate d seen || is_empty (device_key d))) [
      | inl skip ↦ rw skip others
      | inr add ↦
          rw add
            (unfold Links in ground (arith, link d), ground (arith, device_key-is_unknown d), later)
    ]

-- Some of the devices, unchanged and in their order.
pub data IsPart : List Device → List Device → Type 0 where
  none_left : IsPart [] []
  keep : (d : Device) {xs ys : List Device} → IsPart xs ys → IsPart (d ∷ xs) (d ∷ ys)
  leave : (d : Device) {xs ys : List Device} → IsPart xs ys → IsPart xs (d ∷ ys)

merge_loop-IsPart : (ds : List Device) (seen : Seen) → IsPart (merge_loop ds seen) ds
unfolding merge_loop
merge_loop-IsPart [] seen = none_left
merge_loop-IsPart (d ∷ ds) seen =
    let later = merge_loop-IsPart ds (note_device d seen) in
    let others = merge_loop-IsPart ds seen in
    elim (Bool-cases (is_duplicate d seen || is_empty (device_key d))) [
      | inl skip ↦ rw skip (leave d others)
      | inr add ↦ rw add (keep d later)
    ]

-- A device has neither MAC nor DID, or is one of these.
abbrev pub is_covered : List Device → List Device → Device → Bool
is_covered prev added d = is_unknown d || (has_same d prev || has_same d added)

same_device_self : (d : Device) → is_unknown d || same_device d d ≡ true
same_device_self d = ground (arith, eq_bytes_refl d.did, eq_bytes_refl (to_lower d.mac))

merge_loop_skip :
    (d : Device) (ds : List Device) (seen : Seen)
    → is_duplicate d seen || is_empty (device_key d) ≡ true
    → merge_loop ds seen ≡ merge_loop (d ∷ ds) seen
unfolding merge_loop
merge_loop_skip d ds seen h = rw h

merge_loop_add :
    (d : Device) (ds : List Device) (seen : Seen)
    → is_duplicate d seen || is_empty (device_key d) ≡ false
    → d ∷ merge_loop ds (note_device d seen) ≡ merge_loop (d ∷ ds) seen
unfolding merge_loop
merge_loop_add d ds seen h = rw h

merge_loop_covers :
    (ds : List Device) (seen : Seen) (prev : List Device)
    → Links seen prev
    → All (λ d. is_covered prev (merge_loop ds seen) d ≡ true) ds
merge_loop_covers [] seen prev link = tt
merge_loop_covers (d ∷ ds) seen prev link =
    let rest = merge_loop ds (note_device d seen) in
    let later =
      merge_loop_covers ds (note_device d seen) (d ∷ prev) (Links-note_device d seen prev link) in
    let others = merge_loop_covers ds seen prev link in
    elim (Bool-cases (is_duplicate d seen || is_empty (device_key d))) [
      | inl skip ↦
          subst Covers (merge_loop_skip d ds seen skip)
            (unfold Links in ground (arith, link d, device_key-is_unknown d), others)
      | inr add ↦
          subst Covers (merge_loop_add d ds seen add)
            (ground (arith, same_device_self d), All-map (λ x h. shift x rest h) ds later)
    ]
  where
    Covers : List Device → Type 0
    Covers added = All (λ x. is_covered prev added x ≡ true) (d ∷ ds)

    shift :
        (x : Device) (rest : List Device)
        → is_covered (d ∷ prev) rest x ≡ true
        → is_covered prev (d ∷ rest) x ≡ true
    shift x rest h = ground arith

-- Merging keeps the configured devices in front and appends some of the saved ones, unchanged and in their
-- order: each has a MAC or a DID, none repeats a configured device or another one that is appended, by MAC
-- or by DID, and every saved device that has a MAC or a DID shares one with a device of the result.
pub merge_devices_lem :
    (configured saved : List Device)
    → (added : List Device) × (merge_devices configured saved ≡ configured ++ added)
      × IsPart added saved
      × IsNew configured added
      × All (λ d. is_covered configured added d ≡ true) saved
unfolding merge_devices
merge_devices_lem configured saved =
    let seen = note_devices configured (record { macs = []; dids = [] }) in
    (
      merge_loop saved seen,
      refl,
      merge_loop-IsPart saved seen,
      merge_loop-IsNew saved seen configured start,
      merge_loop_covers saved seen configured start,
    )
  where
    start : Links (note_devices configured (record { macs = []; dids = [] })) configured
    start =
        unfold Links in
        λ x. is_duplicate-note_devices configured x _ ∙ unfold is_duplicate seen_in in ground arith
