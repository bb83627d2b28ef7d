-- ===== src/App/Updates/Enrolled.antt =====
-- The registry over a run of the loop.
use mgl03_homekit_bridge.Common.{
  ℕ, suc, ◌+◌, ◌<◌, ◌≡◌, ◌⊎◌, refl, ap, sym, ◌∙◌, inl, inr, Bool, true, false, Option, none, some,
  List, [], ◌∷◌, ◌++◌, Bytes, is_empty, length, length-append, append_nil, append_one, arith,
  Bool-cases,
}
use mgl03_homekit_bridge.Common.Int.{ℤ}
use mgl03_homekit_bridge.Config.Device.{Device}
use mgl03_homekit_bridge.Openmiio.Types.{FloatOps, Update}
use mgl03_homekit_bridge.Openmiio.Dedup.{FrameDisposition, accepted, duplicate, stale, classify}
use mgl03_homekit_bridge.App.Aids.{last_id}
use mgl03_homekit_bridge.App.Merge.{seen_in}
use mgl03_homekit_bridge.App.Prepare.{prepare_devices, append_device_with_aid}
use mgl03_homekit_bridge.App.Prepare.Assigned.{IsAssigned, prepare_devices-IsAssigned}
use mgl03_homekit_bridge.App.Prepare.Kept.{
  identity, length-prepare_loop, append_device_with_aid_lem,
}
use mgl03_homekit_bridge.App.Updates.{
  Runtime, supported_discovery_update, device_from_update, match_accessory, process_unmatched,
  persist, process_accepted, process_classified, process_update, process_updates,
}

-- Every MAC is new: not one of `known`, and not one of those before it.
abbrev pub HasNewMacs : List Bytes → List Device → Type 0
HasNewMacs known [] = Unit
HasNewMacs known (d ∷ ds) = (seen_in d.mac known ≡ false) × HasNewMacs (d.mac ∷ known) ds

-- What `more` does not know, `known` does not.
Covers : List Bytes → List Bytes → Type 0
Covers more known = (k : Bytes) → seen_in k more ≡ false → seen_in k known ≡ false

Covers-refl : (known : List Bytes) → Covers known known
unfolding Covers
Covers-refl known k h = h

Covers-one : (m : Bytes) (known : List Bytes) → Covers (m ∷ known) known
unfolding Covers seen_in
Covers-one m known k h = ground arith

HasNewMacs-less :
    (more known : List Bytes) (ds : List Device)
    → Covers more known
    → HasNewMacs more ds
    → HasNewMacs known ds
HasNewMacs-less more known [] c h = tt
HasNewMacs-less more known (d ∷ ds) c (new, h) = (
  unfold Covers in c d.mac new,
  HasNewMacs-less (d.mac ∷ more) (d.mac ∷ known) ds
      (unfold Covers seen_in in λ k e. ground (arith, c k)) h,
)

length-prepare_devices : (ds : List Device) → length (prepare_devices ds).0 ≡ length ds
unfolding prepare_devices
length-prepare_devices ds = length-prepare_loop ds []

-- Appending to a prepared registry.
append_prepared :
    (ds raw : List Device) (d : Device)
    → ds ≡ (prepare_devices raw).0
    → suc (length raw) < last_id
    → (d' : Device) × (append_device_with_aid ds d ≡ ds ++ (d' ∷ [])) × (identity d' ≡ identity d)
append_prepared ds raw d e room =
    let (d', placed, known, assigned) = append_device_with_aid_lem raw d room in
    (d', rw e placed, known)

supported_has_mac : (u : Update) → supported_discovery_update u ≡ true → is_empty u.mac ≡ false
unfolding supported_discovery_update
supported_has_mac u h = ground arith

module _ (numbered : Bytes → ℕ → Bytes) where
  -- One report leaves the registry, or it is of a device whose MAC is new, which joins the registry.
  abbrev Joins : Update → Runtime → Runtime → Type 0
  Joins u rt after =
      ((after.devices ≡ rt.devices) × Covers after.unknown rt.unknown)
      ⊎ ((seen_in u.mac rt.unknown ≡ false)
          × (after.unknown ≡ u.mac ∷ rt.unknown)
          × (after.devices
              ≡ append_device_with_aid rt.devices
                  (device_from_update numbered u (length rt.devices + 1))))

  process_unmatched-Joins :
      (auto : Bool) (u : Update) (rt : Runtime)
      → Joins u rt (process_unmatched numbered auto u rt).0
  unfolding process_unmatched
  process_unmatched-Joins auto u rt = elim (Bool-cases (supported_discovery_update u)) [
    | inr other ↦ rw other (inl (refl, Covers-refl rt.unknown))
    | inl supported ↦
        let has_mac = supported_has_mac u supported in
        elim (Bool-cases (seen_in u.mac rt.unknown)) [
          | inl old ↦ rw (supported, has_mac, old) (inl (refl, Covers-refl rt.unknown))
          | inr new ↦
              rw (supported, has_mac, new)
                (elim (Bool-cases auto) [
                  | inl on ↦ rw on (inr (refl, refl, refl))
                  | inr off ↦ rw off (inl (refl, Covers-one u.mac rt.unknown))
                ])
        ]
  ]

  module _ (fl : FloatOps) where
    process_classified-Joins :
        (auto : Bool) (u : Update) (unix : ℤ) (target : Option ℕ) (x : FrameDisposition)
        (rt : Runtime)
        → Joins u rt (process_classified numbered fl auto u unix target x rt).0
    unfolding process_classified process_accepted persist
    process_classified-Joins auto u unix (some i) accepted rt = inl (refl, Covers-refl rt.unknown)
    process_classified-Joins auto u unix none accepted rt =
        process_unmatched-Joins auto u (persist numbered fl u unix rt).0
    process_classified-Joins auto u unix target duplicate rt = inl (refl, Covers-refl rt.unknown)
    process_classified-Joins auto u unix target stale rt = inl (refl, Covers-refl rt.unknown)

    process_update-Joins :
        (auto : Bool) (now unix : ℤ) (u : Update) (rt : Runtime)
        → Joins u rt (process_update numbered fl auto now unix u rt).0
    unfolding process_update
    process_update-Joins auto now unix u rt =
        process_classified-Joins auto u unix (match_accessory rt u)
          (classify rt.deduplicator now u).1
          (record rt { deduplicator = (classify rt.deduplicator now u).0 })

    -- A run of the loop over any reports, in any mode: the prepared registry keeps its devices in their places
    -- and only gets devices at its end. No two of these have the same MAC, none has one that was noted
    -- before, and all accessory ids stay different. There are fewer than 2^31 - 1 devices and reports.
    pub process_updates-HasNewMacs :
        (auto : Bool) (reports : List (ℤ × ℤ × Update)) (rt : Runtime) (raw : List Device)
        → rt.devices ≡ (prepare_devices raw).0
        → length raw + length reports < last_id
        → let after = (process_updates numbered fl auto reports rt).0 in
          (added : List Device) × (after.devices ≡ rt.devices ++ added)
          × HasNewMacs rt.unknown added
          × IsAssigned [] after.devices
    unfolding process_updates
    process_updates-HasNewMacs auto [] rt raw e room =
        ([], sym (append_nil rt.devices), tt, rw e (prepare_devices-IsAssigned raw (omega arith)))
    process_updates-HasNewMacs auto ((now, unix, u) ∷ rest) rt raw e room =
        let next = (process_update numbered fl auto now unix u rt).0 in
        let step = process_update-Joins auto now unix u rt in
        elim step [
          | inl (same, covers) ↦
              let (added, grown, fresh, ids) =
                process_updates-HasNewMacs auto rest next raw (same ∙ e) (omega arith) in
              (
                added,
                grown ∙ ap (λ (ds : List Device). ds ++ added) same,
                HasNewMacs-less next.unknown rt.unknown added covers fresh,
                ids,
              )
          | inr (new, noted, joined) ↦
              let d = device_from_update numbered u (length rt.devices + 1) in
              let (d', placed, known) = append_prepared rt.devices raw d e (omega arith) in
              let size = length-prepare_devices raw in
              let appended : next.devices ≡ rt.devices ++ (d' ∷ []) = joined ∙ placed in
              let (added, grown, fresh, ids) =
                process_updates-HasNewMacs auto rest next (rt.devices ++ (d ∷ []))
                  (joined ∙ unfold append_device_with_aid in refl)
                  (omega (arith, size, ap (length {0}) e, length-append rt.devices (d ∷ []))) in
              let mac : d'.mac ≡ u.mac =
                ap (λ (i : Bytes × Bytes × Bytes). i.1) known ∙ unfold device_from_update in refl in
              (
                d' ∷ added,
                grown
                    ∙ ap (λ (ds : List Device). ds ++ added) appended
                    ∙ append_one rt.devices added d',
                (rw mac new, rw (mac, ← noted) fresh),
                ids,
              )
        ]
