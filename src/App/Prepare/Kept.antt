-- ===== src/App/Prepare/Kept.antt =====
-- prepareDevices and appendDeviceWithAID keep the devices and the ids that HomeKit knows.
use mgl03_homekit_bridge.Common.{
  ℕ, suc, ◌≤◌, ◌<◌, ◌≡◌, refl, ap, ap₂, false, List, [], ◌∷◌, ◌++◌, Bytes, contains, length,
  length-append, arith, All,
}
use mgl03_homekit_bridge.Config.Device.{Device}
use mgl03_homekit_bridge.App.Aids.{last_id}
use mgl03_homekit_bridge.App.Prepare.{
  by_model, by_product, fill_product, fill_model, fill_aid, prepare_device, prepare_loop,
  prepare_devices, append_device_with_aid,
}
use mgl03_homekit_bridge.App.Prepare.Assigned.{IsAssigned, prepare_devices-IsAssigned}
use mgl03_homekit_bridge.App.Prepare.Settled.{
  IsNamed, fill_product-IsNamed, fill_model-IsNamed, fill_aid_keep, prepare_loop-IsNamed,
}

-- What a device is known by.
abbrev pub identity : Device → Bytes × Bytes × Bytes
identity d = (d.name, d.mac, d.did)

abbrev pub identities : List Device → List (Bytes × Bytes × Bytes)
identities [] = []
identities (d ∷ ds) = identity d ∷ identities ds

abbrev pub aids : List Device → List ℕ
aids [] = []
aids (d ∷ ds) = d.aid ∷ aids ds

pub identity-prepare_device :
    (used : List ℕ) (d : Device) → identity (prepare_device used d).0 ≡ identity d
unfolding prepare_device fill_product fill_model fill_aid by_model by_product
identity-prepare_device used d = ground arith

aid-fill : (d : Device) → (fill_model (fill_product d).0).0.aid ≡ d.aid
unfolding fill_product fill_model by_model by_product
aid-fill d = ground arith

aid-prepare_device :
    (used : List ℕ) (d : Device)
    → 2 ≤ d.aid
    → contains d.aid used ≡ false
    → (prepare_device used d).0.aid ≡ d.aid
unfolding prepare_device
aid-prepare_device used d lo fresh =
    let d2 = (fill_model (fill_product d).0).0 in
    rw (fill_aid_keep used d2 (rw aid-fill lo) (rw aid-fill fresh)) (aid-fill d)

identities-prepare_loop :
    (ds : List Device) (used : List ℕ) → identities (prepare_loop used ds).0 ≡ identities ds
unfolding prepare_loop
identities-prepare_loop [] used = refl
identities-prepare_loop (d ∷ ds) used =
    ap₂ ◌∷◌ (identity-prepare_device used d)
      (identities-prepare_loop ds ((prepare_device used d).0.aid ∷ used))

aids-prepare_loop :
    (ds : List Device) (used : List ℕ)
    → IsAssigned used ds
    → aids (prepare_loop used ds).0 ≡ aids ds
unfolding prepare_loop
aids-prepare_loop [] used a = refl
aids-prepare_loop (d ∷ ds) used (lo, fresh, a) =
    let same = aid-prepare_device used d lo fresh in
    ap₂ ◌∷◌ same (rw same (aids-prepare_loop ds (d.aid ∷ used) a))

-- A registry whose ids are in order keeps every one of them, so no paired accessory is renumbered; and
-- every device keeps its place, name, MAC and DID.
pub prepare_devices_kept :
    (ds : List Device)
    → IsAssigned [] ds
    → (aids (prepare_devices ds).0 ≡ aids ds) × (identities (prepare_devices ds).0 ≡ identities ds)
unfolding prepare_devices
prepare_devices_kept ds a = (aids-prepare_loop ds [] a, identities-prepare_loop ds [])

prepare_loop-append :
    (ds : List Device) (used : List ℕ) (device : Device)
    → All IsNamed ds
    → IsAssigned used ds
    → (d' : Device) × ((prepare_loop used (ds ++ (device ∷ []))).0 ≡ ds ++ (d' ∷ []))
      × (identity d' ≡ identity device)
unfolding prepare_loop
prepare_loop-append [] used device n a =
    ((prepare_device used device).0, refl, identity-prepare_device used device)
prepare_loop-append (d ∷ ds) used device (n, ns) (lo, fresh, a) =
    let (d', e, same) = prepare_loop-append ds (d.aid ∷ used) device ns a in
    let kept : prepare_device used d ≡ (d, false) =
      unfold prepare_device in
      rw (fill_product-IsNamed d n, fill_model-IsNamed d n, fill_aid_keep used d lo fresh) in
    (d', rw kept (ap (λ r. d ∷ r) e), same)

pub length-prepare_loop :
    (ds : List Device) (used : List ℕ) → length (prepare_loop used ds).0 ≡ length ds
unfolding prepare_loop
length-prepare_loop [] used = refl
length-prepare_loop (d ∷ ds) used =
    ap suc (length-prepare_loop ds ((prepare_device used d).0.aid ∷ used))

-- A device that is enrolled while the bridge runs comes last in the registry, under its own name, MAC
-- and DID, with an accessory id that no other device has; the prepared devices before it are unchanged.
pub append_device_with_aid_lem :
    (ds : List Device) (device : Device)
    → suc (length ds) < last_id
    → let old = (prepare_devices ds).0 in
      (d' : Device) × (append_device_with_aid old device ≡ old ++ (d' ∷ []))
      × (identity d' ≡ identity device)
      × IsAssigned [] (append_device_with_aid old device)
unfolding append_device_with_aid prepare_devices
append_device_with_aid_lem ds device room =
    let old = (prepare_loop [] ds).0 in
    let size = length-prepare_loop ds [] in
    let (d', e, same) =
      prepare_loop-append old [] device (prepare_loop-IsNamed ds [])
        (unfold prepare_devices in prepare_devices-IsAssigned ds (omega arith)) in
    (
      d',
      e,
      same,
      unfold prepare_devices in
          prepare_devices-IsAssigned (old ++ (device ∷ []))
            (omega (arith, size, length-append old (device ∷ []))),
    )
