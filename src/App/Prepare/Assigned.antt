-- ===== src/App/Prepare/Assigned.antt =====
-- Every prepared device has an accessory id of its own.
use mgl03_homekit_bridge.Common.{
  ℕ, suc, ◌+◌, ◌≤◌, ◌<◌, ◌≡◌, inl, inr, false, not, ◌&&◌, List, [], ◌∷◌, contains, length, leb,
  arith, Bool-cases,
}
use mgl03_homekit_bridge.Config.Device.{Device}
use mgl03_homekit_bridge.Bridge.Ids.{stable_id, default_accessory_id}
use mgl03_homekit_bridge.App.Aids.{last_id}
use mgl03_homekit_bridge.App.Aids.Free.{free_id_lem}
use mgl03_homekit_bridge.App.Prepare.{
  fill_product, fill_model, fill_aid, prepare_device, prepare_loop, prepare_devices,
}

-- Each id is above the reserved ones, and no earlier device or used id has it.
abbrev pub IsAssigned : List ℕ → List Device → Type 0
IsAssigned used [] = Unit
IsAssigned used (d ∷ ds) =
    (2 ≤ d.aid) × (contains d.aid used ≡ false) × IsAssigned (d.aid ∷ used) ds

stable_id-ge : (d : Device) → 2 ≤ default_accessory_id d
unfolding default_accessory_id stable_id
stable_id-ge d = omega arith

fill_aid_lem :
    (used : List ℕ) (d : Device)
    → suc (length used) < last_id
    → (2 ≤ (fill_aid used d).0.aid) × (contains (fill_aid used d).0.aid used ≡ false)
unfolding fill_aid
fill_aid_lem used d room =
    let found = free_id_lem (default_accessory_id d) used (stable_id-ge d) room in
    elim (Bool-cases (leb 2 d.aid && not (contains d.aid used))) [
      | inl keep ↦ rw keep (ground arith)
      | inr search_on ↦ rw search_on found
    ]

pub prepare_loop-IsAssigned :
    (ds : List Device) (used : List ℕ)
    → length used + length ds < last_id
    → IsAssigned used (prepare_loop used ds).0
unfolding prepare_loop prepare_device
prepare_loop-IsAssigned [] used room = tt
prepare_loop-IsAssigned (d ∷ ds) used room =
    let d2 = (fill_model (fill_product d).0).0 in
    let (lo, fresh) = fill_aid_lem used d2 (omega arith) in
    (lo, fresh, prepare_loop-IsAssigned ds ((fill_aid used d2).0.aid ∷ used) (omega arith))

-- Any fewer than 2^31 - 1 devices come out with accessory ids that are at least 2 and pairwise different,
-- whatever ids they came with.
pub prepare_devices-IsAssigned :
    (ds : List Device) → length ds < last_id → IsAssigned [] (prepare_devices ds).0
unfolding prepare_devices
prepare_devices-IsAssigned ds room = prepare_loop-IsAssigned ds [] (omega arith)
