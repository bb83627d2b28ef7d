-- ===== src/App/Updates.antt =====
-- main.go, processUpdates: what one report does. Accessories are known by the position of their device,
-- and an action of the bridge is a value: which accessory gets the report, what is saved.
pub mod Rules
pub mod Replay
pub mod Enrolled
use mgl03_homekit_bridge.Common.{
  ℕ, Bool, true, false, not, ◌&&◌, ◌||◌, Option, none, some, List, [], ◌∷◌, ◌++◌, Bytes, ◌==◌,
  is_empty, is_some, eq_bytes, if◌then◌else◌, codes, length, ◌+◌,
}
use mgl03_homekit_bridge.Common.Int.{ℤ}
use mgl03_homekit_bridge.Config.Device.{Device}
use mgl03_homekit_bridge.Openmiio.Types.{FloatOps, Update, ToothbrushEvent}
use mgl03_homekit_bridge.Openmiio.Products.{Product, supported_product, lookup_product}
use mgl03_homekit_bridge.Openmiio.Dedup.{
  Deduplicator, FrameDisposition, accepted, duplicate, stale, classify,
}
use mgl03_homekit_bridge.Measurements.State.{Devices, merge}
use mgl03_homekit_bridge.App.Merge.{find_device, seen_in}
use mgl03_homekit_bridge.App.Prepare.{append_device_with_aid}

unfoldable pub supported_discovery_update : Update → Bool
supported_discovery_update u = supported_product u.product_id && not (is_empty u.mac)

-- What processUpdates keeps between reports. The accessories are those of `exposed` and do not change;
-- `devices` is the registry.
pub record Runtime : Type 0 where
  pub exposed : List Device
  pub devices : List Device
  pub deduplicator : Deduplicator
  pub measurements : Devices
  pub unknown : List Bytes

-- What leaves the loop: a call of Apply of an accessory, a write of the measurements, and a write of the
-- registry.
pub data Effect : Type 0 where
  apply_to : ℕ → Update → Effect
  save_measurements : Devices → Effect
  save_registry : List Device → Effect

-- `update.Toothbrush != nil && update.Toothbrush.Type == 0`
unfoldable pub is_start : Option ToothbrushEvent → Bool
is_start none = false
is_start (some e) = e.type == 0

-- matchAccessory
unfoldable pub match_accessory : Runtime → Update → Option ℕ
match_accessory rt u = find_device rt.exposed u

apply_matched : Option ℕ → Update → List Effect
apply_matched none u = []
apply_matched (some i) u = apply_to i u ∷ []

-- deviceFromUpdate, named by `Sprintf("%s %d", name, index)`: `numbered name index`.
product_name : Option Product → Bytes
product_name none = codes "Bluetooth Sensor"
product_name (some p) = if is_empty p.default_name then codes "Bluetooth Sensor" else p.default_name

module _ (numbered : Bytes → ℕ → Bytes) where
  unfoldable pub device_from_update : Update → ℕ → Device
  unfolding product_name
  device_from_update u index = record {
    name = numbered (product_name (lookup_product u.product_id)) index;
    mac = u.mac;
    did = u.did;
    product_id = u.product_id;
    model = u.model;
    aid = 0;
  }

  -- A report that no accessory takes. `auto` is `cfg.Discovery.Mode == "auto"`.
  unfoldable pub process_unmatched : Bool → Update → Runtime → Runtime × List Effect
  process_unmatched auto u rt =
      let key = if is_empty u.mac then u.did else u.mac in
      if not (supported_discovery_update u && not (seen_in key rt.unknown))
      then (rt, [])
      else (let noted = record rt { unknown = key ∷ rt.unknown } in
          let devices =
            append_device_with_aid rt.devices (device_from_update u (length rt.devices + 1)) in
          if auto
          then (record noted { devices = devices }, save_registry devices ∷ [])
          else (noted, []))

  module _ (fl : FloatOps) where
    -- persistMeasurements, with its state and its path set.
    unfoldable pub persist : Update → ℤ → Runtime → Runtime × List Effect
    persist u unix rt =
        let (ms, changed) = merge fl u unix rt.measurements in
        (record rt { measurements = ms }, if changed then save_measurements ms ∷ [] else [])

    process_accepted : Bool → Update → ℤ → Option ℕ → Runtime → Runtime × List Effect
    process_accepted auto u unix (some i) rt =
        let (rt', saved) = persist u unix rt in (rt', saved ++ (apply_to i u ∷ []))
    process_accepted auto u unix none rt =
        let (rt', saved) = persist u unix rt in
        let (rt'', enrolled) = process_unmatched auto u rt' in (rt'', saved ++ enrolled)

    process_classified :
        Bool → Update → ℤ → Option ℕ → FrameDisposition → Runtime → Runtime × List Effect
    process_classified auto u unix target accepted rt = process_accepted auto u unix target rt
    process_classified auto u unix target duplicate rt =
        (rt, if is_start u.toothbrush then apply_matched target u else [])
    process_classified auto u unix target stale rt = (rt, [])

    -- One round of the loop, at the monotonic time `now` and the wall clock `unix`.
    unfoldable pub process_update : Bool → ℤ → ℤ → Update → Runtime → Runtime × List Effect
    unfolding process_classified process_accepted apply_matched
    process_update auto now unix u rt =
        let (d, disposition) = classify rt.deduplicator now u in
        process_classified auto u unix (match_accessory rt u) disposition
          (record rt { deduplicator = d })

    replay_one : Option ℕ → Update → ℤ → Runtime → Runtime × List Effect
    replay_one none u unix rt = (rt, [])
    replay_one (some i) u unix rt =
        let (rt', saved) = persist u unix rt in (rt', apply_to i u ∷ saved)

    -- The loop over the reports that discovery kept, in the order in which the map gives them.
    unfoldable pub replay_initial : ℤ → List (Bytes × Update) → Runtime → Runtime × List Effect
    unfolding replay_one
    replay_initial unix [] rt = (rt, [])
    replay_initial unix ((k, u) ∷ rest) rt =
        let (rt', effects) = replay_one (match_accessory rt u) u unix rt in
        let (rt'', later) = replay_initial unix rest rt' in (rt'', effects ++ later)

    -- The loop over the reports that arrive, each with the two clocks at its arrival.
    unfoldable pub process_updates : Bool → List (ℤ × ℤ × Update) → Runtime → Runtime × List Effect
    process_updates auto [] rt = (rt, [])
    process_updates auto ((now, unix, u) ∷ rest) rt =
        let (rt', effects) = process_update auto now unix u rt in
        let (rt'', later) = process_updates auto rest rt' in (rt'', effects ++ later)
