-- ===== src/App/Discover.antt =====
-- main.go: discoverDevices, before the bridge has any device, and restoreCachedMeasurements.
pub mod Found
pub mod Sound
use mgl03_homekit_bridge.Common.{
  ℕ, suc, ◌+◌, Bool, true, false, not, ◌&&◌, ◌||◌, Option, none, some, List, [], ◌∷◌, Bytes, codes,
  eq_bytes, is_empty, is_some, length, ltb, if◌then◌else◌,
}
use mgl03_homekit_bridge.Common.Int.{ℤ}
use mgl03_homekit_bridge.Common.Table.{insert}
use mgl03_homekit_bridge.Config.Device.{Device}
use mgl03_homekit_bridge.Openmiio.Types.{Update}
use mgl03_homekit_bridge.Openmiio.Dedup.{Deduplicator, accept}
use mgl03_homekit_bridge.Measurements.State.{Devices, restore}
use mgl03_homekit_bridge.App.Merge.{find_device, update_identity}
use mgl03_homekit_bridge.App.Prepare.{append_device_with_aid}
use mgl03_homekit_bridge.App.Updates.{supported_discovery_update, device_from_update}

-- The variables of the function; `collecting` is `timer != nil`.
pub record Discovery : Type 0 where
  pub devices : List Device
  pub initial : List (Bytes × Update)
  pub deduplicator : Deduplicator
  pub discovered : Bool
  pub collecting : Bool

-- What the select statement waits for; a report comes with the reading of the monotonic clock.
pub data Event : Type 0 where
  cancelled window_over : Event
  report : ℤ → Update → Event

module _ (numbered : Bytes → ℕ → Bytes) where
  -- The device of a new report joins the others.
  unfoldable pub enroll : Update → Discovery → Discovery
  enroll u s = record s {
    devices =
        append_device_with_aid s.devices (device_from_update numbered u (length s.devices + 1));
    discovered = true;
  }

  -- The case of a report; the flag says that the function returns. `first` is
  -- `cfg.Discovery.Mode == DiscoveryModeFirst`.
  unfoldable pub on_report : Bool → ℤ → Update → Discovery → Discovery × Bool
  on_report first now u s =
      let (d, fresh) = accept s.deduplicator now u in
      let kept = record s { deduplicator = d; initial = insert (update_identity u) u s.initial } in
      if not (supported_discovery_update u)
      then (s, false)
      else if not fresh
      then (record s { deduplicator = d }, false)
      else if is_some (find_device s.devices u)
      then (kept, false)
      else if first
      then (enroll u kept, true)
      else (record (enroll u kept) { collecting = true }, false)

  unfoldable pub on_event : Bool → Event → Discovery → Discovery × Bool
  on_event first cancelled s = (s, true)
  on_event first window_over s = (s, s.collecting)
  on_event first (report now u) s = on_report first now u s

  -- The loop over what happens; it also ends with the events that are given.
  unfoldable pub discover_loop : Bool → List Event → Discovery → Discovery
  discover_loop first [] s = s
  discover_loop first (e ∷ es) s =
      let (s', done) = on_event first e s in
      let rest = discover_loop first es s' in if done then s' else rest

  -- discoverDevices for the mode `mode`.
  unfoldable pub discover_devices : Bytes → Deduplicator → List Device → List Event → Discovery
  discover_devices mode d devices es =
      let start : Discovery = record {
        devices = devices;
        initial = [];
        deduplicator = d;
        discovered = false;
        collecting = false;
      } in
      let found = discover_loop (eq_bytes mode (codes "first")) es start in
      if ltb 0 (length devices) || eq_bytes mode (codes "manual") then start else found

-- restoreCachedMeasurements: the updates that are applied, each with the position of its accessory.
unfoldable pub restore_from : ℕ → List Device → Devices → List (ℕ × Update)
restore_from i [] ms = []
restore_from i (d ∷ ds) ms =
    let rest = restore_from (suc i) ds ms in
    elim (restore d ms) [ none ↦ rest | some (u, t) ↦ (i, u) ∷ rest ]
