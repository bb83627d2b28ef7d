-- ===== src/Examples/Registry.antt =====
-- cmd/mgl03-homekit-bridge/main.go: accessory ids, the registry of devices and one round of the loop.
use mgl03_homekit_bridge.Common.{
  ℕ, ◌≤◌, ◌≡◌, true, false, List, [], ◌∷◌, ◌++◌, Bytes, contains, arith, All,
}
use mgl03_homekit_bridge.Common.Int.{pos}
use mgl03_homekit_bridge.Config.Device.{Device}
use mgl03_homekit_bridge.Openmiio.Dedup.{classify}
use mgl03_homekit_bridge.App.Aids.{free_id}
use mgl03_homekit_bridge.App.Aids.Free.{free_id_lem}
use mgl03_homekit_bridge.App.Prepare.{prepare_devices, append_device_with_aid}
use mgl03_homekit_bridge.App.Prepare.Assigned.{IsAssigned}
use mgl03_homekit_bridge.App.Prepare.Kept.{identity, append_device_with_aid_lem}
use mgl03_homekit_bridge.App.Merge.{merge_devices}
use mgl03_homekit_bridge.App.Merge.Fresh.{IsPart, IsNew, is_covered, merge_devices_lem}
use mgl03_homekit_bridge.App.Updates.{Runtime, match_accessory, process_update}
use mgl03_homekit_bridge.App.Merge.Owner.{IsTarget}
use mgl03_homekit_bridge.App.Updates.Rules.{applied, recipients, applied-process_update}
use mgl03_homekit_bridge.Examples.Data.{sensor, brush, warm, whole_floats, sensor_mac}

-- Two devices, of which the second has no id yet.
abbrev two : List Device
two = sensor ∷ brush ∷ []

-- Sprintf that leaves the number out.
abbrev plain : Bytes → ℕ → Bytes
plain name index = name

-- A minute after the start, with one accessory and a filter that has seen frame 9 of it.
abbrev runtime : Runtime
runtime = record {
  exposed = sensor ∷ [];
  devices = sensor ∷ [];
  deduplicator = record {
    reset_after = pos 60;
    frames = (sensor_mac, record { counter = 9; seen_at = pos 10 }) ∷ [];
  };
  measurements = [];
  unknown = [];
}

free_id_lem_example :
    (2 ≤ free_id 2 (2 ∷ 3 ∷ [])) × (contains (free_id 2 (2 ∷ 3 ∷ [])) (2 ∷ 3 ∷ []) ≡ false)
free_id_lem_example = free_id_lem 2 (2 ∷ 3 ∷ []) (omega arith) (omega arith)

append_device_with_aid_lem_example :
    let old = (prepare_devices two).0 in
    (d' : Device) × (append_device_with_aid old brush ≡ old ++ (d' ∷ []))
    × (identity d' ≡ identity brush)
    × IsAssigned [] (append_device_with_aid old brush)
append_device_with_aid_lem_example = append_device_with_aid_lem two brush (omega arith)

merge_devices_lem_example :
    (added : List Device) × (merge_devices (sensor ∷ []) two ≡ sensor ∷ added)
    × IsPart added two
    × IsNew (sensor ∷ []) added
    × All (λ d. is_covered (sensor ∷ []) added d ≡ true) two
merge_devices_lem_example = merge_devices_lem (sensor ∷ []) two

applied-process_update_example :
    (applied (process_update plain whole_floats true (pos 20) (pos 1000) warm runtime).1
      ≡ recipients
          (classify runtime.deduplicator (pos 20) warm).1
          (match_accessory runtime warm)
          warm)
    × IsTarget runtime.exposed warm (match_accessory runtime warm)
applied-process_update_example =
    applied-process_update plain whole_floats true (pos 20) (pos 1000) warm runtime
