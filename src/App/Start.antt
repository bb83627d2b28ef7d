-- ===== src/App/Start.antt =====
-- main.go, run, up to the start of the HomeKit server: what the bridge knows when it begins to serve.
pub mod Exposed
pub mod Macs
pub mod Replayed
pub mod Restart
use mgl03_homekit_bridge.Common.{
  ℕ, ◌+◌, ◌*◌, Bool, true, false, ◌&&◌, ◌||◌, Option, none, some, List, [], ◌∷◌, ◌++◌, Bytes,
  Result, ok, err, codes, eq_bytes, is_some, ltb, ◌==◌, if◌then◌else◌,
}
use mgl03_homekit_bridge.Common.Int.{ℤ, pos}
use mgl03_homekit_bridge.Files.{Disk, Faults, FileError, Outcome, Codec, last_disk}
use mgl03_homekit_bridge.Config.Device.{Device}
use mgl03_homekit_bridge.Config.Validate.{Settings}
use mgl03_homekit_bridge.Config.Load.{LoadError, Loaded, load_or_create}
use mgl03_homekit_bridge.Registry.{RegistryError, load_registry, save_registry}
use mgl03_homekit_bridge.Measurements.State.{Devices}
use mgl03_homekit_bridge.Measurements.File.{StateFile, StateError, load_state}
use mgl03_homekit_bridge.Openmiio.Types.{Update}
use mgl03_homekit_bridge.Mqtt.Serve.{Client}
use mgl03_homekit_bridge.Openmiio.Dedup.{Deduplicator, new_deduplicator}
use mgl03_homekit_bridge.Bridge.Sensor.{new_device_accessory}
use mgl03_homekit_bridge.App.Merge.{device_key, merge_devices}
use mgl03_homekit_bridge.App.Prepare.{prepare_devices}
use mgl03_homekit_bridge.App.Discover.{Discovery, Event, discover_devices, restore_from}
use mgl03_homekit_bridge.App.Updates.{Runtime}

-- The client that main gives a configuration.
unfoldable pub mqtt_client : Settings → Client
mqtt_client cfg = record {
  address = cfg.mqtt.address;
  topics = cfg.mqtt.topic ∷ codes "miio/report" ∷ codes "openmiio/report" ∷ [];
  client_id = cfg.mqtt.client_id;
}

-- `a < b` for strings.
unfoldable pub lt_bytes : Bytes → Bytes → Bool
lt_bytes s [] = false
lt_bytes [] (b ∷ t) = true
lt_bytes (a ∷ s) (b ∷ t) = ltb a b || a == b && lt_bytes s t

-- The order of the accessories.
unfoldable pub key_less : Device → Device → Bool
key_less a b = lt_bytes (device_key a) (device_key b)

-- The devices that NewDeviceAccessory makes an accessory for, in their order.
unfoldable pub with_accessory : List Device → List Device
with_accessory [] = []
with_accessory (d ∷ ds) =
    let rest = with_accessory ds in if is_some (new_device_accessory d) then d ∷ rest else rest

-- What the server and the loop over the updates begin with. `enrolled` are the devices of the registry
-- before they are sorted, and `must_save` says whether the registry is written.
pub record Started : Type 0 where
  pub enrolled : List Device
  pub must_save : Bool
  pub devices : List Device
  pub exposed : List Device
  pub initial : List (Bytes × Update)
  pub deduplicator : Deduplicator
  pub measurements : Devices
  pub restored : List (ℕ × Update)

-- `sort` is sort.Slice with a comparison.
module _ (numbered : Bytes → ℕ → Bytes)
    (sort : (Device → Device → Bool) → List Device → List Device) where
  -- From the loaded files on, with the events during discovery.
  unfoldable pub assemble : Settings → List Device → List Event → Devices → Started
  assemble cfg saved es ms =
      let (prepared, migrated) = prepare_devices (merge_devices cfg.devices saved) in
      let found =
        discover_devices numbered cfg.discovery.mode (new_deduplicator (pos 600_000_000_000))
          prepared es in
      let devices = sort key_less found.devices in
      let exposed = with_accessory devices in
      record {
        enrolled = found.devices;
        must_save = migrated || found.discovered;
        devices = devices;
        exposed = exposed;
        initial = found.initial;
        deduplicator = found.deduplicator;
        measurements = ms;
        restored = restore_from 0 exposed ms;
      }

-- The arguments of processUpdates.
unfoldable pub runtime : Started → Runtime
runtime s = record {
  exposed = s.exposed;
  devices = s.devices;
  deduplicator = s.deduplicator;
  measurements = s.measurements;
  unknown = [];
}
