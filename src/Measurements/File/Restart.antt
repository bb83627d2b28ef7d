-- ===== src/Measurements/File/Restart.antt =====
-- A restart gives every device the readings that were saved.
use mgl03_homekit_bridge.Common.{
  ◌≡◌, refl, ◌∙◌, false, none, some, [], Bytes, ok, eq_bytes, ◌++◌, trim_space,
}
use mgl03_homekit_bridge.Common.Table.{lookup}
use mgl03_homekit_bridge.Files.{Disk, Faults, Codec, read_file, write_json, disk_after}
use mgl03_homekit_bridge.Files.Atomic.{line, write_json_lem}
use mgl03_homekit_bridge.Config.Device.{Device}
use mgl03_homekit_bridge.Measurements.State.{
  Devices, find_reading, identity, did_prefix, restore, load_devices,
}
use mgl03_homekit_bridge.Measurements.File.{StateFile, current_version, load_state, save_state}
use mgl03_homekit_bridge.Measurements.File.Stored.{IsStored, lookup-load_devices}

-- Two caches in which each key stands for the same reading.
abbrev pub SameReadings : Devices → Devices → Type 0
SameReadings ds es = (k : Bytes) → lookup k ds ≡ lookup k es

restore_same : (d : Device) (ds es : Devices) → SameReadings ds es → restore d ds ≡ restore d es
unfolding restore find_reading
restore_same d ds es h = rw (h (identity d.mac d.did), h (did_prefix ++ trim_space d.did)) refl

load_state_text :
    (codec : Codec StateFile) (path s : Bytes) (es : Devices) (d : Disk)
    → lookup path d ≡ some s
    → codec.decode s ≡ some (record { version = current_version; devices = es })
    → load_state codec false path d ≡ ok (load_devices es [])
unfolding load_state read_file
load_state_text codec path s es d found decoded = rw (found, decoded) refl

-- After a Save that returned no error, Load gives a cache from which every device is restored as from the
-- one that was saved. The keys of the saved cache are normal and single, and decoding gives back each of
-- them with its reading, in any order.
pub restore-load_state :
    (codec : Codec StateFile) (f : Faults) (temp path text : Bytes) (ds es : Devices) (d : Disk)
    → eq_bytes temp path ≡ false
    → lookup temp d ≡ none
    → codec.encode (record { version = current_version; devices = ds }) ≡ some text
    → codec.decode (line text) ≡ some (record { version = current_version; devices = es })
    → IsStored es
    → SameReadings es ds
    → (save_state codec f temp path ds d).1 ≡ none
    → (found : Devices) × (load_state codec false path
          (disk_after d (save_state codec f temp path ds d))
        ≡ ok found)
      × ((device : Device) → restore device found ≡ restore device ds)
unfolding save_state
restore-load_state codec f temp path text ds es d other fresh encodes decodes stored same done =
    let o = write_json f temp path (some text) d in
    let (each, found, gone) = write_json_lem f temp path text d other fresh in
    let worked : o.1 ≡ none = rw encodes at done in
    (
      load_devices es [],
      rw encodes (
          load_state_text codec path (line text) es (disk_after d o) (found ∙ rw worked refl)
            decodes),
      λ device.
          restore_same device (load_devices es []) ds
            (λ k. lookup-load_devices k es stored ∙ same k),
    )
