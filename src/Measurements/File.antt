-- ===== src/Measurements/File.antt =====
-- state.go, Load and Save: the file of the measurements. encoding/json is a parameter.
pub mod Stored
pub mod Restart
use mgl03_homekit_bridge.Common.{
  Bool, Option, none, some, List, [], ◌∷◌, Bytes, Result, ok, err, if◌then◌else◌,
}
use mgl03_homekit_bridge.Common.Int.{ℤ, pos, eq_ℤ}
use mgl03_homekit_bridge.Files.{
  Disk, Faults, Outcome, Codec, ReadFile, missing, unreadable, content, read_file, write_json,
}
use mgl03_homekit_bridge.Measurements.State.{Devices, load_devices}

abbrev pub current_version : ℤ
current_version = pos 1

pub record StateFile : Type 0 where
  pub version : ℤ
  pub devices : Devices

pub data StateError : Type 0 where
  read_failed decode_failed : StateError
  unsupported_version : ℤ → StateError

module _ (codec : Codec StateFile) where
  decoded : Option StateFile → Result StateError Devices
  decoded none = err decode_failed
  decoded (some file) =
      if eq_ℤ file.version current_version
      then ok (load_devices file.devices [])
      else err (unsupported_version file.version)

  loaded : ReadFile → Result StateError Devices
  loaded missing = ok []
  loaded unreadable = err read_failed
  loaded (content s) = decoded (codec.decode s)

  -- Load
  unfoldable pub load_state : Bool → Bytes → Disk → Result StateError Devices
  unfolding loaded decoded
  load_state broken path d = loaded (read_file broken path d)

  -- Save
  unfoldable pub save_state : Faults → Bytes → Bytes → Devices → Disk → Outcome
  save_state f temp path ds d =
      write_json f temp path (codec.encode (record { version = current_version; devices = ds })) d
