-- ===== src/Registry.antt =====
-- internal/registry/registry.go: the file of the devices. encoding/json is a parameter.
pub mod RoundTrip
use mgl03_homekit_bridge.Common.{
  Bool, Option, none, some, List, [], ◌∷◌, Bytes, Result, ok, err, map,
}
use mgl03_homekit_bridge.Files.{
  Disk, Faults, Outcome, Codec, ReadFile, missing, unreadable, content, read_file, write_json,
}
use mgl03_homekit_bridge.Config.Device.{Device}
use mgl03_homekit_bridge.Config.Mac.{normalize_mac}

pub data RegistryError : Type 0 where
  read_failed decode_failed : RegistryError

unfoldable pub with_normal_mac : Device → Device
with_normal_mac d = record d { mac = normalize_mac d.mac }

-- The codec is that of the struct around the list.
module _ (codec : Codec (List Device)) where
  decoded : Option (List Device) → Result RegistryError (List Device)
  decoded none = err decode_failed
  decoded (some ds) = ok (map with_normal_mac ds)

  loaded : ReadFile → Result RegistryError (List Device)
  loaded missing = ok []
  loaded unreadable = err read_failed
  loaded (content s) = decoded (codec.decode s)

  -- Load
  unfoldable pub load_registry : Bool → Bytes → Disk → Result RegistryError (List Device)
  unfolding loaded decoded
  load_registry broken path d = loaded (read_file broken path d)

  -- Save
  unfoldable pub save_registry : Faults → Bytes → Bytes → List Device → Disk → Outcome
  save_registry f temp path ds d = write_json f temp path (codec.encode ds) d
