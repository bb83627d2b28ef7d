-- ===== src/Config/Load.antt =====
-- config.go, LoadOrCreate.
pub mod Again
pub mod Settled
use mgl03_homekit_bridge.Common.{
  ℕ, Bool, true, false, Option, none, some, List, [], Bytes, Result, ok, err,
}
use mgl03_homekit_bridge.Files.{
  Disk, Faults, FileError, Codec, ReadFile, missing, unreadable, content, read_file, write_json,
}
use mgl03_homekit_bridge.Config.Pin.{generate_pin}
use mgl03_homekit_bridge.Config.Validate.{Settings, ConfigError, normalize_and_validate, defaults}

pub data LoadError : Type 0 where
  read_failed decode_failed random_failed : LoadError
  rejected : ConfigError → LoadError
  create_failed : FileError → LoadError

-- What the function returns, `created` with the configuration, and the states of the disk on the way.
abbrev pub Loaded : Type 0
Loaded = Result LoadError (Settings × Bool) × List Disk

unfoldable pub checked : Bool → Result ConfigError Settings → Result LoadError (Settings × Bool)
checked created (err e) = err (rejected e)
checked created (ok c) = ok (c, created)

unfoldable pub wrote : Settings → List Disk × Option FileError → Loaded
wrote c (ds, none) = (ok (c, true), ds)
wrote c (ds, some e) = (err (create_failed e), ds)

unfoldable pub started : ReadFile → (Bytes → Result LoadError (Settings × Bool)) → Loaded → Loaded
started missing load create = create
started unreadable load create = (err read_failed, [])
started (content s) load create = (load s, [])

module _ (numbered : Bytes → ℕ → Bytes) (codec : Codec Settings) (dir : Bytes) where
  decoded : Option Settings → Result LoadError (Settings × Bool)
  decoded none = err decode_failed
  decoded (some c) = checked false (normalize_and_validate numbered dir c)

  -- A file that is there; `dir` is the directory of its path.
  unfoldable pub load_text : Bytes → Result LoadError (Settings × Bool)
  unfolding decoded
  load_text s = decoded (codec.decode s)

  create_checked : Faults → Bytes → Bytes → Disk → Result ConfigError Settings → Loaded
  create_checked f temp path d (err e) = (err (rejected e), [])
  create_checked f temp path d (ok c) = wrote c (write_json f temp path (codec.encode c) d)

  unfoldable pub create_with : Faults → Bytes → Bytes → Disk → Option Bytes → Loaded
  unfolding create_checked
  create_with f temp path d none = (err random_failed, [])
  create_with f temp path d (some pin) =
      create_checked f temp path d (normalize_and_validate numbered dir (defaults dir pin))

  -- `draws` are what the random source gives until it fails.
  unfoldable pub load_or_create : Faults → Bool → Bytes → Bytes → List ℕ → Disk → Loaded
  unfolding started
  load_or_create f broken temp path draws d =
      started (read_file broken path d) load_text (create_with f temp path d (generate_pin draws))
