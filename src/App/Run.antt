-- ===== src/App/Run.antt =====
-- main.go, run: the files that it reads and writes before the HomeKit server, in their order.
pub mod Saved
pub mod Again
pub mod Whole
use mgl03_homekit_bridge.Common.{
  ℕ, Bool, Option, none, some, List, [], ◌∷◌, Bytes, Result, ok, err, codes, if◌then◌else◌,
}
use mgl03_homekit_bridge.Files.{Disk, Faults, FileError, Outcome, Codec, last_disk, disk_after}
use mgl03_homekit_bridge.Config.Device.{Device}
use mgl03_homekit_bridge.Config.Validate.{Settings}
use mgl03_homekit_bridge.Config.Load.{LoadError, load_or_create}
use mgl03_homekit_bridge.Registry.{RegistryError, load_registry, save_registry}
use mgl03_homekit_bridge.Measurements.State.{Devices, new_state}
use mgl03_homekit_bridge.Measurements.File.{StateFile, StateError, load_state}
use mgl03_homekit_bridge.App.Discover.{Event}
use mgl03_homekit_bridge.App.Start.{Started, assemble}

-- encoding/json for the three files.
pub record Codecs : Type 0 where
  pub settings : Codec Settings
  pub registry : Codec (List Device)
  pub cache : Codec StateFile

-- What is given during one start: the answers of the operating system with the names of temporary files,
-- the files that cannot be read, the random draws, and the events during discovery.
pub record World : Type 0 where
  pub config_faults : Faults
  pub config_temp : Bytes
  pub config_broken : Bool
  pub registry_faults : Faults
  pub registry_temp : Bytes
  pub registry_broken : Bool
  pub cache_broken : Bool
  pub draws : List ℕ
  pub events : List Event

pub data RunError : Type 0 where
  configuration : LoadError → RunError
  registry_unread : RegistryError → RunError
  registry_unsaved : FileError → RunError

-- A cache that cannot be loaded is an empty one.
or_empty : Result StateError Devices → Devices
or_empty (ok ms) = ms
or_empty (err e) = new_state

-- `join` is filepath.Join.
module _ (numbered : Bytes → ℕ → Bytes)
    (sort : (Device → Device → Bool) → List Device → List Device) (join : Bytes → Bytes → Bytes)
    (codecs : Codecs) where
  abbrev pub registry_path : Settings → Bytes
  registry_path cfg = join cfg.state_dir (codes "devices.json")

  -- From the cache on.
  unfoldable pub serve_from : World → Settings → List Device → Disk → Started
  unfolding or_empty
  serve_from w cfg saved d =
      let path = join cfg.state_dir (codes "measurements.json") in
      assemble numbered sort cfg saved w.events
        (or_empty (load_state codecs.cache w.cache_broken path d))

  saved_registry :
      World → Settings → List Device → Disk → Option FileError → Result RunError Started × Disk
  saved_registry w cfg saved d (some e) = (err (registry_unsaved e), d)
  saved_registry w cfg saved d none = (ok (serve_from w cfg saved d), d)

  -- From the loaded registry on. The cache has no part in what is enrolled.
  unfoldable pub enroll_saved :
      World → Settings → List Device → Disk → Result RunError Started × Disk
  unfolding saved_registry
  enroll_saved w cfg saved d =
      let s = assemble numbered sort cfg saved w.events [] in
      let o =
        save_registry codecs.registry w.registry_faults w.registry_temp (registry_path cfg)
          s.enrolled d in
      if s.must_save
      then saved_registry w cfg saved (disk_after d o) o.1
      else (ok (serve_from w cfg saved d), d)

  with_registry :
      World → Settings → Disk → Result RegistryError (List Device) → Result RunError Started × Disk
  with_registry w cfg d (err e) = (err (registry_unread e), d)
  with_registry w cfg d (ok saved) = enroll_saved w cfg saved d

  -- From the configuration on.
  unfoldable pub start_with : World → Settings → Disk → Result RunError Started × Disk
  unfolding with_registry
  start_with w cfg d =
      with_registry w cfg d (load_registry codecs.registry w.registry_broken (registry_path cfg) d)

  with_config : World → Disk → Result LoadError (Settings × Bool) → Result RunError Started × Disk
  with_config w d (err e) = (err (configuration e), d)
  with_config w d (ok (cfg, created)) = start_with w cfg d

  -- The whole start; `path` is that of the configuration and `dir` its directory.
  unfoldable pub start : Bytes → Bytes → World → Disk → Result RunError Started × Disk
  unfolding with_config
  start path dir w d =
      let (r, ds) =
        load_or_create numbered codecs.settings dir w.config_faults w.config_broken w.config_temp
          path w.draws d in
      with_config w (last_disk d ds) r
