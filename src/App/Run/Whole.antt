-- ===== src/App/Run/Whole.antt =====
-- Two starts over the same disk, the configuration included.
use mgl03_homekit_bridge.Common.{
  ℕ, ◌<◌, ◌≡◌, refl, ap, ◌∙◌, inl, inr, Bool, true, false, Option, none, some, List, [], Bytes, ok,
  eq_bytes, length, All, All-map, Bool-cases,
}
use mgl03_homekit_bridge.Common.Table.{lookup}
use mgl03_homekit_bridge.Files.{Disk, FileError, last_disk, disk_after}
use mgl03_homekit_bridge.Files.Atomic.{line}
use mgl03_homekit_bridge.Files.Calm.{IsCalm}
use mgl03_homekit_bridge.Files.Kept.{lookup-write_json_other}
use mgl03_homekit_bridge.Config.Device.{Device}
use mgl03_homekit_bridge.Config.Pin.{validate_pin}
use mgl03_homekit_bridge.Config.Validate.{Settings, defaults}
use mgl03_homekit_bridge.Config.Validate.Usable.{IsUsable}
use mgl03_homekit_bridge.Config.Load.{Loaded, load_or_create}
use mgl03_homekit_bridge.Config.Load.Settled.{
  IsSettled, IsSettled-same, IsSettled-IsUsable, load_or_create-settled, load_or_create-IsSettled,
}
use mgl03_homekit_bridge.Registry.{load_registry, save_registry}
use mgl03_homekit_bridge.App.Aids.{last_id}
use mgl03_homekit_bridge.App.Merge.{merge_devices}
use mgl03_homekit_bridge.App.Start.{Started, assemble}
use mgl03_homekit_bridge.App.Start.Macs.{IsNormalEvent}
use mgl03_homekit_bridge.App.Run.{
  Codecs, World, registry_path, saved_registry, enroll_saved, start_with, start,
}
use mgl03_homekit_bridge.App.Run.Saved.{start_with-loaded}
use mgl03_homekit_bridge.App.Run.Again.{start_with_again}

module _ (numbered : Bytes → ℕ → Bytes)
    (sort : (Device → Device → Bool) → List Device → List Device) (join : Bytes → Bytes → Bytes)
    (codecs : Codecs) where
  saved_registry-disk :
      (w : World) (cfg : Settings) (saved : List Device) (d : Disk) (e : Option FileError)
      → (saved_registry numbered sort join codecs w cfg saved d e).1 ≡ d
  unfolding saved_registry
  saved_registry-disk w cfg saved d none = refl
  saved_registry-disk w cfg saved d (some e) = refl

  -- From the registry on, a start changes no file but the registry and its temporary file.
  lookup-enroll_saved :
      (w : World) (cfg : Settings) (saved : List Device) (k : Bytes) (d : Disk)
      → let path = registry_path numbered sort join codecs cfg in
        eq_bytes w.registry_temp path ≡ false
        → lookup w.registry_temp d ≡ none
        → eq_bytes k w.registry_temp ≡ false
        → eq_bytes k path ≡ false
        → lookup k (enroll_saved numbered sort join codecs w cfg saved d).1 ≡ lookup k d
  unfolding enroll_saved save_registry
  lookup-enroll_saved w cfg saved k d other fresh t p =
      let s = assemble numbered sort cfg saved w.events [] in
      let path = registry_path numbered sort join codecs cfg in
      let o = save_registry codecs.registry w.registry_faults w.registry_temp path s.enrolled d in
      elim (Bool-cases s.must_save) [
        | inr keeps ↦ rw keeps refl
        | inl saves ↦
            let left = saved_registry-disk w cfg saved (disk_after d o) o.1 in
            rw (saves, left)
              (lookup-write_json_other w.registry_faults w.registry_temp path
                (codecs.registry.encode s.enrolled) k d other fresh t p)
      ]

  pub start-loaded :
      (path dir : Bytes) (w : World) (cfg : Settings) (created : Bool) (d : Disk)
      → let l =
          load_or_create numbered codecs.settings dir w.config_faults w.config_broken w.config_temp
            path w.draws d in
        l.0 ≡ ok (cfg, created)
        → start numbered sort join codecs path dir w d
          ≡ start_with numbered sort join codecs w cfg (last_disk d l.1)
  unfolding start
  start-loaded path dir w cfg created d h = rw h refl

  -- Once the configuration is there, every start loads it.
  start-settled :
      (path dir : Bytes) (w : World) (cfg : Settings) (d : Disk)
      → w.config_broken ≡ false
      → IsSettled numbered codecs.settings dir path cfg d
      → start numbered sort join codecs path dir w d ≡ start_with numbered sort join codecs w cfg d
  start-settled path dir w cfg d can_read settled =
      let loads =
        load_or_create-settled numbered codecs.settings dir w.config_faults w.config_broken
          w.config_temp path w.draws cfg d can_read settled in
      start-loaded path dir w cfg false d (ap (λ (l : Loaded). l.0) loads)
      ∙ ap (λ (l : Loaded). start_with numbered sort join codecs w cfg (last_disk d l.1)) loads

  -- Two starts of the program. The first one loads or creates the configuration `cfg`, finds `saved` in the
  -- registry, writes the registry and succeeds; in the second one the files can be read and the registry
  -- can be written. Then the second one succeeds, with the same devices and accessories in the same order
  -- with the same ids, whatever else is reported, cached or drawn. The files have different names, those of
  -- the temporary files are free, the reports have normal MACs, there are fewer than 2^31 - 1 devices and
  -- reports, and at least one device; a text that encodes the default configuration or the registry
  -- decodes to it.
  pub start_again :
      (path dir : Bytes) (w w' : World) (cfg : Settings) (created : Bool) (saved : List Device)
      (s : Started) (text : Bytes) (d : Disk)
      → let l =
          load_or_create numbered codecs.settings dir w.config_faults w.config_broken w.config_temp
            path w.draws d in
        let d1 = last_disk d l.1 in
        let registry = registry_path numbered sort join codecs cfg in
        eq_bytes w.config_temp path ≡ false
        → lookup w.config_temp d ≡ none
        → ((pin text : Bytes)
            → validate_pin pin ≡ none
            → codecs.settings.encode (defaults dir pin) ≡ some text
            → codecs.settings.decode (line text) ≡ some (defaults dir pin))
        → l.0 ≡ ok (cfg, created)
        → eq_bytes w.registry_temp registry ≡ false
        → eq_bytes path w.registry_temp ≡ false
        → eq_bytes path registry ≡ false
        → lookup w.registry_temp d1 ≡ none
        → load_registry codecs.registry w.registry_broken registry d1 ≡ ok saved
        → (start numbered sort join codecs path dir w d).0 ≡ ok s
        → s.must_save ≡ true
        → All IsNormalEvent w.events
        → codecs.registry.encode s.enrolled ≡ some text
        → codecs.registry.decode (line text) ≡ some s.enrolled
        → length (merge_devices cfg.devices saved) < last_id
        → length w.events < last_id
        → 0 < length s.enrolled
        → w'.config_broken ≡ false
        → w'.registry_broken ≡ false
        → IsCalm w'.registry_faults
        → let d' = (start numbered sort join codecs path dir w d).1 in
          (s' : Started) × ((start numbered sort join codecs path dir w' d').0 ≡ ok s')
          × (s'.devices ≡ s.devices)
          × (s'.exposed ≡ s.exposed)
  start_again path dir w w' cfg created saved s text d config_other config_fresh trip loaded other
        apart_temp apart fresh found done saves reported encodes decodes room few_reports some_there
        can_read can_load calm =
      let l =
        load_or_create numbered codecs.settings dir w.config_faults w.config_broken w.config_temp
          path w.draws d in
      let d1 = last_disk d l.1 in
      let begins = start-loaded path dir w cfg created d loaded in
      let settled =
        load_or_create-IsSettled numbered codecs.settings dir w.config_faults w.config_broken
          w.config_temp path w.draws cfg created d config_other config_fresh trip loaded in
      let usable = IsSettled-IsUsable numbered codecs.settings dir path cfg d1 settled in
      let done' : (start_with numbered sort join codecs w cfg d1).0 ≡ ok s = rw begins at done in
      let d2 = (start_with numbered sort join codecs w cfg d1).1 in
      let left : lookup path d2 ≡ lookup path d1 =
        rw (start_with-loaded numbered sort join codecs w cfg saved d1 found)
          (lookup-enroll_saved w cfg saved path d1 other fresh apart_temp apart) in
      let begins_again =
        start-settled path dir w' cfg d2 can_read
          (IsSettled-same numbered codecs.settings dir path cfg d1 d2 left settled) in
      let (s', result, devices, exposed) =
        start_with_again numbered sort join codecs w w' cfg saved s text d1 other fresh found done'
          saves (All-map (λ (c : Device) (u : IsUsable c). u.normal) cfg.devices usable) reported
          encodes decodes (All-map (λ (c : Device) (u : IsUsable c). u.keyed) cfg.devices usable)
          room few_reports some_there can_load calm in
      (s', rw (begins, begins_again) result, devices, exposed)
