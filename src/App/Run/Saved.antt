-- ===== src/App/Run/Saved.antt =====
-- A start from the loaded configuration on, by the state of the registry.
use mgl03_homekit_bridge.Common.{
  ℕ, ◌≡◌, refl, ap, inl, inr, Bool, true, false, none, some, List, [], Bytes, ok, err, codes,
  eq_bytes, map, Bool-cases, Option-cases,
}
use mgl03_homekit_bridge.Common.Table.{lookup}
use mgl03_homekit_bridge.Files.{Disk, write_json, disk_after}
use mgl03_homekit_bridge.Files.Atomic.{line}
use mgl03_homekit_bridge.Files.Calm.{IsCalm, write_json_calm}
use mgl03_homekit_bridge.Config.Device.{Device}
use mgl03_homekit_bridge.Config.Validate.{Settings}
use mgl03_homekit_bridge.Registry.{with_normal_mac, load_registry, save_registry}
use mgl03_homekit_bridge.Registry.RoundTrip.{load_registry-save_registry}
use mgl03_homekit_bridge.Measurements.State.{Devices}
use mgl03_homekit_bridge.Measurements.File.{load_state}
use mgl03_homekit_bridge.App.Start.{Started, assemble}
use mgl03_homekit_bridge.App.Run.{
  Codecs, World, registry_unsaved, registry_path, serve_from, or_empty, saved_registry,
  enroll_saved, with_registry, start_with,
}

module _ (numbered : Bytes → ℕ → Bytes)
    (sort : (Device → Device → Bool) → List Device → List Device) (join : Bytes → Bytes → Bytes)
    (codecs : Codecs) where
  -- The start succeeds if the registry need not be saved or can be.
  pub enroll_saved-calm :
      (w : World) (cfg : Settings) (saved : List Device) (text : Bytes) (d : Disk)
      → IsCalm w.registry_faults
      → codecs.registry.encode (assemble numbered sort cfg saved w.events []).enrolled ≡ some text
      → (d' : Disk) × ((enroll_saved numbered sort join codecs w cfg saved d).0
          ≡ ok (serve_from numbered sort join codecs w cfg saved d'))
  unfolding enroll_saved saved_registry save_registry
  enroll_saved-calm w cfg saved text d calm e =
      let s = assemble numbered sort cfg saved w.events [] in
      let path = registry_path numbered sort join codecs cfg in
      let o = write_json w.registry_faults w.registry_temp path (some text) d in
      let works = write_json_calm w.registry_faults w.registry_temp path text d calm in
      elim (Bool-cases s.must_save) [
        | inl saves ↦ (disk_after d o, rw (saves, e, works) refl)
        | inr keeps ↦ (d, rw keeps refl)
      ]

  -- A start that saves and succeeds has written the registry.
  pub enroll_saved-wrote :
      (w : World) (cfg : Settings) (saved : List Device) (s : Started) (d : Disk)
      → let a = assemble numbered sort cfg saved w.events [] in
        let path = registry_path numbered sort join codecs cfg in
        let o = save_registry codecs.registry w.registry_faults w.registry_temp path a.enrolled d in
        a.must_save ≡ true
        → (enroll_saved numbered sort join codecs w cfg saved d).0 ≡ ok s
        → (o.1 ≡ none)
          × ((enroll_saved numbered sort join codecs w cfg saved d).1 ≡ disk_after d o)
          × (serve_from numbered sort join codecs w cfg saved (disk_after d o) ≡ s)
  unfolding enroll_saved saved_registry
  enroll_saved-wrote w cfg saved s d saves done =
      let a = assemble numbered sort cfg saved w.events [] in
      let path = registry_path numbered sort join codecs cfg in
      let o = save_registry codecs.registry w.registry_faults w.registry_temp path a.enrolled d in
      elim (Option-cases o.1) [
        | inl e ↦
            let result : ok (serve_from numbered sort join codecs w cfg saved (disk_after d o))
                ≡ ok s =
              rw (saves, e) at done in
            (e, rw (saves, e) refl, cc)
        | inr (x, e) ↦
            let result : err (registry_unsaved x) ≡ ok s = rw (saves, e) at done in
            absurd (cc result)
      ]

  pub serve_from-assemble :
      (w : World) (cfg : Settings) (saved : List Device) (d : Disk)
      → (ms : Devices) × (serve_from numbered sort join codecs w cfg saved d
          ≡ assemble numbered sort cfg saved w.events ms)
  unfolding serve_from or_empty
  serve_from-assemble w cfg saved d =
      let path = join cfg.state_dir (codes "measurements.json") in
      (or_empty (load_state codecs.cache w.cache_broken path d), refl)

  -- Whatever was saved, a start that succeeds serves what was assembled.
  pub enroll_saved-assemble :
      (w : World) (cfg : Settings) (saved : List Device) (s : Started) (d : Disk)
      → (enroll_saved numbered sort join codecs w cfg saved d).0 ≡ ok s
      → (ms : Devices) × (s ≡ assemble numbered sort cfg saved w.events ms)
  unfolding enroll_saved saved_registry
  enroll_saved-assemble w cfg saved s d done =
      let a = assemble numbered sort cfg saved w.events [] in
      let path = registry_path numbered sort join codecs cfg in
      let o = save_registry codecs.registry w.registry_faults w.registry_temp path a.enrolled d in
      elim (Bool-cases a.must_save) [
        | inr keeps ↦
            let (ms, e) = serve_from-assemble w cfg saved d in
            let result : ok (serve_from numbered sort join codecs w cfg saved d) ≡ ok s =
              rw keeps at done in
            (ms, cc (result, e))
        | inl saves ↦ elim (Option-cases o.1) [
          | inl e ↦
              let (ms, at_end) = serve_from-assemble w cfg saved (disk_after d o) in
              let result : ok (serve_from numbered sort join codecs w cfg saved (disk_after d o))
                  ≡ ok s =
                rw (saves, e) at done in
              (ms, cc (result, at_end))
          | inr (x, e) ↦
              let result : err (registry_unsaved x) ≡ ok s = rw (saves, e) at done in
              absurd (cc result)
        ]
      ]

  pub assemble_fields :
      (cfg : Settings) (saved : List Device) (w : World) (ms : Devices)
      → let s = assemble numbered sort cfg saved w.events ms in
        let a = assemble numbered sort cfg saved w.events [] in
        (s.enrolled ≡ a.enrolled)
        × (s.must_save ≡ a.must_save)
        × (s.devices ≡ a.devices)
        × (s.exposed ≡ a.exposed)
  unfolding assemble
  assemble_fields cfg saved w ms = (refl, refl, refl, refl)

  -- What the registry holds after such a start.
  pub load_registry-enrolled :
      (w : World) (cfg : Settings) (saved : List Device) (text : Bytes) (d : Disk)
      → let a = assemble numbered sort cfg saved w.events [] in
        let path = registry_path numbered sort join codecs cfg in
        let o = save_registry codecs.registry w.registry_faults w.registry_temp path a.enrolled d in
        eq_bytes w.registry_temp path ≡ false
        → lookup w.registry_temp d ≡ none
        → map with_normal_mac a.enrolled ≡ a.enrolled
        → codecs.registry.encode a.enrolled ≡ some text
        → codecs.registry.decode (line text) ≡ some a.enrolled
        → o.1 ≡ none
        → load_registry codecs.registry false path (disk_after d o) ≡ ok a.enrolled
  load_registry-enrolled w cfg saved text d other fresh normal encodes decodes done =
      let a = assemble numbered sort cfg saved w.events [] in
      let path = registry_path numbered sort join codecs cfg in
      let back =
        load_registry-save_registry codecs.registry w.registry_faults w.registry_temp path text
          a.enrolled d other fresh (rw normal encodes) (rw normal decodes) in
      let back' = rw (normal, done) at back in back'

  pub start_with-loaded :
      (w : World) (cfg : Settings) (saved : List Device) (d : Disk)
      → load_registry codecs.registry w.registry_broken
          (registry_path numbered sort join codecs cfg)
          d
        ≡ ok saved
      → start_with numbered sort join codecs w cfg d
        ≡ enroll_saved numbered sort join codecs w cfg saved d
  unfolding start_with with_registry
  start_with-loaded w cfg saved d e = ap (with_registry numbered sort join codecs w cfg d) e
