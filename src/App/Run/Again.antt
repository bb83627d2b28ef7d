-- ===== src/App/Run/Again.antt =====
-- Two starts over the same disk.
use mgl03_homekit_bridge.Common.{
  ℕ, ◌<◌, ◌≡◌, ap, sym, ◌∙◌, Bool, true, false, none, some, List, [], Bytes, Result, ok, eq_bytes,
  length, All,
}
use mgl03_homekit_bridge.Common.Table.{lookup}
use mgl03_homekit_bridge.Files.{Disk, disk_after}
use mgl03_homekit_bridge.Files.Atomic.{line}
use mgl03_homekit_bridge.Files.Calm.{IsCalm}
use mgl03_homekit_bridge.Config.Device.{Device}
use mgl03_homekit_bridge.Config.Validate.{Settings}
use mgl03_homekit_bridge.Registry.{load_registry, save_registry}
use mgl03_homekit_bridge.Measurements.State.{Devices}
use mgl03_homekit_bridge.App.Aids.{last_id}
use mgl03_homekit_bridge.App.Merge.{merge_devices}
use mgl03_homekit_bridge.App.Merge.Again.{IsKeyed}
use mgl03_homekit_bridge.App.Start.{Started, assemble}
use mgl03_homekit_bridge.App.Start.Macs.{
  IsNormal, IsNormalEvent, with_normal_mac_fixed, assemble-IsNormal, load_registry-IsNormal,
}
use mgl03_homekit_bridge.App.Start.Restart.{assemble_again}
use mgl03_homekit_bridge.App.Run.{
  Codecs, World, RunError, registry_path, serve_from, enroll_saved, start_with,
}
use mgl03_homekit_bridge.App.Run.Saved.{
  enroll_saved-calm, enroll_saved-wrote, serve_from-assemble, enroll_saved-assemble,
  assemble_fields, load_registry-enrolled, start_with-loaded,
}

module _ (numbered : Bytes → ℕ → Bytes)
    (sort : (Device → Device → Bool) → List Device → List Device) (join : Bytes → Bytes → Bytes)
    (codecs : Codecs) where
  -- A start over the registry that an earlier one has left.
  start_with-enrolled :
      (w w' : World) (cfg : Settings) (saved : List Device) (ms : Devices) (text : Bytes) (d : Disk)
      → let s = assemble numbered sort cfg saved w.events ms in
        let a = assemble numbered sort cfg saved w.events [] in
        load_registry codecs.registry w'.registry_broken
            (registry_path numbered sort join codecs cfg)
            d
          ≡ ok a.enrolled
        → All IsKeyed cfg.devices
        → length (merge_devices cfg.devices saved) < last_id
        → length w.events < last_id
        → 0 < length a.enrolled
        → codecs.registry.encode a.enrolled ≡ some text
        → IsCalm w'.registry_faults
        → (s' : Started) × ((start_with numbered sort join codecs w' cfg d).0 ≡ ok s')
          × (s'.devices ≡ s.devices)
          × (s'.exposed ≡ s.exposed)
  start_with-enrolled w w' cfg saved ms text d loads keyed room few_reports some_there encodes
        calm =
      let a = assemble numbered sort cfg saved w.events [] in
      let (kept, x, y) =
        assemble_again numbered sort cfg saved w.events w'.events [] [] keyed room few_reports
          some_there in
      let (d2, result) =
        enroll_saved-calm numbered sort join codecs w' cfg a.enrolled text d calm
          (rw kept encodes) in
      let (ms', is') = serve_from-assemble numbered sort join codecs w' cfg a.enrolled d2 in
      let (kept', same_devices, same_exposed) =
        assemble_again numbered sort cfg saved w.events w'.events [] ms' keyed room few_reports
          some_there in
      let (v, t, devices, exposed) = assemble_fields numbered sort join codecs cfg saved w ms in
      (
        serve_from numbered sort join codecs w' cfg a.enrolled d2,
        ap (λ (r : Result RunError Started × Disk). r.0)
              (start_with-loaded numbered sort join codecs w' cfg a.enrolled d loads)
            ∙ result,
        ap (λ (x : Started). x.devices) is' ∙ same_devices ∙ sym devices,
        ap (λ (x : Started). x.exposed) is' ∙ same_exposed ∙ sym exposed,
      )

  -- A start that wrote the registry and the start after it, when the registry can be read and written then:
  -- the second one succeeds, with the same devices and accessories in the same order with the same ids,
  -- whatever else is reported, cached or drawn. The configured devices and the reports have normal
  -- MACs, each configured device has a MAC or a DID, there are fewer than 2^31 - 1 devices and reports, and encoding gives a text that decodes to
  -- what was encoded.
  pub start_with_again :
      (w w' : World) (cfg : Settings) (saved : List Device) (s : Started) (text : Bytes) (d : Disk)
      → eq_bytes w.registry_temp (registry_path numbered sort join codecs cfg) ≡ false
      → lookup w.registry_temp d ≡ none
      → load_registry codecs.registry w.registry_broken
          (registry_path numbered sort join codecs cfg)
          d
        ≡ ok saved
      → (start_with numbered sort join codecs w cfg d).0 ≡ ok s
      → s.must_save ≡ true
      → All IsNormal cfg.devices
      → All IsNormalEvent w.events
      → codecs.registry.encode s.enrolled ≡ some text
      → codecs.registry.decode (line text) ≡ some s.enrolled
      → All IsKeyed cfg.devices
      → length (merge_devices cfg.devices saved) < last_id
      → length w.events < last_id
      → 0 < length s.enrolled
      → w'.registry_broken ≡ false
      → IsCalm w'.registry_faults
      → let d' = (start_with numbered sort join codecs w cfg d).1 in
        (s' : Started) × ((start_with numbered sort join codecs w' cfg d').0 ≡ ok s')
        × (s'.devices ≡ s.devices)
        × (s'.exposed ≡ s.exposed)
  start_with_again w w' cfg saved s text d other fresh loads done saves set_normal reported encodes
        decodes keyed room few_reports some_there readable calm =
      let a = assemble numbered sort cfg saved w.events [] in
      let path = registry_path numbered sort join codecs cfg in
      let o = save_registry codecs.registry w.registry_faults w.registry_temp path a.enrolled d in
      let d1 = disk_after d o in
      let begins = start_with-loaded numbered sort join codecs w cfg saved d loads in
      let first : (enroll_saved numbered sort join codecs w cfg saved d).0 ≡ ok s =
        rw begins at done in
      let (ms, is) = enroll_saved-assemble numbered sort join codecs w cfg saved s d first in
      let fields = assemble_fields numbered sort join codecs cfg saved w ms in
      let enrolled : s.enrolled ≡ a.enrolled = ap (λ (x : Started). x.enrolled) is ∙ fields.0 in
      let writes : a.must_save ≡ true =
        sym (ap (λ (x : Started). x.must_save) is ∙ fields.1) ∙ saves in
      let (worked, left, served) =
        enroll_saved-wrote numbered sort join codecs w cfg saved s d writes first in
      let normal = with_normal_mac_fixed a.enrolled (
        assemble-IsNormal numbered sort cfg saved w.events [] set_normal
          (load_registry-IsNormal codecs.registry w.registry_broken path d saved loads) reported) in
      let back =
        load_registry-enrolled numbered sort join codecs w cfg saved text d other fresh normal
          (rw enrolled at encodes) (rw enrolled at decodes) worked in
      let (s', result, devices, exposed) =
        start_with-enrolled w w' cfg saved ms text d1
          (ap (λ (b : Bool). load_registry codecs.registry b path d1) readable ∙ back) keyed room
          few_reports (rw enrolled at some_there) (rw enrolled at encodes) calm in
      (
        s',
        ap (λ (x : Disk). (start_with numbered sort join codecs w' cfg x).0)
              (ap (λ (r : Result RunError Started × Disk). r.1) begins ∙ left)
            ∙ result,
        devices ∙ sym (ap (λ (x : Started). x.devices) is),
        exposed ∙ sym (ap (λ (x : Started). x.exposed) is),
      )
