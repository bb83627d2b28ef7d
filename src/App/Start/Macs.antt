-- ===== src/App/Start/Macs.antt =====
-- The devices that the bridge starts with have normal MACs.
use mgl03_homekit_bridge.Common.{
  ℕ, ◌+◌, ◌≡◌, refl, ap, ap₂, inl, inr, Bool, ◌||◌, List, [], ◌∷◌, ◌++◌, Bytes, ok, map, length,
  ltb, eq_bytes, is_empty, codes, All, All-append, Bool-cases,
}
use mgl03_homekit_bridge.Config.Device.{Device}
use mgl03_homekit_bridge.Config.Mac.{normalize_mac}
use mgl03_homekit_bridge.Config.Mac.Normal.{normalize_mac_idem}
use mgl03_homekit_bridge.Config.Validate.{Settings}
use mgl03_homekit_bridge.Files.{Disk, Codec}
use mgl03_homekit_bridge.Registry.{with_normal_mac, load_registry}
use mgl03_homekit_bridge.Registry.RoundTrip.{load_registry-IsLoaded}
use mgl03_homekit_bridge.Measurements.State.{Devices}
use mgl03_homekit_bridge.App.Merge.{
  Seen, note_device, note_devices, is_duplicate, merge_loop, merge_devices, device_key,
}
use mgl03_homekit_bridge.App.Prepare.{
  prepare_device, prepare_loop, prepare_devices, append_device_with_aid,
}
use mgl03_homekit_bridge.App.Prepare.Kept.{identity-prepare_device}
use mgl03_homekit_bridge.App.Updates.{device_from_update}
use mgl03_homekit_bridge.App.Discover.{
  Discovery, Event, cancelled, window_over, report, on_event, discover_loop, discover_devices,
}
use mgl03_homekit_bridge.App.Discover.Sound.{on_report-devices}
use mgl03_homekit_bridge.App.Start.{assemble}

abbrev pub IsNormal : Device → Type 0
IsNormal d = normalize_mac d.mac ≡ d.mac

pub with_normal_mac_fixed : (ds : List Device) → All IsNormal ds → map with_normal_mac ds ≡ ds
unfolding with_normal_mac
with_normal_mac_fixed [] h = refl
with_normal_mac_fixed (d ∷ ds) (n, h) =
    ap₂ ◌∷◌ (ap (λ (m : Bytes). record d { mac = m }) n) (with_normal_mac_fixed ds h)

map-IsNormal : (ds : List Device) → All IsNormal (map with_normal_mac ds)
unfolding with_normal_mac
map-IsNormal [] = tt
map-IsNormal (d ∷ ds) = (normalize_mac_idem d.mac, map-IsNormal ds)

merge_loop-IsNormal :
    (ds : List Device) (seen : Seen) → All IsNormal ds → All IsNormal (merge_loop ds seen)
unfolding merge_loop
merge_loop-IsNormal [] seen h = tt
merge_loop-IsNormal (d ∷ ds) seen (n, h) =
    let added = merge_loop-IsNormal ds (note_device d seen) h in
    let others = merge_loop-IsNormal ds seen h in
    elim (Bool-cases (is_duplicate d seen || is_empty (device_key d))) [
      | inl skip ↦ rw skip others
      | inr new ↦ rw new (n, added)
    ]

pub merge_devices-IsNormal :
    (configured saved : List Device)
    → All IsNormal configured
    → All IsNormal saved
    → All IsNormal (merge_devices configured saved)
unfolding merge_devices
merge_devices-IsNormal configured saved h k =
    let seen = note_devices configured (record { macs = []; dids = [] }) in
    All-append IsNormal configured (merge_loop saved seen) h (merge_loop-IsNormal saved seen k)

prepare_loop-IsNormal :
    (ds : List Device) (used : List ℕ) → All IsNormal ds → All IsNormal (prepare_loop used ds).0
unfolding prepare_loop
prepare_loop-IsNormal [] used h = tt
prepare_loop-IsNormal (d ∷ ds) used (n, h) =
    let same = ap (λ (i : Bytes × Bytes × Bytes). i.1) (identity-prepare_device used d) in
    (rw same n, prepare_loop-IsNormal ds ((prepare_device used d).0.aid ∷ used) h)

-- A report whose MAC is normal, as parsing makes it.
abbrev pub IsNormalEvent : Event → Type 0
IsNormalEvent cancelled = Unit
IsNormalEvent window_over = Unit
IsNormalEvent (report now u) = normalize_mac u.mac ≡ u.mac

module _ (numbered : Bytes → ℕ → Bytes) where
  on_event-IsNormal :
      (first : Bool) (e : Event) (s : Discovery)
      → IsNormalEvent e
      → All IsNormal s.devices
      → All IsNormal (on_event numbered first e s).0.devices
  unfolding on_event
  on_event-IsNormal first cancelled s n h = h
  on_event-IsNormal first window_over s n h = h
  on_event-IsNormal first (report now u) s n h = elim (on_report-devices numbered first now u s) [
    | inl same ↦ rw same h
    | inr (supported, new, joined) ↦
        let d = device_from_update numbered u (length s.devices + 1) in
        let own : IsNormal d = unfold device_from_update in n in
        rw joined (
          unfold append_device_with_aid prepare_devices in
          prepare_loop-IsNormal (s.devices ++ (d ∷ [])) []
            (All-append IsNormal s.devices (d ∷ []) h (own, tt)))
  ]

  discover_loop-IsNormal :
      (first : Bool) (es : List Event) (s : Discovery)
      → All IsNormalEvent es
      → All IsNormal s.devices
      → All IsNormal (discover_loop numbered first es s).devices
  unfolding discover_loop
  discover_loop-IsNormal first [] s ns h = h
  discover_loop-IsNormal first (e ∷ es) s (n, ns) h =
      let next = on_event-IsNormal first e s n h in
      elim (Bool-cases (on_event numbered first e s).1) [
        | inl done ↦ rw done next
        | inr more ↦
            rw more (discover_loop-IsNormal first es (on_event numbered first e s).0 ns next)
      ]

  -- What a start enrolls has normal MACs, when what was configured, saved and reported has.
  pub assemble-IsNormal :
      (sort : (Device → Device → Bool) → List Device → List Device) (cfg : Settings)
      (saved : List Device) (es : List Event) (ms : Devices)
      → All IsNormal cfg.devices
      → All IsNormal saved
      → All IsNormalEvent es
      → All IsNormal (assemble numbered sort cfg saved es ms).enrolled
  unfolding assemble discover_devices prepare_devices
  assemble-IsNormal sort cfg saved es ms h k ns =
      let prepared = (prepare_loop [] (merge_devices cfg.devices saved)).0 in
      let normal =
        prepare_loop-IsNormal (merge_devices cfg.devices saved) []
          (merge_devices-IsNormal cfg.devices saved h k) in
      let skips = ltb 0 (length prepared) || eq_bytes cfg.discovery.mode (codes "manual") in
      elim (Bool-cases skips) [
        | inl skip ↦ rw skip normal
        | inr search ↦
            rw search
              (discover_loop-IsNormal (eq_bytes cfg.discovery.mode (codes "first")) es _ ns normal)
      ]

-- What Load gives has.
pub load_registry-IsNormal :
    (codec : Codec (List Device)) (broken : Bool) (path : Bytes) (d : Disk) (saved : List Device)
    → load_registry codec broken path d ≡ ok saved
    → All IsNormal saved
load_registry-IsNormal codec broken path d saved e =
    elim (load_registry-IsLoaded codec broken path d) [
      | inl (x, failed) ↦ absurd (cc (failed, e))
      | inr (ds, loads) ↦
          let same : saved ≡ map with_normal_mac ds = cc (loads, e) in rw same (map-IsNormal ds)
    ]
