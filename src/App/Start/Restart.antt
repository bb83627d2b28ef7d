-- ===== src/App/Start/Restart.antt =====
-- A restart from the registry that was written serves the same devices.
use mgl03_homekit_bridge.Common.{
  ℕ, ◌<◌, ◌≡◌, refl, inl, inr, Bool-cases, Bool, true, List, [], ◌∷◌, ◌++◌, Bytes, length,
  length-append, ltb, arith, All,
}
use mgl03_homekit_bridge.Common.Int.{pos}
use mgl03_homekit_bridge.Config.Device.{Device}
use mgl03_homekit_bridge.Config.Validate.{Settings}
use mgl03_homekit_bridge.Measurements.State.{Devices}
use mgl03_homekit_bridge.Openmiio.Dedup.{Deduplicator, new_deduplicator}
use mgl03_homekit_bridge.App.Aids.{last_id}
use mgl03_homekit_bridge.App.Merge.{note_devices, merge_loop, merge_devices}
use mgl03_homekit_bridge.App.Merge.Again.{
  IsKeyed, IsFixed-same, merge_loop-IsFixed, merge_loop_fixed, merge_loop-seen,
  note_devices-AreSeen, AreSeen-same,
}
use mgl03_homekit_bridge.App.Prepare.{prepare_loop, prepare_devices}
use mgl03_homekit_bridge.App.Prepare.Again.{
  used_after, length-used_after, prepare_loop-parts, prepare_loop-AreSame,
}
use mgl03_homekit_bridge.App.Prepare.Assigned.{prepare_loop-IsAssigned}
use mgl03_homekit_bridge.App.Prepare.Kept.{length-prepare_loop}
use mgl03_homekit_bridge.App.Prepare.Settled.{prepare_loop-IsNamed, prepare_loop_settled}
use mgl03_homekit_bridge.App.Discover.{Event, discover_devices}
use mgl03_homekit_bridge.App.Discover.Sound.{IsSound, nothing_seen, discover_devices-IsSound}
use mgl03_homekit_bridge.App.Start.{assemble}

-- Merging the prepared devices with the configuration again, and preparing the result, gives them back.
prepare-merge_again :
    (configured saved : List Device)
    → All IsKeyed configured
    → length (merge_devices configured saved) < last_id
    → let ds = (prepare_devices (merge_devices configured saved)).0 in
      (prepare_devices (merge_devices configured ds)).0 ≡ ds
unfolding prepare_devices merge_devices
prepare-merge_again configured saved keyed room =
    let seen = note_devices configured (record { macs = []; dids = [] }) in
    let added = merge_loop saved seen in
    let used = used_after [] configured in
    let front = (prepare_loop [] configured).0 in
    let back = (prepare_loop used added).0 in
    let both = prepare_loop-parts configured added [] in
    let skips = merge_loop-seen front back seen (
      AreSeen-same configured front seen (prepare_loop-AreSame configured [])
        (note_devices-AreSeen configured (record { macs = []; dids = [] }) keyed)) in
    let stays = merge_loop_fixed back seen (
      IsFixed-same added back seen (prepare_loop-AreSame added used)
        (merge_loop-IsFixed saved seen)) in
    let settled = prepare_loop_settled back used (prepare_loop-IsNamed added used) (
      prepare_loop-IsAssigned added used
        (omega (arith, length-used_after configured [], length-append configured added))) in
    rw (both, skips, stays, prepare_loop-parts configured back [], settled) refl

-- Nor does merging and preparing what discovery made.
prepare-merge_found :
    (k : ℕ) (ds : List Device) → IsSound k ds → (prepare_devices (merge_devices [] ds)).0 ≡ ds
unfolding prepare_devices merge_devices note_devices
prepare-merge_found k ds sound =
    rw
      (
        merge_loop_fixed ds nothing_seen sound.fixed,
        prepare_loop_settled ds [] sound.named sound.assigned,
      )
      refl

no_elements {ℓ} : {A : Type ℓ} (xs ys : List A) → length (xs ++ ys) ≡ 0 → xs ≡ []
no_elements [] ys h = refl
no_elements (x ∷ xs) ys h = absurd (omega arith)

merge_devices-nothing :
    (configured saved : List Device) → length (merge_devices configured saved) ≡ 0 → configured ≡ []
unfolding merge_devices
merge_devices-nothing configured saved h =
    no_elements configured
      (merge_loop saved (note_devices configured (record { macs = []; dids = [] }))) h

module _ (numbered : Bytes → ℕ → Bytes) where
  -- Devices that are there stay as they are.
  discover_devices-full :
      (mode : Bytes) (f : Deduplicator) (ds : List Device) (es : List Event)
      → ltb 0 (length ds) ≡ true
      → (discover_devices numbered mode f ds es).devices ≡ ds
  unfolding discover_devices
  discover_devices-full mode f ds es full = rw full refl

  -- What was enrolled comes out of the next start, before it is sorted.
  enrolled_again :
      (cfg : Settings) (saved : List Device) (es : List Event)
      → All IsKeyed cfg.devices
      → length (merge_devices cfg.devices saved) < last_id
      → length es < last_id
      → let f = new_deduplicator (pos 600_000_000_000) in
        let prepared = (prepare_devices (merge_devices cfg.devices saved)).0 in
        let enrolled = (discover_devices numbered cfg.discovery.mode f prepared es).devices in
        (prepare_devices (merge_devices cfg.devices enrolled)).0 ≡ enrolled
  enrolled_again cfg saved es keyed room few_reports =
      let f = new_deduplicator (pos 600_000_000_000) in
      let merged = merge_devices cfg.devices saved in
      let prepared = (prepare_devices merged).0 in
      let size : length prepared ≡ length merged =
        unfold prepare_devices in length-prepare_loop merged [] in
      elim (Bool-cases (ltb 0 (length prepared))) [
        | inl full ↦
            rw (discover_devices-full cfg.discovery.mode f prepared es full)
              (prepare-merge_again cfg.devices saved keyed room)
        | inr empty ↦
            let none_there : length merged ≡ 0 = ground (arith, size) in
            let unset = merge_devices-nothing cfg.devices saved none_there in
            let nothing : prepared ≡ [] =
              no_elements prepared []
                (omega (arith, size, none_there, length-append prepared [])) in
            let sound = discover_devices-IsSound numbered cfg.discovery.mode f es few_reports in
            rw (nothing, unset) (prepare-merge_found (length es) _ sound)
      ]

  -- A restart from the registry of the devices that the first start had, saved or discovered, with the same
  -- configuration: it has the same devices and accessories in the same order with the same ids, whatever
  -- is reported or cached meanwhile. Each configured device has a MAC or a DID, there was some device, and
  -- there were fewer than 2^31 - 1 devices and reports.
  pub assemble_again :
      (sort : (Device → Device → Bool) → List Device → List Device) (cfg : Settings)
      (saved : List Device) (es es' : List Event) (ms ms' : Devices)
      → All IsKeyed cfg.devices
      → length (merge_devices cfg.devices saved) < last_id
      → length es < last_id
      → 0 < length (assemble numbered sort cfg saved es ms).enrolled
      → let s = assemble numbered sort cfg saved es ms in
        let s' = assemble numbered sort cfg s.enrolled es' ms' in
        (s'.enrolled ≡ s.enrolled) × (s'.devices ≡ s.devices) × (s'.exposed ≡ s.exposed)
  unfolding assemble
  assemble_again sort cfg saved es es' ms ms' keyed room few_reports some_there =
      let f = new_deduplicator (pos 600_000_000_000) in
      let prepared = (prepare_devices (merge_devices cfg.devices saved)).0 in
      let enrolled = (discover_devices numbered cfg.discovery.mode f prepared es).devices in
      let again = enrolled_again cfg saved es keyed room few_reports in
      let full : ltb 0 (length enrolled) ≡ true = ground (arith, some_there) in
      rw (again, discover_devices-full cfg.discovery.mode f enrolled es' full) (refl, refl, refl)
