-- ===== src/App/Start/Exposed.antt =====
-- The accessories of the bridge have ids of their own.
use mgl03_homekit_bridge.Common.{
  ℕ, suc, ◌+◌, ◌≤◌, ◌<◌, ◌≡◌, refl, Bool, true, List, [], ◌∷◌, Bytes, contains, length, ltb, ◌==◌,
  if◌then◌else◌, arith,
}
use mgl03_homekit_bridge.Config.Device.{Device}
use mgl03_homekit_bridge.Config.Validate.{Settings}
use mgl03_homekit_bridge.Measurements.State.{Devices}
use mgl03_homekit_bridge.Common.Int.{pos}
use mgl03_homekit_bridge.Openmiio.Dedup.{Deduplicator, new_deduplicator}
use mgl03_homekit_bridge.App.Aids.{last_id}
use mgl03_homekit_bridge.App.Merge.{merge_devices}
use mgl03_homekit_bridge.App.Prepare.{prepare_devices}
use mgl03_homekit_bridge.App.Prepare.Assigned.{IsAssigned, prepare_devices-IsAssigned}
use mgl03_homekit_bridge.App.Discover.{Event, discover_devices}
use mgl03_homekit_bridge.App.Discover.Sound.{discover_devices-IsSound}
use mgl03_homekit_bridge.App.Start.{key_less, with_accessory, assemble}

-- How many pass a test.
abbrev pub count {ℓ} : {A : Type ℓ} → (A → Bool) → List A → ℕ
count p [] = 0
count p (d ∷ ds) = (if p d then 1 else 0) + count p ds

-- A sort gives back the same devices: each test passes as often.
abbrev pub IsSorting : ((Device → Device → Bool) → List Device → List Device) → Type 0
IsSorting sort =
    (less : Device → Device → Bool) (p : Device → Bool) (ds : List Device)
    → count p (sort less ds) ≡ count p ds

count-with_accessory :
    (p : Device → Bool) (ds : List Device) → count p (with_accessory ds) ≤ count p ds
unfolding with_accessory
count-with_accessory p [] = omega arith
count-with_accessory p (d ∷ ds) = ground (arith, count-with_accessory p ds)

-- Assigned ids: none is used before, none is there twice, none is below 2.
count_used :
    (n : ℕ) (used : List ℕ) (ds : List Device)
    → IsAssigned used ds
    → contains n used ≡ true
    → count (λ d. d.aid == n) ds ≡ 0
count_used n used [] h e = refl
count_used n used (d ∷ ds) (lo, fresh, h) e = ground (arith, count_used n (d.aid ∷ used) ds h)

count_assigned :
    (n : ℕ) (used : List ℕ) (ds : List Device) → IsAssigned used ds → count (λ d. d.aid == n) ds ≤ 1
count_assigned n used [] h = omega arith
count_assigned n used (d ∷ ds) (lo, fresh, h) =
    ground (arith, count_used n (d.aid ∷ used) ds h, count_assigned n (d.aid ∷ used) ds h)

count_reserved :
    (used : List ℕ) (ds : List Device) → IsAssigned used ds → count (λ d. ltb d.aid 2) ds ≡ 0
count_reserved used [] h = refl
count_reserved used (d ∷ ds) (lo, fresh, h) = ground (arith, count_reserved (d.aid ∷ used) ds h)

module _ (numbered : Bytes → ℕ → Bytes) where
  -- Discovery begins without devices, or there is none.
  discover_devices-IsAssigned :
      (mode : Bytes) (f : Deduplicator) (ds : List Device) (es : List Event)
      → length es < last_id
      → IsAssigned [] ds
      → IsAssigned [] (discover_devices numbered mode f ds es).devices
  unfolding discover_devices
  discover_devices-IsAssigned mode f (d ∷ ds) es room h =
      let some_there : ltb 0 (suc (length ds)) ≡ true = ground arith in rw some_there h
  discover_devices-IsAssigned mode f [] es room h =
      let sound = discover_devices-IsSound numbered mode f es room in
      unfold discover_devices in sound.assigned

  module _ (sort : (Device → Device → Bool) → List Device → List Device) where
    -- Whatever files and reports the bridge starts from, fewer than 2^31 - 1 devices and reports, and when
    -- sorting keeps the devices: no two accessories have the same id, and none has the id 1 of the bridge
    -- itself, or 0.
    pub exposed_ids :
        (cfg : Settings) (saved : List Device) (es : List Event) (ms : Devices) (n : ℕ)
        → IsSorting sort
        → length (merge_devices cfg.devices saved) < last_id
        → length es < last_id
        → let s = assemble numbered sort cfg saved es ms in
          (count (λ d. d.aid == n) s.exposed ≤ 1) × (count (λ d. ltb d.aid 2) s.exposed ≡ 0)
    unfolding assemble
    exposed_ids cfg saved es ms n sorts few few_reports =
        let prepared = (prepare_devices (merge_devices cfg.devices saved)).0 in
        let f = new_deduplicator (pos 600_000_000_000) in
        let found = (discover_devices numbered cfg.discovery.mode f prepared es).devices in
        let ids =
          discover_devices-IsAssigned cfg.discovery.mode f prepared es few_reports
            (prepare_devices-IsAssigned (merge_devices cfg.devices saved) few) in
        let own : Device → Bool = λ d. d.aid == n in
        let low : Device → Bool = λ d. ltb d.aid 2 in
        (
          omega (
            arith,
            count-with_accessory own (sort key_less found),
            sorts key_less own found,
            count_assigned n [] found ids,
          ),
          omega (
            arith,
            count-with_accessory low (sort key_less found),
            sorts key_less low found,
            count_reserved [] found ids,
          ),
        )
