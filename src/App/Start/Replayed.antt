-- ===== src/App/Start/Replayed.antt =====
-- What discovery has kept reaches the accessories that the bridge starts with.
use mgl03_homekit_bridge.Common.{
  ℕ, suc, ◌<◌, ◌≡◌, ◌⊎◌, refl, sym, ◌∙◌, inl, inr, Bool, true, false, not, List, [], ◌∷◌, Bytes,
  is_some, length, ltb, arith, All, All-map,
}
use mgl03_homekit_bridge.Common.Int.{ℤ, pos}
use mgl03_homekit_bridge.Config.Device.{Device}
use mgl03_homekit_bridge.Config.Validate.{Settings}
use mgl03_homekit_bridge.Measurements.State.{Devices}
use mgl03_homekit_bridge.Openmiio.Types.{FloatOps, Update}
use mgl03_homekit_bridge.Openmiio.Products.{lookup_product, supported_product}
use mgl03_homekit_bridge.Openmiio.Dedup.{Deduplicator, new_deduplicator}
use mgl03_homekit_bridge.Bridge.Sensor.{product_for_device, new_device_accessory}
use mgl03_homekit_bridge.App.Aids.{last_id}
use mgl03_homekit_bridge.App.Merge.{is_match, find_device, merge_devices}
use mgl03_homekit_bridge.App.Prepare.{prepare_devices}
use mgl03_homekit_bridge.App.Discover.{Event, discover_devices}
use mgl03_homekit_bridge.App.Discover.Found.{
  is_found, find_device-is_found, discover_devices-HasTakers,
}
use mgl03_homekit_bridge.App.Prepare.Supported.{IsSupported}
use mgl03_homekit_bridge.App.Discover.Sound.{discover_devices-IsSound}
use mgl03_homekit_bridge.App.Updates.{replay_initial}
use mgl03_homekit_bridge.App.Updates.Rules.{applied}
use mgl03_homekit_bridge.App.Updates.Replay.{HasTakers, AreOwners, reports, reports-replay_initial}
use mgl03_homekit_bridge.App.Start.{key_less, with_accessory, assemble, runtime}
use mgl03_homekit_bridge.App.Start.Exposed.{count, IsSorting}

is_found-count : (u : Update) (ds : List Device) → is_found u ds ≡ ltb 0 (count (is_match u) ds)
unfolding is_found
is_found-count u [] = ground arith
is_found-count u (d ∷ ds) = ground (arith, is_found-count u ds)

-- A supported device has an accessory.
abbrev has_none : Device → Bool
has_none d = not (is_some (new_device_accessory d))

supported_has_accessory : (d : Device) → IsSupported d → has_none d ≡ false
unfolding supported_product new_device_accessory product_for_device lookup_product
supported_has_accessory d h = ground arith

count_none : (ds : List Device) → All IsSupported ds → count has_none ds ≡ 0
count_none [] h = refl
count_none (d ∷ ds) (h, hs) = rw (supported_has_accessory d h) (omega (arith, count_none ds hs))

-- Nothing is lost where every device has one.
count-with_accessory_all :
    (p : Device → Bool) (ds : List Device)
    → count has_none ds ≡ 0
    → count p (with_accessory ds) ≡ count p ds
unfolding with_accessory
count-with_accessory_all p [] h = refl
count-with_accessory_all p (d ∷ ds) h = ground (arith, count-with_accessory_all p ds)

module _ (numbered : Bytes → ℕ → Bytes) where
  -- Either discovery keeps no report, or all its devices are supported.
  discover_devices-cases :
      (mode : Bytes) (f : Deduplicator) (ds : List Device) (es : List Event)
      → length es < last_id
      → let found = discover_devices numbered mode f ds es in
        (found.initial ≡ []) ⊎ All IsSupported found.devices
  unfolding discover_devices
  discover_devices-cases mode f (d ∷ ds) es room =
      let some_there : ltb 0 (suc (length ds)) ≡ true = ground arith in inl (rw some_there refl)
  discover_devices-cases mode f [] es room =
      let sound = discover_devices-IsSound numbered mode f es room in inr sound.supported

  module _ (sort : (Device → Device → Bool) → List Device → List Device)
      (sorts : IsSorting sort) where
    -- Neither sorting nor making the accessories loses the device of a report.
    find_device-exposed :
        (ds : List Device) (u : Update)
        → All IsSupported ds
        → is_some (find_device ds u) ≡ true
        → is_some (find_device (with_accessory (sort key_less ds)) u) ≡ true
    find_device-exposed ds u supported taken =
        let sorted = sort key_less ds in
        let all = sorts key_less has_none ds ∙ count_none ds supported in
        let same =
          count-with_accessory_all (is_match u) sorted all ∙ sorts key_less (is_match u) ds in
        find_device-is_found u (with_accessory sorted)
        ∙ is_found-count u (with_accessory sorted)
        ∙ rw same (sym (is_found-count u ds) ∙ sym (find_device-is_found u ds) ∙ taken)

    assemble-HasTakers :
        (cfg : Settings) (saved : List Device) (es : List Event) (ms : Devices)
        → length es < last_id
        → let s = assemble numbered sort cfg saved es ms in HasTakers s.exposed s.initial
    unfolding assemble
    assemble-HasTakers cfg saved es ms room =
        let prepared = (prepare_devices (merge_devices cfg.devices saved)).0 in
        let f = new_deduplicator (pos 600_000_000_000) in
        let found = discover_devices numbered cfg.discovery.mode f prepared es in
        elim (discover_devices-cases cfg.discovery.mode f prepared es room) [
          | inl nothing ↦ rw nothing tt
          | inr supported ↦
              All-map (λ e t. find_device-exposed found.devices e.1 supported t) found.initial
                (discover_devices-HasTakers numbered cfg.discovery.mode f prepared es)
        ]

-- Sorting keeps the devices, and fewer than 2^31 - 1 reports came during discovery. Then, whatever the
-- bridge starts from, the loop over the reports that discovery has kept applies each of them exactly once,
-- in the order in which the map gives them, and each to the first accessory whose device has its MAC, up to
-- the case of the letters, or its DID.
pub reports-assemble :
    (numbered : Bytes → ℕ → Bytes) (sort : (Device → Device → Bool) → List Device → List Device)
    (fl : FloatOps) (cfg : Settings) (saved : List Device) (es : List Event) (ms : Devices)
    (unix : ℤ)
    → IsSorting sort
    → length es < last_id
    → let s = assemble numbered sort cfg saved es ms in
      let calls = applied (replay_initial numbered fl unix s.initial (runtime s)).1 in
      (reports calls ≡ reports s.initial) × AreOwners s.exposed calls
unfolding runtime
reports-assemble numbered sort fl cfg saved es ms unix sorts room =
    let s = assemble numbered sort cfg saved es ms in
    reports-replay_initial numbered fl unix s.initial (runtime s)
      (assemble-HasTakers numbered sort sorts cfg saved es ms room)
