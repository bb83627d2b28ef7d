-- ===== src/App/Server/Ids.antt =====
-- The ids of the accessories of the HomeKit server.
use mgl03_homekit_bridge.Common.{
  ℕ, ◌+◌, ◌≤◌, ◌⊎◌, ◌≡◌, refl, inl, inr, true, false, List, [], ◌∷◌, ltb, ◌==◌, if◌then◌else◌,
  arith, Option-cases,
}
use mgl03_homekit_bridge.Config.Device.{Device}
use mgl03_homekit_bridge.Config.Validate.{Settings}
use mgl03_homekit_bridge.Bridge.Ids.{accessory_id}
use mgl03_homekit_bridge.Bridge.Sensor.{
  AccessoryKind, sensor_accessory, toothbrush_accessory, new_device_accessory,
}
use mgl03_homekit_bridge.Bridge.Accessory.{
  new_sensor, new_toothbrush_accessory, make_accessory, device_accessories,
}
use mgl03_homekit_bridge.App.Start.{Started, with_accessory}
use mgl03_homekit_bridge.App.Start.Exposed.{count}
use mgl03_homekit_bridge.App.Server.{bridge_accessory, homekit_server}

-- Both kinds have the id that is set, where it is at least 2.
id-make_accessory :
    (kind : AccessoryKind) (d : Device) → ltb d.aid 2 ≡ false → (make_accessory kind d).id ≡ d.aid
unfolding make_accessory new_sensor new_toothbrush_accessory accessory_id
id-make_accessory sensor_accessory d h = ground arith
id-make_accessory toothbrush_accessory d h = ground arith

device_accessories_step :
    (d : Device) (ds : List Device)
    → ((device_accessories (d ∷ ds) ≡ device_accessories ds)
        × (with_accessory (d ∷ ds) ≡ with_accessory ds))
      ⊎ ((kind : AccessoryKind) × (device_accessories (d ∷ ds)
            ≡ make_accessory kind d ∷ device_accessories ds)
          × (with_accessory (d ∷ ds) ≡ d ∷ with_accessory ds))
unfolding device_accessories with_accessory
device_accessories_step d ds = elim (Option-cases (new_device_accessory d)) [
  | inl e ↦ inl (rw (e, device_accessories) refl, rw e refl)
  | inr (kind, e) ↦ inr (kind, rw (e, device_accessories) refl, rw e refl)
]

-- Each id is there as often as among the devices that have an accessory.
count-device_accessories :
    (n : ℕ) (ds : List Device)
    → count (λ d. ltb d.aid 2) (with_accessory ds) ≡ 0
    → count (λ a. a.id == n) (device_accessories ds) ≡ count (λ d. d.aid == n) (with_accessory ds)
count-device_accessories n [] h = unfold device_accessories with_accessory in refl
count-device_accessories n (d ∷ ds) h = elim (device_accessories_step d ds) [
  | inl (same, e) ↦ rw (same, e) (count-device_accessories n ds (rw e at h))
  | inr (kind, more, e) ↦
      let h' : (if ltb d.aid 2 then 1 else 0) + count (λ d. ltb d.aid 2) (with_accessory ds) ≡ 0 =
        rw e at h in
      let high : ltb d.aid 2 ≡ false = ground (arith, h') in
      let same = count-device_accessories n ds (ground (arith, h')) in
      rw (more, e, id-make_accessory kind d high, same) refl
]

-- Ids below 2 are those of no device.
count_low :
    (n : ℕ) (ds : List Device)
    → ltb n 2 ≡ true
    → count (λ d. d.aid == n) ds ≤ count (λ d. ltb d.aid 2) ds
count_low n [] h = omega arith
count_low n (d ∷ ds) h = ground (arith, count_low n ds h)

-- The ids of the accessories, among which that of the bridge is 1.
pub count-homekit_server :
    (cfg : Settings) (s : Started) (n : ℕ)
    → s.exposed ≡ with_accessory s.devices
    → count (λ d. d.aid == n) s.exposed ≤ 1
    → count (λ d. ltb d.aid 2) s.exposed ≡ 0
    → count (λ a. a.id == n) (homekit_server cfg s).accessories ≤ 1
unfolding homekit_server bridge_accessory
count-homekit_server cfg s n e own low =
    let none_low = rw e at low in
    let same = count-device_accessories n s.devices none_low in
    let few : count (λ a. a.id == n) (device_accessories s.devices) ≤ 1 = rw same (rw e at own) in
    let lone = count_low n s.exposed in
    let same' : count (λ a. a.id == n) (device_accessories s.devices)
        ≡ count (λ d. d.aid == n) s.exposed =
      rw (same, e) refl in
    ground (arith, few, lone, low, same')
