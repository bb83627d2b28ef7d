-- ===== src/Measurements/Laws.antt =====
-- What Merge and Restore promise.
use mgl03_homekit_bridge.Common.{
  ◌≡◌, refl, ap, ◌∙◌, inl, inr, Bool, true, false, ◌||◌, Option, none, some, ◌++◌, Bytes, is_empty,
  is_some, trim_space, arith, Bool-cases, Option-cases,
}
use mgl03_homekit_bridge.Common.Int.{ℤ}
use mgl03_homekit_bridge.Common.Table.{lookup, insert, lookup-insert_self}
use mgl03_homekit_bridge.Config.Device.{Device}
use mgl03_homekit_bridge.Openmiio.Types.{Float64, FloatOps, Update, has_measurements}
use mgl03_homekit_bridge.Measurements.State.{
  Reading, Devices, did_prefix, identity, merge_start, float_changes, set_float, battery_changes,
  set_battery, reading_changes, merge_reading, merge, find_reading, restore,
}

-- The measured floats of an update are equal to themselves: they are no NaN.
abbrev IsNumber : FloatOps → Option Float64 → Type 0
IsNumber fl none = Unit
IsNumber fl (some v) = fl.eq v v ≡ true

pub record HasNumbers (fl : FloatOps) (u : Update) : Type 0 where
  pub temperature : IsNumber fl u.temperature
  pub humidity : IsNumber fl u.humidity

module _ (fl : FloatOps) where
  float_changes-set_float :
      (current next : Option Float64)
      → IsNumber fl next
      → float_changes fl (set_float fl current next) next ≡ false
  unfolding float_changes set_float
  float_changes-set_float none none n = refl
  float_changes-set_float (some v) none n = refl
  float_changes-set_float none (some w) n = rw n
  float_changes-set_float (some v) (some w) n = elim (Bool-cases (fl.eq v w)) [
    | inl same ↦ rw (same, same)
    | inr other ↦ rw (other, n)
  ]

  battery_changes-set_battery :
      (current next : Option ℤ) → battery_changes fl (set_battery fl current next) next ≡ false
  unfolding battery_changes set_battery
  battery_changes-set_battery none none = refl
  battery_changes-set_battery (some v) none = refl
  battery_changes-set_battery none (some w) = ground arith
  battery_changes-set_battery (some v) (some w) = ground arith

  reading_changes-merge_reading :
      (r : Reading) (u : Update) (unix : ℤ)
      → HasNumbers fl u
      → reading_changes fl (merge_reading fl r u unix) u ≡ false
  unfolding reading_changes merge_reading
  reading_changes-merge_reading r u unix n = rw (
    float_changes-set_float r.temperature u.temperature n.temperature,
    float_changes-set_float r.humidity u.humidity n.humidity,
    battery_changes-set_battery r.battery u.battery,
  )

  merge_start_known :
      (u : Update) (key : Bytes) (r : Reading) (ds : Devices)
      → lookup key ds ≡ some r
      → merge_start u key ds ≡ record { reading = r; devices = ds; moved = false }
  unfolding merge_start
  merge_start_known u key r ds e = rw e

  -- The three ways through Merge.
  merge_keyless :
      (u : Update) (unix : ℤ) (ds : Devices)
      → is_empty (identity u.mac u.did) ≡ true
      → merge fl u unix ds ≡ (ds, false)
  unfolding merge
  merge_keyless u unix ds h = rw h

  changes : Update → Devices → Bool
  changes u ds =
      let start = merge_start u (identity u.mac u.did) ds in
      start.moved || reading_changes fl start.reading u

  merge_same :
      (u : Update) (unix : ℤ) (ds : Devices)
      → is_empty (identity u.mac u.did) ≡ false
      → changes u ds ≡ false
      → merge fl u unix ds ≡ ((merge_start u (identity u.mac u.did) ds).devices, false)
  unfolding merge changes
  merge_same u unix ds k h = rw (k, h)

  merge_changed :
      (u : Update) (unix : ℤ) (ds : Devices)
      → is_empty (identity u.mac u.did) ≡ false
      → changes u ds ≡ true
      → let start = merge_start u (identity u.mac u.did) ds in
        merge fl u unix ds ≡ (
          insert (identity u.mac u.did) (merge_reading fl start.reading u unix) start.devices,
          true,
        )
  unfolding merge changes
  merge_changed u unix ds k h = rw (k, h)

  merge_start_still :
      (u : Update) (key : Bytes) (ds : Devices)
      → (merge_start u key ds).moved ≡ false
      → (merge_start u key ds).devices ≡ ds
  unfolding merge_start
  merge_start_still u key ds h = ground (
    arith,
    Option-cases (lookup key ds),
    Option-cases (lookup (did_prefix ++ trim_space u.did) ds),
  )

  merge_unchanged :
      (u : Update) (unix : ℤ) (ds : Devices)
      → is_empty (identity u.mac u.did) ≡ false
      → changes u ds ≡ false
      → merge fl u unix ds ≡ (ds, false)
  merge_unchanged u unix ds k h =
      merge_same u unix ds k h
      ∙ ap (λ (d : Devices). (d, false))
          (merge_start_still u (identity u.mac u.did) ds (unfold changes in ground arith))

  -- An update whose device already has a reading that it would not change.
  changes_known :
      (u : Update) (r : Reading) (ds : Devices)
      → lookup (identity u.mac u.did) ds ≡ some r
      → reading_changes fl r u ≡ false
      → changes u ds ≡ false
  unfolding changes
  changes_known u r ds e h = rw (merge_start_known u (identity u.mac u.did) r ds e, h)

  -- The same report again changes nothing, so it causes no second write to the flash, if its floats are
  -- numbers; the wall clock may have moved on.
  pub merge_again :
      (u : Update) (unix unix' : ℤ) (ds : Devices)
      → HasNumbers fl u
      → merge fl u unix' (merge fl u unix ds).0 ≡ ((merge fl u unix ds).0, false)
  merge_again u unix unix' ds n = elim (Bool-cases (is_empty (identity u.mac u.did))) [
    | inl keyless ↦ rw (merge_keyless u unix ds keyless) (merge_keyless u unix' ds keyless)
    | inr keyed ↦ elim (Bool-cases (changes u ds)) [
      | inr still ↦
          rw (merge_unchanged u unix ds keyed still) (merge_unchanged u unix' ds keyed still)
      | inl new ↦
          let key = identity u.mac u.did in
          let start = merge_start u key ds in
          let r = merge_reading fl start.reading u unix in
          let ds' = insert key r start.devices in
          rw (merge_changed u unix ds keyed new) (
            merge_unchanged u unix' ds' keyed (
              changes_known u r ds' (lookup-insert_self key r start.devices)
                (reading_changes-merge_reading start.reading u unix n)))
    ]
  ]

  -- A device of the update's identity finds the entry under it.
  find_reading_known :
      (u : Update) (r : Reading) (ds : Devices) (d : Device)
      → identity d.mac d.did ≡ identity u.mac u.did
      → lookup (identity u.mac u.did) ds ≡ some r
      → find_reading d ds ≡ some r
  unfolding find_reading
  find_reading_known u r ds d e h = ground (arith, e, h)

  new_to_empty :
      (u : Update) (key : Bytes) (ds : Devices)
      → is_some u.temperature || (is_some u.humidity || is_some u.battery) ≡ true
      → lookup key ds ≡ none
      → (merge_start u key ds).moved ≡ false
      → reading_changes fl (merge_start u key ds).reading u ≡ false
      → ⊥
  unfolding merge_start reading_changes float_changes battery_changes
  new_to_empty u key ds m e still same =
      ground (arith, Option-cases (lookup (did_prefix ++ trim_space u.did) ds))

  -- A report with a measurement is new to an empty reading, so where nothing changes the device has one.
  known_of_unchanged :
      (u : Update) (ds : Devices)
      → is_some u.temperature || (is_some u.humidity || is_some u.battery) ≡ true
      → changes u ds ≡ false
      → (r : Reading) × (lookup (identity u.mac u.did) ds ≡ some r)
        × (reading_changes fl r u ≡ false)
  unfolding changes
  known_of_unchanged u ds m h = elim (Option-cases (lookup (identity u.mac u.did) ds)) [
    | inr (r, e) ↦ (r, e, ground (arith, merge_start_known u (identity u.mac u.did) r ds e))
    | inl e ↦ absurd (new_to_empty u (identity u.mac u.did) ds m e (ground arith) (ground arith))
  ]

  -- After a report with a measurement of a device that can be identified, whose floats equal themselves, as
  -- all numbers do, a configured device of the same identity finds a reading that the report would not
  -- change, whether it was new or not.
  pub find_reading-merge :
      (u : Update) (unix : ℤ) (ds : Devices) (d : Device)
      → HasNumbers fl u
      → is_empty (identity u.mac u.did) ≡ false
      → is_some u.temperature || (is_some u.humidity || is_some u.battery) ≡ true
      → identity d.mac d.did ≡ identity u.mac u.did
      → (r : Reading) × (find_reading d (merge fl u unix ds).0 ≡ some r)
        × (reading_changes fl r u ≡ false)
  find_reading-merge u unix ds d n keyed m e = elim (Bool-cases (changes u ds)) [
    | inr still ↦
        let (r, known, same) = known_of_unchanged u ds m still in
        (r, rw (merge_unchanged u unix ds keyed still) (find_reading_known u r ds d e known), same)
    | inl new ↦
        let key = identity u.mac u.did in
        let start = merge_start u key ds in
        let r = merge_reading fl start.reading u unix in
        (
          r,
          rw (merge_changed u unix ds keyed new) (
              find_reading_known u r (insert key r start.devices) d e
                (lookup-insert_self key r start.devices)),
          reading_changes-merge_reading start.reading u unix n,
        )
  ]

-- What Restore gives holds a measurement, and neither motion nor a frame counter: no brushing session
-- and no state of the frame filter survives a restart.
pub restore_lem :
    (d : Device) (ds : Devices) {u : Update} {t : ℤ}
    → restore d ds ≡ some (u, t)
    → (u.toothbrush ≡ none) × (u.has_frame_count ≡ false) × (has_measurements u ≡ true)
unfolding restore has_measurements
restore_lem d ds h = ground arith
