-- ===== src/Measurements/State.antt =====
-- state.go: the readings by device, Merge and Restore.
use mgl03_homekit_bridge.Common.{
  Bool, true, false, not, ◌||◌, Option, none, some, List, [], ◌∷◌, ◌++◌, Bytes, codes, eq_bytes,
  is_empty, is_some, take, drop, trim_space, if◌then◌else◌,
}
use mgl03_homekit_bridge.Common.Int.{ℤ, pos, leb_ℤ, eq_ℤ}
use mgl03_homekit_bridge.Common.Table.{lookup, insert, delete}
use mgl03_homekit_bridge.Config.Device.{Device}
use mgl03_homekit_bridge.Config.Mac.{normalize_mac}
use mgl03_homekit_bridge.Openmiio.Types.{Float64, FloatOps, Update, zero_update}

pub record Reading : Type 0 where
  pub temperature : Option Float64
  pub humidity : Option Float64
  pub battery : Option ℤ
  pub updated_at : ℤ

abbrev pub zero_reading : Reading
zero_reading = record { temperature = none; humidity = none; battery = none; updated_at = pos 0 }

-- The field `devices` of a State.
abbrev pub Devices : Type 0
Devices = List (Bytes × Reading)

-- New
abbrev pub new_state : Devices
new_state = []

abbrev pub did_prefix : Bytes
did_prefix = codes "did:"

unfoldable pub identity : Bytes → Bytes → Bytes
identity mac did =
    let mac' = normalize_mac mac in
    let did' = trim_space did in
    if not (is_empty mac') then mac' else if not (is_empty did') then did_prefix ++ did' else []

-- strings.HasPrefix(key, "did:") and TrimPrefix.
unfoldable pub normalize_key : Bytes → Bytes
normalize_key key =
    if eq_bytes (take 4 key) did_prefix
    then did_prefix ++ trim_space (drop 4 key)
    else normalize_mac key

-- The loop of Load over the decoded entries, in the order in which the map gives them.
unfoldable pub load_devices : List (Bytes × Reading) → Devices → Devices
load_devices [] devices = devices
load_devices ((key, reading) ∷ rest) devices =
    load_devices rest (insert (normalize_key key) reading devices)

-- The value that is written: the new one, where the update has one.
abbrev newer {ℓ} : {A : Type ℓ} → Option A → Option A → Option A
newer old none = old
newer old (some v) = some v

-- The reading to start from: the device's own, or one that was kept under its DID, which is moved.
pub record Start : Type 0 where
  pub reading : Reading
  pub devices : Devices
  pub moved : Bool

prior : Bytes → Option Reading → Devices → Start
prior did_key none ds = record { reading = zero_reading; devices = ds; moved = false }
prior did_key (some r) ds = record { reading = r; devices = delete did_key ds; moved = true }

start_from : Update → Option Reading → Devices → Start
start_from u (some r) ds = record { reading = r; devices = ds; moved = false }
start_from u none ds =
    let did_key = did_prefix ++ trim_space u.did in
    if is_empty u.did
    then record { reading = zero_reading; devices = ds; moved = false }
    else prior did_key (lookup did_key ds) ds

unfoldable pub merge_start : Update → Bytes → Devices → Start
unfolding prior start_from
merge_start u key ds = start_from u (lookup key ds) ds

module _ (fl : FloatOps) where
  -- `current != nil && *current == next`
  abbrev same_float : Option Float64 → Float64 → Bool
  same_float none next = false
  same_float (some v) next = fl.eq v next

  -- `next != nil && !sameFloat(current, *next)`
  unfoldable pub float_changes : Option Float64 → Option Float64 → Bool
  float_changes current none = false
  float_changes current (some next) = not (same_float current next)

  unfoldable pub set_float : Option Float64 → Option Float64 → Option Float64
  set_float current next = if float_changes current next then next else current

  unfoldable pub battery_changes : Option ℤ → Option ℤ → Bool
  battery_changes current none = false
  battery_changes none (some next) = true
  battery_changes (some v) (some next) = not (eq_ℤ v next)

  unfoldable pub set_battery : Option ℤ → Option ℤ → Option ℤ
  set_battery current next = if battery_changes current next then next else current

  unfoldable pub reading_changes : Reading → Update → Bool
  reading_changes r u =
      float_changes r.temperature u.temperature
      || (float_changes r.humidity u.humidity || battery_changes r.battery u.battery)

  -- `updated_at` falls back on the wall clock.
  unfoldable pub merge_reading : Reading → Update → ℤ → Reading
  merge_reading r u unix = record {
    temperature = set_float r.temperature u.temperature;
    humidity = set_float r.humidity u.humidity;
    battery = set_battery r.battery u.battery;
    updated_at = if leb_ℤ u.gateway_time (pos 0) then unix else u.gateway_time;
  }

  -- Merge: the new state, and whether it changed.
  unfoldable pub merge : Update → ℤ → Devices → Devices × Bool
  merge u unix ds =
      let key = identity u.mac u.did in
      let start = merge_start u key ds in
      if is_empty key
      then (ds, false)
      else if not (start.moved || reading_changes start.reading u)
      then (start.devices, false)
      else (insert key (merge_reading start.reading u unix) start.devices, true)

-- The first of two readings, if there is one.
unfoldable pub or_else : Option Reading → Option Reading → Option Reading
or_else none b = b
or_else (some a) b = some a

-- The entry of a device in Restore: under its identity, or under its DID.
unfoldable pub find_reading : Device → Devices → Option Reading
unfolding or_else
find_reading d ds =
    let by_did = if is_empty d.did then none else lookup (did_prefix ++ trim_space d.did) ds in
    or_else (lookup (identity d.mac d.did) ds) by_did

restored : Device → Reading → Update
restored d r = record zero_update {
  mac = normalize_mac d.mac;
  did = d.did;
  product_id = d.product_id;
  model = d.model;
  temperature = r.temperature;
  humidity = r.humidity;
  battery = r.battery;
}

restore_reading : Device → Option Reading → Option (Update × ℤ)
restore_reading d none = none
restore_reading d (some r) =
    if is_some r.temperature || (is_some r.humidity || is_some r.battery)
    then some (restored d r, r.updated_at)
    else none

-- Restore: `none` where the Go function returns false.
unfoldable pub restore : Device → Devices → Option (Update × ℤ)
unfolding restored restore_reading
restore d ds = restore_reading d (find_reading d ds)
