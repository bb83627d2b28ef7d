-- ===== src/Examples/Storage.antt =====
-- internal/config, internal/registry and internal/measurements: what is written to files and read again.
use mgl03_homekit_bridge.Common.{
  ℕ, ◌≡◌, ◌⊎◌, refl, ap, inr, true, false, none, some, List, [], ◌∷◌, Bytes, ok, codes, eq_bytes,
  map, is_some, if◌then◌else◌, All,
}
use mgl03_homekit_bridge.Common.Int.{pos}
use mgl03_homekit_bridge.Common.Table.{lookup}
use mgl03_homekit_bridge.Files.{Disk, Faults, Codec, write_json, last_disk, disk_after}
use mgl03_homekit_bridge.Files.Atomic.{IsWhole, line, write_json_lem}
use mgl03_homekit_bridge.Files.Calm.{IsCalm, write_json_calm}
use mgl03_homekit_bridge.Config.Device.{Device}
use mgl03_homekit_bridge.Config.Mac.{only_hex, is_hex}
use mgl03_homekit_bridge.Config.Pin.{decimal8, drawn_pin, is_listed, validate_pin}
use mgl03_homekit_bridge.Config.Validate.{Settings, defaults}
use mgl03_homekit_bridge.Config.Load.{load_or_create}
use mgl03_homekit_bridge.Config.Load.Again.{load_or_create_again}
use mgl03_homekit_bridge.Registry.{with_normal_mac, load_registry, save_registry}
use mgl03_homekit_bridge.Registry.RoundTrip.{load_registry-save_registry}
use mgl03_homekit_bridge.Measurements.State.{Devices, merge, restore}
use mgl03_homekit_bridge.Measurements.File.{StateFile, current_version, load_state, save_state}
use mgl03_homekit_bridge.Measurements.File.Stored.{IsStored, merge-IsStored}
use mgl03_homekit_bridge.Measurements.File.Restart.{restore-load_state}
use mgl03_homekit_bridge.Examples.Data.{sensor, warm, whole_floats}

abbrev path : Bytes
path = codes "p"

abbrev temp : Bytes
temp = codes "p.tmp"

abbrev before : Disk
before = (path, codes "old") ∷ []

-- Nothing fails; the write arrives in two parts.
abbrev calm : Faults
calm = record {
  mkdir = false;
  create = false;
  chmod = false;
  parts = 1 ∷ 2 ∷ [];
  stops = none;
  close = false;
  rename = false;
  remove = false;
}

-- The write stops after the first byte.
abbrev full_disk : Faults
full_disk = record calm { stops = some 1 }

calm-IsCalm : IsCalm calm
calm-IsCalm = record {
  mkdir = refl;
  create = refl;
  chmod = refl;
  stops = refl;
  close = refl;
  rename = refl;
}

temp_differs : eq_bytes temp path ≡ false
unfolding eq_bytes
temp_differs = refl

temp_free : lookup temp before ≡ none
unfolding lookup eq_bytes
temp_free = refl

write_json_lem_example :
    let o = write_json full_disk temp path (some (codes "{}")) before in
    All (IsWhole temp path (line (codes "{}")) before) o.0
    × (lookup path (disk_after before o)
        ≡ (if is_some o.1 then lookup path before else some (line (codes "{}"))))
    × ((full_disk.remove ≡ true) ⊎ (lookup temp (disk_after before o) ≡ none))
write_json_lem_example =
    write_json_lem full_disk temp path (codes "{}") before temp_differs temp_free

-- A text without its last character.
abbrev but_last : Bytes → Bytes
but_last [] = []
but_last (c ∷ []) = []
but_last (c ∷ d ∷ s) = c ∷ but_last (d ∷ s)

but_last-line : (s : Bytes) → but_last (line s) ≡ s
but_last-line [] = refl
but_last-line (c ∷ []) = refl
but_last-line (c ∷ d ∷ s) = ap (λ (t : Bytes). c ∷ t) (but_last-line (d ∷ s))

abbrev plain : Bytes → ℕ → Bytes
plain name index = name

-- Default settings are kept as their pairing code.
abbrev settings_codec : Codec Settings
settings_codec = record {
  encode = λ c. some c.pin;
  decode = λ s. some (defaults (codes "d") (but_last s));
}

load_or_create_again_example :
    let first =
      load_or_create plain settings_codec (codes "d") calm false temp path (24681357 ∷ []) [] in
    let later = last_disk [] first.1 in
    let second = load_or_create plain settings_codec (codes "d") calm false temp path [] later in
    (pin : Bytes) × (validate_pin pin ≡ none)
    × (first.0 ≡ ok (defaults (codes "d") pin, true))
    × (second ≡ (ok (defaults (codes "d") pin, false), []))
unfolding is_listed eq_bytes lookup drawn_pin decimal8 defaults
load_or_create_again_example =
    load_or_create_again plain settings_codec (codes "d") calm calm temp path (24681357 ∷ []) [] []
      refl refl refl calm-IsCalm refl
      (λ pin valid.
        (pin, refl, ap (λ (s : Bytes). some (defaults (codes "d") s)) (but_last-line pin)))

-- A list of devices is kept as its first name.
abbrev devices_codec : Codec (List Device)
devices_codec = record {
  encode = λ ds. some (codes "[]");
  decode = λ s. some (map with_normal_mac (sensor ∷ []));
}

load_registry-save_registry_example :
    let saved = map with_normal_mac (sensor ∷ []) in
    let o = save_registry devices_codec full_disk temp path saved before in
    load_registry devices_codec false path (disk_after before o)
    ≡ (if is_some o.1 then load_registry devices_codec false path before else ok saved)
load_registry-save_registry_example =
    load_registry-save_registry devices_codec full_disk temp path (codes "[]") (sensor ∷ []) before
      temp_differs temp_free refl refl

-- The cache after one report.
abbrev measured : Devices
measured = (merge whole_floats warm (pos 5) []).0

merge-IsStored_example : IsStored (merge whole_floats warm (pos 5) []).0
unfolding only_hex is_hex
merge-IsStored_example = merge-IsStored whole_floats warm (pos 5) [] (inr refl) tt

abbrev state_codec : Codec StateFile
state_codec = record {
  encode = λ f. some (codes "{}");
  decode = λ s. some (record { version = current_version; devices = measured });
}

measured-IsStored : IsStored measured
unfolding only_hex is_hex
measured-IsStored = merge-IsStored whole_floats warm (pos 5) [] (inr refl) tt

restore-load_state_example :
    (found : Devices) × (load_state state_codec false path
        (disk_after before (save_state state_codec calm temp path measured before))
      ≡ ok found)
    × ((device : Device) → restore device found ≡ restore device measured)
restore-load_state_example =
    restore-load_state state_codec calm temp path (codes "{}") measured measured before temp_differs
      temp_free refl refl measured-IsStored (λ k. refl)
      (unfold save_state in write_json_calm calm temp path (codes "{}") before calm-IsCalm)
