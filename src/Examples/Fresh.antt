-- ===== src/Examples/Fresh.antt =====
-- The first two starts of a bridge that is new.
use mgl03_homekit_bridge.Common.{
  ℕ, ◌==◌, ◌≤◌, ◌<◌, ◌≡◌, refl, ap, sym, ◌∙◌, Bool, true, false, none, some, List, [], ◌∷◌, Bytes,
  ok, codes, eq_bytes, is_empty, length, if◌then◌else◌, lower_char, to_lower, trim_space, arith,
}
use mgl03_homekit_bridge.Common.Int.{pos, ltb_ℤ}
use mgl03_homekit_bridge.Common.Table.{lookup, insert, delete}
use mgl03_homekit_bridge.Files.{
  Disk, Faults, read_file, last_disk, write_json, replace_file, write_temp, rename_temp,
  remove_temp,
}
use mgl03_homekit_bridge.Files.Atomic.{line}
use mgl03_homekit_bridge.Files.Calm.{IsCalm}
use mgl03_homekit_bridge.Config.Device.{Device}
use mgl03_homekit_bridge.Config.Mac.{normalize_mac, only_hex, is_hex, join_pairs}
use mgl03_homekit_bridge.Config.Pin.{
  validate_pin, generate_pin, drawn_pin, decimal8, is_listed, is_digit, all_digits, strip_pin,
}
use mgl03_homekit_bridge.Config.Validate.{
  Settings, defaults, normalize_and_validate, normal_settings, settings_error, unless,
  validate_devices, default_state_dir, normal_mode, is_mode,
}
use mgl03_homekit_bridge.Config.Load.{Loaded, load_or_create, started, create_with, wrote}
use mgl03_homekit_bridge.Registry.{load_registry}
use mgl03_homekit_bridge.App.Merge.{merge_devices, merge_loop, find_device}
use mgl03_homekit_bridge.App.Prepare.{prepare_devices, prepare_loop, append_device_with_aid}
use mgl03_homekit_bridge.App.Discover.{
  report, discover_devices, discover_loop, on_event, on_report, enroll,
}
use mgl03_homekit_bridge.Openmiio.Products.{supported_product, lookup_product}
use mgl03_homekit_bridge.Openmiio.Dedup.{
  accept, classify, frame_key, classify_known, new_deduplicator,
}
use mgl03_homekit_bridge.App.Updates.{supported_discovery_update}
use mgl03_homekit_bridge.App.Start.{Started, assemble}
use mgl03_homekit_bridge.App.Run.{Codecs, World, serve_from, start}
use mgl03_homekit_bridge.App.Run.Saved.{enroll_saved-calm, start_with-loaded}
use mgl03_homekit_bridge.App.Run.Whole.{start-loaded, start_again}
use mgl03_homekit_bridge.Bridge.Accessory.{Accessory}
use mgl03_homekit_bridge.App.Start.Exposed.{count}
use mgl03_homekit_bridge.App.Server.{Host, homekit_server}
use mgl03_homekit_bridge.App.Server.Ready.{run-start, run-server}
use mgl03_homekit_bridge.Examples.Data.{warm}

abbrev plain : Bytes → ℕ → Bytes
plain name index = name

abbrev kept : (Device → Device → Bool) → List Device → List Device
kept less ds = ds

abbrev joined : Bytes → Bytes → Bytes
joined dir name = name

abbrev calm : Faults
calm = record {
  mkdir = false;
  create = false;
  chmod = false;
  parts = [];
  stops = none;
  close = false;
  rename = false;
  remove = false;
}

calm-IsCalm : IsCalm calm
calm-IsCalm = record {
  mkdir = refl;
  create = refl;
  chmod = refl;
  stops = refl;
  close = refl;
  rename = refl;
}

abbrev first_pin : Bytes
first_pin = codes "24681357"

abbrev settings : Settings
settings = defaults (codes "d") first_pin

-- A text without its last byte.
without_last : Bytes → Bytes
without_last [] = []
without_last (c ∷ s) = if is_empty s then [] else c ∷ without_last s

without_last-line : (s : Bytes) → without_last (line s) ≡ s
unfolding without_last
without_last-line [] = refl
without_last-line (c ∷ []) = refl
without_last-line (c ∷ d ∷ s) = ap (λ (r : Bytes). c ∷ r) (without_last-line (d ∷ s))

-- A sensor reports during the first start.
abbrev reports : Started
reports = assemble plain kept settings [] (report (pos 5) warm ∷ []) []

-- The configuration is written as its pairing code, and the registry as "{}".
abbrev codecs : Codecs
codecs = record {
  settings = record {
    encode = λ c. some c.pin;
    decode = λ s. some (defaults (codes "d") (without_last s));
  };
  registry = record { encode = λ ds. some (codes "{}"); decode = λ s. some reports.enrolled };
  cache = record { encode = λ f. none; decode = λ s. none };
}

abbrev world : World
world = record {
  config_faults = calm;
  config_temp = codes "c.tmp";
  config_broken = false;
  registry_faults = calm;
  registry_temp = codes "r.tmp";
  registry_broken = false;
  cache_broken = false;
  draws = 24681357 ∷ [];
  events = report (pos 5) warm ∷ [];
}

abbrev loaded : Loaded
loaded =
    load_or_create plain codecs.settings (codes "d") calm false (codes "c.tmp") (codes "c")
      world.draws []

creates : loaded.0 ≡ ok (settings, true)
unfolding load_or_create started read_file create_with wrote generate_pin drawn_pin decimal8
    validate_pin is_listed is_digit all_digits normalize_and_validate normal_settings settings_error
    unless validate_devices default_state_dir normal_mode is_mode strip_pin write_json replace_file
    write_temp rename_temp defaults lookup eq_bytes trim_space to_lower lower_char
creates = refl

abbrev made_disk : Disk
made_disk = last_disk [] loaded.1

nothing_saved : load_registry codecs.registry false (codes "devices.json") made_disk ≡ ok []
unfolding load_or_create started read_file create_with wrote generate_pin drawn_pin decimal8
    validate_pin is_listed is_digit all_digits normalize_and_validate normal_settings settings_error
    unless validate_devices default_state_dir normal_mode is_mode strip_pin write_json replace_file
    write_temp rename_temp remove_temp defaults lookup insert delete eq_bytes trim_space to_lower
    lower_char load_registry
nothing_saved = refl

name_free : lookup (codes "r.tmp") made_disk ≡ none
unfolding load_or_create started read_file create_with wrote generate_pin drawn_pin decimal8
    validate_pin is_listed is_digit all_digits normalize_and_validate normal_settings settings_error
    unless validate_devices default_state_dir normal_mode is_mode strip_pin write_json replace_file
    write_temp rename_temp remove_temp defaults lookup insert delete eq_bytes trim_space to_lower
    lower_char
name_free = refl

-- The first start succeeds.
first_disk : Disk
first_disk =
    (enroll_saved-calm plain kept joined codecs world settings [] (codes "{}") made_disk calm-IsCalm
      refl).0

abbrev first : Started
first = serve_from plain kept joined codecs world settings [] first_disk

first_succeeds : (start plain kept joined codecs (codes "c") (codes "d") world []).0 ≡ ok first
unfolding first_disk
first_succeeds =
    rw
      (
        start-loaded plain kept joined codecs (codes "c") (codes "d") world settings true []
            creates,
        start_with-loaded plain kept joined codecs world settings [] made_disk nothing_saved,
      )
      (enroll_saved-calm plain kept joined codecs world settings [] (codes "{}") made_disk
        calm-IsCalm refl).1

first_enrolled : first.enrolled ≡ reports.enrolled
unfolding serve_from assemble
first_enrolled = refl

first_saves : first.must_save ≡ true
unfolding serve_from assemble merge_devices merge_loop prepare_devices prepare_loop discover_devices
    discover_loop on_event on_report enroll defaults eq_bytes supported_discovery_update
    supported_product lookup_product accept classify frame_key to_lower lower_char classify_known
    lookup new_deduplicator find_device append_device_with_aid
first_saves = refl

some_enrolled : 0 < length reports.enrolled
unfolding serve_from assemble merge_devices merge_loop prepare_devices prepare_loop discover_devices
    discover_loop on_event on_report enroll defaults eq_bytes supported_discovery_update
    supported_product lookup_product accept classify frame_key to_lower lower_char classify_known
    lookup new_deduplicator find_device append_device_with_aid
some_enrolled = omega arith

normal_report : normalize_mac warm.mac ≡ warm.mac
unfolding normalize_mac only_hex is_hex join_pairs to_lower lower_char
normal_report = refl

decodes :
    (pin text : Bytes)
    → validate_pin pin ≡ none
    → some (defaults (codes "d") pin).pin ≡ some text
    → some (defaults (codes "d") (without_last (line text))) ≡ some (defaults (codes "d") pin)
unfolding defaults
decodes pin text valid e =
    let same : pin ≡ text = cc e in
    ap (λ (p : Bytes). some (defaults (codes "d") p)) (without_last-line text ∙ sym same)

start_again_example :
    let d' = (start plain kept joined codecs (codes "c") (codes "d") world []).1 in
    let later = record world { events = []; draws = [] } in
    (s' : Started) × ((start plain kept joined codecs (codes "c") (codes "d") later d').0 ≡ ok s')
    × (s'.devices ≡ first.devices)
    × (s'.exposed ≡ first.exposed)
unfolding eq_bytes lookup merge_devices merge_loop defaults
start_again_example =
    start_again plain kept joined codecs (codes "c") (codes "d") world
      (record world { events = []; draws = [] }) settings true [] first (codes "{}") [] refl refl
      decodes creates refl refl refl name_free nothing_saved first_succeeds first_saves
      (normal_report, tt) refl (rw first_enrolled refl) (omega arith) (omega arith)
      (rw first_enrolled some_enrolled) refl refl calm-IsCalm

-- Everything works, until the program is stopped.
abbrev host : Host
host = record {
  makes_directory = true;
  refuses = λ accessories. false;
  fails = true;
  cancelled = true;
}

run-server_example :
    let server = homekit_server settings first in
    (validate_pin server.pin ≡ none)
    × (ltb_ℤ server.port (pos 1) ≡ false)
    × (ltb_ℤ (pos 65535) server.port ≡ false)
    × (count (λ a. a.id == 2) server.accessories ≤ 1)
    × (bridge : Accessory) × (others : List Accessory) × (bridge.id ≡ 1)
    × (server.accessories ≡ bridge ∷ others)
unfolding merge_devices merge_loop defaults
run-server_example =
    run-server plain kept joined codecs (codes "c") (codes "d") world host settings true []
      (homekit_server settings first) 2 [] creates nothing_saved (λ less p ds. refl) (omega arith)
      (omega arith)
      (run-start plain kept joined codecs (codes "c") (codes "d") world host settings true first []
        creates first_succeeds refl refl)
