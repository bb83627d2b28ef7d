-- ===== src/Examples/Startup.antt =====
-- internal/config/config.go: the validation of a configuration.
use mgl03_homekit_bridge.Common.{
  ℕ, ◌≡◌, [], ◌∷◌, Bytes, codes, ok, refl, trim_space, eq_bytes, to_lower, lower_char,
}
use mgl03_homekit_bridge.Common.Int.{pos}
use mgl03_homekit_bridge.Config.Validate.{
  Settings, normal_settings, normalize_and_validate, unless, settings_error, is_mode, normal_mode,
  validate_devices, device_error, normal_device, default_state_dir, is_seen, key,
}
use mgl03_homekit_bridge.Config.Pin.{validate_pin, strip_pin, all_digits, is_digit, is_listed}
use mgl03_homekit_bridge.Config.Mac.{
  is_hex, is_lower_hex, is_mac, join_pairs, mac_groups, normalize_mac, only_hex,
}
use mgl03_homekit_bridge.Config.Validate.Accepted.{is_ok, value_or}
use mgl03_homekit_bridge.Config.Validate.Filled.{IsFilledIn}
use mgl03_homekit_bridge.Config.Validate.Tests.{is_accepted}
use mgl03_homekit_bridge.Config.Validate.Whole.{normalize_and_validate-IsFilledIn}
use mgl03_homekit_bridge.Config.Validate.Again.{IsNumbering, normalize_and_validate_idem}
use mgl03_homekit_bridge.Examples.Data.{sensor, brush}

-- Sprintf that leaves the number out.
abbrev plain : Bytes → ℕ → Bytes
plain name index = name

-- The default settings with two devices and a port of their own.
abbrev settings : Settings
settings = record {
  bridge_name = codes "Bridge";
  pin = codes "246-81-357";
  port = pos 51000;
  interfaces = [];
  state_dir = codes "state";
  discovery = record { mode = codes " Auto"; window_seconds = pos 60 };
  mqtt = record {
    address = codes "127.0.0.1:1883";
    topic = codes "central/report";
    client_id = codes "bridge";
  };
  devices = sensor ∷ brush ∷ [];
}

normalize_and_validate-IsFilledIn_example :
    let r = normalize_and_validate plain (codes "/data") settings in
    (c' : Settings) × IsFilledIn plain (codes "/data") settings c'
    × (is_ok r ≡ is_accepted c')
    × (value_or c' r ≡ c')
normalize_and_validate-IsFilledIn_example =
    normalize_and_validate-IsFilledIn plain (codes "/data") settings

plain-IsNumbering : IsNumbering plain
unfolding trim_space
plain-IsNumbering i = (refl, refl)

abbrev accepted_settings : Settings
accepted_settings = value_or settings (normalize_and_validate plain (codes "/data") settings)

settings_accepted : normalize_and_validate plain (codes "/data") settings ≡ ok accepted_settings
unfolding normalize_and_validate unless settings_error normal_settings is_mode eq_bytes normal_mode
    to_lower trim_space lower_char validate_pin strip_pin all_digits is_digit is_listed
    validate_devices device_error normal_device is_hex is_lower_hex is_mac join_pairs mac_groups
    normalize_mac only_hex default_state_dir is_seen key
settings_accepted = refl

normalize_and_validate_idem_example :
    normalize_and_validate plain (codes "/data") accepted_settings ≡ ok accepted_settings
normalize_and_validate_idem_example =
    normalize_and_validate_idem plain (codes "/data") settings accepted_settings plain-IsNumbering
      settings_accepted
