-- ===== src/Config/Validate.antt =====
-- config.go: Defaults and NormalizeAndValidate. On an error the callers drop the configuration, so only
-- the error is kept. `dir` is filepath.Dir of the file's path, and `numbered` is Sprintf of a text and a
-- number.
pub mod Accepted
pub mod Complete
pub mod Filled
pub mod Tests
pub mod Whole
pub mod Again
pub mod Usable
use mgl03_homekit_bridge.Common.{
  ℕ, suc, ◌+◌, Bool, true, false, not, ◌&&◌, ◌||◌, Option, none, some, List, [], ◌∷◌, ◌++◌, Bytes,
  Result, ok, err, ◌>>=◌, codes, eq_bytes, is_empty, trim_space, to_lower, ltb, ◌==◌, contains,
  if◌then◌else◌,
}
use mgl03_homekit_bridge.Common.Int.{ℤ, pos, ltb_ℤ, eq_ℤ}
use mgl03_homekit_bridge.Config.Device.{Device}
use mgl03_homekit_bridge.Config.Mac.{normalize_mac, is_mac}
use mgl03_homekit_bridge.Config.Pin.{PinError, validate_pin, strip_pin}

pub record MqttSettings : Type 0 where
  pub address : Bytes
  pub topic : Bytes
  pub client_id : Bytes

pub record Discovery : Type 0 where
  pub mode : Bytes
  pub window_seconds : ℤ

pub record Settings : Type 0 where
  pub bridge_name : Bytes
  pub pin : Bytes
  pub port : ℤ
  pub interfaces : List Bytes
  pub state_dir : Bytes
  pub discovery : Discovery
  pub mqtt : MqttSettings
  pub devices : List Device

pub data ConfigError : Type 0 where
  bad_port bad_mode bad_window : ConfigError
  bad_pin : PinError → ConfigError
  missing_identity invalid_mac reserved_aid : ℕ → ConfigError
  duplicate_device : Bytes → ConfigError
  duplicate_aid : ℕ → ConfigError

-- `key`
unfoldable pub key : Device → Bytes
key d = if is_empty d.mac then codes "did:" ++ d.did else d.mac

unfoldable pub is_seen : Bytes → List Bytes → Bool
is_seen k [] = false
is_seen k (s ∷ ss) = eq_bytes k s || is_seen k ss

-- The tests of one device, number `i`, once it is normal.
unfoldable pub device_error : ℕ → List Bytes → List ℕ → Device → Option ConfigError
device_error i seen seen_aid d =
    if is_empty d.mac && is_empty d.did
    then some (missing_identity i)
    else if not (is_empty d.mac) && not (is_mac d.mac)
    then some (invalid_mac i)
    else if is_seen (key d) seen
    then some (duplicate_device (key d))
    else if d.aid == 1
    then some (reserved_aid i)
    else if ltb 0 d.aid && contains d.aid seen_aid
    then some (duplicate_aid d.aid)
    else none

abbrev pub or_default : Bytes → Bytes → Bytes
or_default default s = if is_empty (trim_space s) then default else s

-- The directory of the state, where none is set.
unfoldable pub default_state_dir : Bytes → Bytes
default_state_dir dir = if eq_bytes dir (codes ".") || is_empty dir then codes "state" else dir

-- The mode after trimming and lower-casing; an empty one is "first".
unfoldable pub normal_mode : Bytes → Bytes
normal_mode mode = let m = to_lower (trim_space mode) in if is_empty m then codes "first" else m

unfoldable pub is_mode : Bytes → Bool
is_mode m = eq_bytes m (codes "first") || (eq_bytes m (codes "auto") || eq_bytes m (codes "manual"))

abbrev pub or_number : ℤ → ℤ → ℤ
or_number default n = if eq_ℤ n (pos 0) then default else n

unfoldable pub normal_settings : Bytes → Settings → Settings
normal_settings dir c = record {
  bridge_name = or_default (codes "MGL03 Bluetooth Bridge") c.bridge_name;
  pin = strip_pin c.pin;
  port = or_number (pos 51826) c.port;
  interfaces = c.interfaces;
  state_dir = or_default (default_state_dir dir) c.state_dir;
  discovery = record {
    mode = normal_mode c.discovery.mode;
    window_seconds = or_number (pos 30) c.discovery.window_seconds;
  };
  mqtt = record {
    address = or_default (codes "127.0.0.1:1883") c.mqtt.address;
    topic = or_default (codes "central/report") c.mqtt.topic;
    client_id = or_default (codes "mgl03-homekit-bridge") c.mqtt.client_id;
  };
  devices = c.devices;
}

-- The tests before the loop over the devices, in their order.
unfoldable pub settings_error : Settings → Option ConfigError
settings_error c =
    if ltb_ℤ c.port (pos 1) || ltb_ℤ (pos 65535) c.port
    then some bad_port
    else if not (is_mode c.discovery.mode)
    then some bad_mode
    else if ltb_ℤ c.discovery.window_seconds (pos 5) || ltb_ℤ (pos 600) c.discovery.window_seconds
    then some bad_window
    else elim (validate_pin c.pin) [ some e ↦ some (bad_pin e) | none ↦ none ]

unfoldable pub unless {ℓ} :
    {A : Type ℓ} → Option ConfigError → Result ConfigError A → Result ConfigError A
unless (some e) more = err e
unless none more = more

module _ (numbered : Bytes → ℕ → Bytes) where
  unfoldable pub normal_device : ℕ → Device → Device
  normal_device i d = record d {
    name =
        if is_empty (trim_space d.name)
        then numbered (codes "Bluetooth Device") (i + 1)
        else trim_space d.name;
    mac = normalize_mac d.mac;
    did = trim_space d.did;
  }

  -- The loop over the devices, from number `i` on.
  unfoldable pub validate_devices :
      ℕ → List Bytes → List ℕ → List Device → Result ConfigError (List Device)
  validate_devices i seen seen_aid [] = ok []
  validate_devices i seen seen_aid (d ∷ ds) =
      let d' = normal_device i d in
      let aids = if ltb 0 d'.aid then d'.aid ∷ seen_aid else seen_aid in
      let rest = validate_devices (suc i) (key d' ∷ seen) aids ds in
      unless (device_error i seen seen_aid d') (rest >>= λ ds'. ok (d' ∷ ds'))

  unfoldable pub normalize_and_validate : Bytes → Settings → Result ConfigError Settings
  normalize_and_validate dir c =
      let c' = normal_settings dir c in
      unless (settings_error c')
        (validate_devices 0 [] [] c'.devices >>= λ ds. ok (record c' { devices = ds }))

-- Defaults, given what generatePin returned.
unfoldable pub defaults : Bytes → Bytes → Settings
defaults dir pin = record {
  bridge_name = codes "MGL03 Bluetooth Bridge";
  pin = pin;
  port = pos 51826;
  interfaces = [];
  state_dir = default_state_dir dir;
  discovery = record { mode = codes "auto"; window_seconds = pos 30 };
  mqtt = record {
    address = codes "127.0.0.1:1883";
    topic = codes "central/report";
    client_id = codes "mgl03-homekit-bridge";
  };
  devices = [];
}
