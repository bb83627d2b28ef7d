-- ===== src/Config/Validate/Complete.antt =====
-- What a configuration is like that NormalizeAndValidate accepts, and that it accepts the default one.
use mgl03_homekit_bridge.Common.{
  ℕ, ◌≡◌, refl, ap, ◌∙◌, inl, inr, Bool, not, ◌&&◌, Option, none, some, List, [], Bytes, Result, ok,
  err, ◌>>=◌, codes, eq_bytes, is_empty, trim_space, to_lower, lower_char, is_some, if◌then◌else◌,
  arith, Option-cases,
}
use mgl03_homekit_bridge.Common.Int.{pos, ltb_ℤ}
use mgl03_homekit_bridge.Config.Device.{Device}
use mgl03_homekit_bridge.Config.Pin.{validate_pin, strip_pin}
use mgl03_homekit_bridge.Config.Pin.Valid.{strip_pin_digits}
use mgl03_homekit_bridge.Config.Validate.{
  Settings, ConfigError, default_state_dir, normal_mode, is_mode, normal_settings, settings_error,
  unless, validate_devices, normalize_and_validate, defaults,
}
use mgl03_homekit_bridge.Config.Validate.Accepted.{
  are_valid, is_ok, value_or, normal_devices, validate_devices_lem,
}

pub strip_valid_pin : (pin : Bytes) → validate_pin pin ≡ none → strip_pin pin ≡ pin
strip_valid_pin pin h = strip_pin_digits pin (unfold validate_pin in ground arith)

same_default : (s : Bytes) → (if is_empty (trim_space s) then s else s) ≡ s
same_default s = ground arith

pub auto_mode : normal_mode (codes "auto") ≡ codes "auto"
unfolding normal_mode to_lower lower_char trim_space
auto_mode = refl

normal-defaults :
    (dir pin : Bytes)
    → validate_pin pin ≡ none
    → normal_settings dir (defaults dir pin) ≡ defaults dir pin
unfolding normal_settings defaults trim_space
normal-defaults dir pin h =
    rw (strip_valid_pin pin h, auto_mode, same_default (default_state_dir dir)) refl

-- The default configuration with a valid pairing code is accepted as it stands.
pub normalize_and_validate-defaults :
    (numbered : Bytes → ℕ → Bytes) (dir pin : Bytes)
    → validate_pin pin ≡ none
    → normalize_and_validate numbered dir (defaults dir pin) ≡ ok (defaults dir pin)
unfolding normalize_and_validate
normalize_and_validate-defaults numbered dir pin h =
    rw (normal-defaults dir pin h)
      (unfold settings_error unless validate_devices defaults is_mode eq_bytes in rw h refl)

-- The tests before the devices, as one.
unfoldable pub is_complete : Settings → Bool
is_complete c =
    not (ltb_ℤ c.port (pos 1))
    && (not (ltb_ℤ (pos 65535) c.port)
        && (is_mode c.discovery.mode
            && (not (ltb_ℤ c.discovery.window_seconds (pos 5))
                && (not (ltb_ℤ (pos 600) c.discovery.window_seconds)
                    && not (is_some (validate_pin c.pin))))))

settings_error_lem : (c : Settings) → is_some (settings_error c) ≡ not (is_complete c)
unfolding settings_error is_complete
settings_error_lem c = elim (Option-cases (validate_pin c.pin)) [
  | inl e ↦ rw e (ground arith)
  | inr (x, e) ↦ rw e (ground arith)
]

unless_devices :
    (e : Option ConfigError) (c : Settings) (r : Result ConfigError (List Device))
    (ns : List Device)
    → value_or ns r ≡ ns
    → (is_ok (unless e (r >>= λ ds. ok (record c { devices = ds }))) ≡ not (is_some e) && is_ok r)
      × (value_or
            (record c { devices = ns })
            (unless e (r >>= λ ds. ok (record c { devices = ds })))
          ≡ record c { devices = ns })
unfolding unless
unless_devices (some e) c r ns h = (refl, refl)
unless_devices none c (ok ds) ns h = (refl, ap (λ (l : List Device). record c { devices = l }) h)
unless_devices none c (err e) ns h = (refl, refl)

-- A configuration is accepted exactly if, with the defaults filled in, its port is 1 to 65535, its mode is
-- one of the three, its window is 5 to 600 seconds, its pairing code is valid, and its normal devices are
-- valid; it comes out with the defaults filled in and its devices normal.
pub normalize_and_validate_lem :
    (numbered : Bytes → ℕ → Bytes) (dir : Bytes) (c : Settings)
    → let c' = normal_settings dir c in
      let ns = normal_devices numbered 0 c.devices in
      let r = normalize_and_validate numbered dir c in
      (is_ok r ≡ is_complete c' && are_valid ns)
      × (value_or (record c' { devices = ns }) r ≡ record c' { devices = ns })
unfolding normalize_and_validate
normalize_and_validate_lem numbered dir c =
    let c' = normal_settings dir c in
    let ns = normal_devices numbered 0 c.devices in
    let (good, same) = validate_devices_lem numbered c.devices in
    let (holds, value) =
      unless_devices (settings_error c') c' (validate_devices numbered 0 [] [] c.devices) ns same in
    (
      unfold normal_settings in
          (holds ∙ rw (settings_error_lem c', good) (not_twice (is_complete c') (are_valid ns))),
      unfold normal_settings in value,
    )
  where
    not_twice : (a b : Bool) → not (not a) && b ≡ a && b
    not_twice a b = ground arith
