-- ===== src/Config/Validate/Usable.antt =====
-- What every device of an accepted configuration is like.
use mgl03_homekit_bridge.Common.{
  ℕ, suc, ◌≡◌, ◌&&◌, false, none, if◌then◌else◌, List, [], ◌∷◌, Bytes, ok, ◌>>=◌, is_empty, ltb,
  All, arith,
}
use mgl03_homekit_bridge.Common.Int.{pos, ltb_ℤ}
use mgl03_homekit_bridge.Config.Pin.{validate_pin}
use mgl03_homekit_bridge.Config.Device.{Device}
use mgl03_homekit_bridge.Config.Mac.{normalize_mac}
use mgl03_homekit_bridge.Config.Mac.Normal.{normalize_mac_idem}
use mgl03_homekit_bridge.Config.Validate.{
  Settings, key, device_error, normal_settings, settings_error, normal_device, validate_devices,
  normalize_and_validate,
}
use mgl03_homekit_bridge.Config.Validate.Again.{
  settings_error-none, unless_ok, accepted_parts, then_settings,
}

-- Its MAC is normal, and it has a MAC or a DID.
pub record IsUsable (d : Device) : Type 0 where
  pub normal : normalize_mac d.mac ≡ d.mac
  pub keyed : is_empty d.mac && is_empty d.did ≡ false

module _ (numbered : Bytes → ℕ → Bytes) where
  normal_device-IsUsable :
      (i : ℕ) (seen : List Bytes) (aids : List ℕ) (d : Device)
      → device_error i seen aids (normal_device numbered i d) ≡ none
      → IsUsable (normal_device numbered i d)
  unfolding normal_device device_error
  normal_device-IsUsable i seen aids d h = record {
    normal = normalize_mac_idem d.mac;
    keyed = ground (arith, h);
  }

  validate_devices-IsUsable :
      (i : ℕ) (seen : List Bytes) (aids : List ℕ) (ds out : List Device)
      → validate_devices numbered i seen aids ds ≡ ok out
      → All IsUsable out
  unfolding validate_devices
  validate_devices-IsUsable i seen aids [] out h = let empty : [] ≡ out = cc h in rw (← empty) tt
  validate_devices-IsUsable i seen aids (d ∷ ds) out h =
      let d' = normal_device numbered i d in
      let used = if ltb 0 d'.aid then d'.aid ∷ aids else aids in
      let (fine, rest, accepted, is) = accepted_parts numbered i seen aids d ds out h in
      rw is (
        normal_device-IsUsable i seen aids d fine,
        validate_devices-IsUsable (suc i) (key d' ∷ seen) used ds rest accepted,
      )

  pub normalize_and_validate-IsUsable :
      (dir : Bytes) (c c' : Settings)
      → normalize_and_validate numbered dir c ≡ ok c'
      → All IsUsable c'.devices
  unfolding normalize_and_validate
  normalize_and_validate-IsUsable dir c c' h =
      let s = normal_settings dir c in
      let r = validate_devices numbered 0 [] [] s.devices in
      let (fine, more) =
        unless_ok (settings_error s) (r >>= λ ds. ok (record s { devices = ds })) h in
      let (ds, accepted, is) = then_settings s r more in
      rw is (validate_devices-IsUsable 0 [] [] s.devices ds accepted)

  -- The port and the pairing code of an accepted configuration.
  pub normalize_and_validate-bounds :
      (dir : Bytes) (c c' : Settings)
      → normalize_and_validate numbered dir c ≡ ok c'
      → (ltb_ℤ c'.port (pos 1) ≡ false)
        × (ltb_ℤ (pos 65535) c'.port ≡ false)
        × (validate_pin c'.pin ≡ none)
  unfolding normalize_and_validate
  normalize_and_validate-bounds dir c c' h =
      let s = normal_settings dir c in
      let r = validate_devices numbered 0 [] [] s.devices in
      let (fine, more) =
        unless_ok (settings_error s) (r >>= λ ds. ok (record s { devices = ds })) h in
      let (ds, accepted, is) = then_settings s r more in
      let (low, high, mode, pin) = settings_error-none s fine in rw is (low, high, pin)
