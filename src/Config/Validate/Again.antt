-- ===== src/Config/Validate/Again.antt =====
-- What NormalizeAndValidate accepts it leaves alone the next time.
use mgl03_homekit_bridge.Common.{
  ℕ, suc, ◌+◌, ◌≡◌, refl, inl, inr, true, false, Option, none, some, List, [], ◌∷◌, Bytes, Result,
  ok, err, ◌>>=◌, codes, eq_bytes, eq_bytes_iff, is_empty, trim_space, trim_space_idem, to_lower,
  lower_char, ltb, if◌then◌else◌, arith, Bool-cases, Option-cases,
}
use mgl03_homekit_bridge.Common.Int.{ℤ, pos, ltb_ℤ}
use mgl03_homekit_bridge.Config.Device.{Device}
use mgl03_homekit_bridge.Config.Mac.Normal.{normalize_mac_idem}
use mgl03_homekit_bridge.Config.Pin.{validate_pin, strip_pin}
use mgl03_homekit_bridge.Config.Validate.{
  Settings, ConfigError, key, device_error, or_default, or_number, default_state_dir, normal_mode,
  is_mode, normal_settings, settings_error, unless, normal_device, validate_devices,
  normalize_and_validate,
}
use mgl03_homekit_bridge.Config.Validate.Complete.{strip_valid_pin, auto_mode}

-- A result that is ok has no error before it.
pub unless_ok {ℓ} :
    {A : Type ℓ} (e : Option ConfigError) (r : Result ConfigError A) {a : A}
    → unless e r ≡ ok a
    → (e ≡ none) × (r ≡ ok a)
unfolding unless
unless_ok none r h = (refl, h)
unless_ok (some e) r h = cc

-- `Sprintf("%s %d", …)` gives a text that does not begin or end with a space.
abbrev pub IsNumbering : (Bytes → ℕ → Bytes) → Type 0
IsNumbering numbered =
    (i : ℕ)
    → let name = numbered (codes "Bluetooth Device") i in
      (trim_space name ≡ name) × (is_empty name ≡ false)

module _ (numbered : Bytes → ℕ → Bytes) where
  normal_device_idem :
      (i : ℕ) (d : Device)
      → IsNumbering numbered
      → normal_device numbered i (normal_device numbered i d) ≡ normal_device numbered i d
  unfolding normal_device
  normal_device_idem i d h = elim (Bool-cases (is_empty (trim_space d.name))) [
    | inl blank ↦
        let (same, full) = h (i + 1) in
        rw (blank, same, full, normalize_mac_idem d.mac, trim_space_idem d.did) refl
    | inr named ↦
        rw (named, trim_space_idem d.name, named, normalize_mac_idem d.mac, trim_space_idem d.did)
          refl
  ]

  -- What the loop does with the rest of the list, once its first device is accepted.
  then_first :
      (d : Device) (r : Result ConfigError (List Device)) {out : List Device}
      → (r >>= λ ds. ok (d ∷ ds)) ≡ ok out
      → (rest : List Device) × (r ≡ ok rest) × (out ≡ d ∷ rest)
  then_first d (ok rest) h = (rest, refl, cc h)
  then_first d (err e) h = absurd (cc h)

  -- A list that the loop accepts: its first device and the others.
  pub accepted_parts :
      (i : ℕ) (seen : List Bytes) (aids : List ℕ) (d : Device) (ds out : List Device)
      → validate_devices numbered i seen aids (d ∷ ds) ≡ ok out
      → let d' = normal_device numbered i d in
        let used = if ltb 0 d'.aid then d'.aid ∷ aids else aids in
        (device_error i seen aids d' ≡ none)
        × (rest : List Device) × (validate_devices numbered (suc i) (key d' ∷ seen) used ds
            ≡ ok rest)
        × (out ≡ d' ∷ rest)
  unfolding validate_devices
  accepted_parts i seen aids d ds out h =
      let d' = normal_device numbered i d in
      let used = if ltb 0 d'.aid then d'.aid ∷ aids else aids in
      let r = validate_devices numbered (suc i) (key d' ∷ seen) used ds in
      let (fine, more) = unless_ok (device_error i seen aids d') (r >>= λ rs. ok (d' ∷ rs)) h in
      let (rest, accepted, is) = then_first d' r more in (fine, rest, accepted, is)

  -- The loop leaves alone what it accepted.
  validate_devices_again :
      (i : ℕ) (seen : List Bytes) (aids : List ℕ) (ds out : List Device)
      → IsNumbering numbered
      → validate_devices numbered i seen aids ds ≡ ok out
      → validate_devices numbered i seen aids out ≡ ok out
  unfolding validate_devices
  validate_devices_again i seen aids [] out n h = let empty : [] ≡ out = cc h in rw (← empty) refl
  validate_devices_again i seen aids (d ∷ ds) out n h =
      let d' = normal_device numbered i d in
      let used = if ltb 0 d'.aid then d'.aid ∷ aids else aids in
      let (fine, rest, accepted, is) = accepted_parts i seen aids d ds out h in
      let later = validate_devices_again (suc i) (key d' ∷ seen) used ds rest n accepted in
      rw (is, normal_device_idem i d n, fine, later) (unfold unless in refl)

or_default_idem : (t s : Bytes) → or_default t (or_default t s) ≡ or_default t s
or_default_idem t s = elim (Bool-cases (is_empty (trim_space s))) [
  | inl blank ↦ rw blank (ground arith)
  | inr full ↦ rw (full, full) refl
]

or_number_idem : (t n : ℤ) → or_number t (or_number t n) ≡ or_number t n
or_number_idem t n = ground arith

first_mode : normal_mode (codes "first") ≡ codes "first"
unfolding normal_mode to_lower lower_char trim_space
first_mode = refl

manual_mode : normal_mode (codes "manual") ≡ codes "manual"
unfolding normal_mode to_lower lower_char trim_space
manual_mode = refl

-- Each of the three modes is normal.
normal_mode_fixed : (m : Bytes) → is_mode m ≡ true → normal_mode m ≡ m
unfolding is_mode
normal_mode_fixed m h = elim (Bool-cases (eq_bytes m (codes "first"))) [
  | inl e ↦ rw ((eq_bytes_iff m (codes "first")).0 e) first_mode
  | inr x ↦ elim (Bool-cases (eq_bytes m (codes "auto"))) [
    | inl e ↦ rw ((eq_bytes_iff m (codes "auto")).0 e) auto_mode
    | inr y ↦
        let e : eq_bytes m (codes "manual") ≡ true = rw (x, y) at h in
        rw ((eq_bytes_iff m (codes "manual")).0 e) manual_mode
  ]
]

pub settings_error-none :
    (c : Settings)
    → settings_error c ≡ none
    → (ltb_ℤ c.port (pos 1) ≡ false)
      × (ltb_ℤ (pos 65535) c.port ≡ false)
      × (is_mode c.discovery.mode ≡ true)
      × (validate_pin c.pin ≡ none)
unfolding settings_error
settings_error-none c h = elim (Option-cases (validate_pin c.pin)) [
  | inl e ↦ (ground (arith, h), ground (arith, h), ground (arith, h), e)
  | inr (x, e) ↦ let h' = rw e at h in absurd (ground (arith, h'))
]

normal_settings_fixed :
    (dir : Bytes) (c : Settings) (ds : List Device)
    → let c' = normal_settings dir c in
      settings_error c' ≡ none
      → normal_settings dir (record c' { devices = ds }) ≡ record c' { devices = ds }
unfolding normal_settings
normal_settings_fixed dir c ds h =
    let (low, high, mode, pin) = settings_error-none (normal_settings dir c) h in
    rw
      (
        or_default_idem (codes "MGL03 Bluetooth Bridge") c.bridge_name,
        strip_valid_pin (strip_pin c.pin) pin,
        or_number_idem (pos 51826) c.port,
        or_default_idem (default_state_dir dir) c.state_dir,
        normal_mode_fixed (normal_mode c.discovery.mode) mode,
        or_number_idem (pos 30) c.discovery.window_seconds,
        or_default_idem (codes "127.0.0.1:1883") c.mqtt.address,
        or_default_idem (codes "central/report") c.mqtt.topic,
        or_default_idem (codes "mgl03-homekit-bridge") c.mqtt.client_id,
      )
      refl

pub then_settings :
    (c : Settings) (r : Result ConfigError (List Device)) {c' : Settings}
    → (r >>= λ ds. ok (record c { devices = ds })) ≡ ok c'
    → (ds : List Device) × (r ≡ ok ds) × (c' ≡ record c { devices = ds })
then_settings c (ok ds) h = (ds, refl, cc h)
then_settings c (err e) h = absurd (cc h)

-- The tests before the devices do not read the devices.
settings_error-devices :
    (c : Settings) (ds : List Device)
    → settings_error (record c { devices = ds }) ≡ settings_error c
unfolding settings_error
settings_error-devices c ds = refl

-- An accepted configuration is accepted as it stands the next time: nothing in it changes. The number of
-- a device that has no name is printed so that the name has no space at its ends and is not empty.
pub normalize_and_validate_idem :
    (numbered : Bytes → ℕ → Bytes) (dir : Bytes) (c c' : Settings)
    → IsNumbering numbered
    → normalize_and_validate numbered dir c ≡ ok c'
    → normalize_and_validate numbered dir c' ≡ ok c'
unfolding normalize_and_validate
normalize_and_validate_idem numbered dir c c' n h =
    let s = normal_settings dir c in
    let r = validate_devices numbered 0 [] [] s.devices in
    let (fine, more) =
      unless_ok (settings_error s) (r >>= λ ds. ok (record s { devices = ds })) h in
    let (ds, accepted, is) = then_settings s r more in
    let later = validate_devices_again numbered 0 [] [] s.devices ds n accepted in
    rw (is, normal_settings_fixed dir c ds fine, settings_error-devices s ds, fine, later)
      (unfold unless in refl)
