-- ===== src/Config/Validate/Filled.antt =====
-- What NormalizeAndValidate fills in and trims, field by field.
use mgl03_homekit_bridge.Common.{
  ℕ, zero, suc, ◌+◌, ◌≡◌, ◌≢◌, ◌⊎◌, refl, inl, inr, List, [], ◌∷◌, Bytes, codes, eq_bytes, is_empty,
  trim_space, to_lower, ◌==◌, if◌then◌else◌, arith, Bool-cases,
}
use mgl03_homekit_bridge.Common.Int.{ℤ, pos, negsuc}
use mgl03_homekit_bridge.Config.Device.{Device}
use mgl03_homekit_bridge.Config.Mac.{normalize_mac}
use mgl03_homekit_bridge.Config.Pin.{strip_pin}
use mgl03_homekit_bridge.Config.Validate.{
  Settings, or_default, default_state_dir, normal_mode, or_number, normal_settings, normal_device,
}
use mgl03_homekit_bridge.Config.Validate.Accepted.{normal_devices}

-- A text that is blank gives the default, any other one stays.
abbrev pub IsDefaulted : Bytes → Bytes → Bytes → Type 0
IsDefaulted default s s' = ((trim_space s ≡ []) × (s' ≡ default)) ⊎ ((trim_space s ≢ []) × (s' ≡ s))

-- The same with a number that is 0.
abbrev pub IsNumberDefaulted : ℤ → ℤ → ℤ → Type 0
IsNumberDefaulted default n n' = ((n ≡ pos 0) × (n' ≡ default)) ⊎ ((n ≢ pos 0) × (n' ≡ n))

-- A text is trimmed, and if nothing is left it gives the default.
abbrev pub IsTrimmed : (Bytes → Bytes) → Bytes → Bytes → Bytes → Type 0
IsTrimmed change default s s' =
    ((trim_space s ≡ []) × (s' ≡ default)) ⊎ ((trim_space s ≢ []) × (s' ≡ change (trim_space s)))

-- The directory beside the file, or "state" if the file is in the current one.
abbrev pub fallback_dir : Bytes → Bytes
fallback_dir [] = codes "state"
fallback_dir (c ∷ []) = if c == 46 then codes "state" else c ∷ []
fallback_dir (c ∷ x ∷ s) = c ∷ x ∷ s

-- A pairing code without its dashes and spaces.
pub data IsStripped : Bytes → Bytes → Type 0 where
  nothing : IsStripped [] []
  dash : {s s' : Bytes} → IsStripped s s' → IsStripped (45 ∷ s) s'
  space : {s s' : Bytes} → IsStripped s s' → IsStripped (32 ∷ s) s'
  other : (c : ℕ) {s s' : Bytes} → c ≢ 45 → c ≢ 32 → IsStripped s s' → IsStripped (c ∷ s) (c ∷ s')

pub record IsNormal (numbered : Bytes → ℕ → Bytes) (i : ℕ) (d d' : Device) : Type 0 where
  pub name : IsTrimmed (λ s. s) (numbered (codes "Bluetooth Device") (i + 1)) d.name d'.name
  pub mac : d'.mac ≡ normalize_mac d.mac
  pub did : d'.did ≡ trim_space d.did
  pub product_id : d'.product_id ≡ d.product_id
  pub model : d'.model ≡ d.model
  pub aid : d'.aid ≡ d.aid

-- The devices one by one, from number `i` on.
abbrev pub AreNormal : (Bytes → ℕ → Bytes) → ℕ → List Device → List Device → Type 0
AreNormal numbered i [] [] = Unit
AreNormal numbered i [] (d' ∷ ds') = ⊥
AreNormal numbered i (d ∷ ds) [] = ⊥
AreNormal numbered i (d ∷ ds) (d' ∷ ds') =
    IsNormal numbered i d d' × AreNormal numbered (suc i) ds ds'

pub record IsFilledIn (numbered : Bytes → ℕ → Bytes) (dir : Bytes) (c c' : Settings) : Type 0 where
  pub bridge_name : IsDefaulted (codes "MGL03 Bluetooth Bridge") c.bridge_name c'.bridge_name
  pub pin : IsStripped c.pin c'.pin
  pub port : IsNumberDefaulted (pos 51826) c.port c'.port
  pub interfaces : c'.interfaces ≡ c.interfaces
  pub state_dir : IsDefaulted (fallback_dir dir) c.state_dir c'.state_dir
  pub mode : IsTrimmed to_lower (codes "first") c.discovery.mode c'.discovery.mode
  pub window : IsNumberDefaulted (pos 30) c.discovery.window_seconds c'.discovery.window_seconds
  pub address : IsDefaulted (codes "127.0.0.1:1883") c.mqtt.address c'.mqtt.address
  pub topic : IsDefaulted (codes "central/report") c.mqtt.topic c'.mqtt.topic
  pub client_id : IsDefaulted (codes "mgl03-homekit-bridge") c.mqtt.client_id c'.mqtt.client_id
  pub devices : AreNormal numbered 0 c.devices c'.devices

or_default-IsDefaulted : (d s : Bytes) → IsDefaulted d s (or_default d s)
or_default-IsDefaulted d s = cases (trim_space s)
  where
    cases :
        (t : Bytes)
        → ((t ≡ []) × ((if is_empty t then d else s) ≡ d))
          ⊎ ((t ≢ []) × ((if is_empty t then d else s) ≡ s))
    cases [] = inl (refl, refl)
    cases (x ∷ t) = inr (λ e. absurd (cc e), refl)

or_number-IsNumberDefaulted : (d n : ℤ) → IsNumberDefaulted d n (or_number d n)
or_number-IsNumberDefaulted d (pos zero) = inl (refl, refl)
or_number-IsNumberDefaulted d (pos (suc k)) = inr (λ e. absurd (ground (arith, e)), ground arith)
or_number-IsNumberDefaulted d (negsuc k) = inr (λ e. absurd (cc e), ground arith)

normal_mode-IsTrimmed : (m : Bytes) → IsTrimmed to_lower (codes "first") m (normal_mode m)
unfolding normal_mode to_lower
normal_mode-IsTrimmed m = cases (trim_space m)
  where
    cases :
        (t : Bytes)
        → ((t ≡ [])
            × ((if is_empty (to_lower t) then codes "first" else to_lower t) ≡ codes "first"))
          ⊎ ((t ≢ [])
              × ((if is_empty (to_lower t) then codes "first" else to_lower t) ≡ to_lower t))
    cases [] = inl (refl, refl)
    cases (x ∷ t) = inr (λ e. absurd (cc e), refl)

default_state_dir-fallback_dir : (dir : Bytes) → default_state_dir dir ≡ fallback_dir dir
unfolding default_state_dir eq_bytes
default_state_dir-fallback_dir [] = refl
default_state_dir-fallback_dir (c ∷ []) = ground arith
default_state_dir-fallback_dir (c ∷ x ∷ s) = ground arith

strip_pin-IsStripped : (s : Bytes) → IsStripped s (strip_pin s)
unfolding strip_pin
strip_pin-IsStripped [] = nothing
strip_pin-IsStripped (c ∷ s) =
    let rest = strip_pin-IsStripped s in
    elim (Bool-cases (c == 45)) [
      | inl e ↦ let same : c ≡ 45 = ground (arith, e) in rw same (dash rest)
      | inr not_dash ↦ elim (Bool-cases (c == 32)) [
        | inl e ↦ let same : c ≡ 32 = ground (arith, e) in rw same (space rest)
        | inr not_space ↦
            rw (not_dash, not_space)
              (other c (λ z. absurd (ground (arith, not_dash, z)))
                (λ z. absurd (ground (arith, not_space, z))) rest)
      ]
    ]

normal_device-IsNormal :
    (numbered : Bytes → ℕ → Bytes) (i : ℕ) (d : Device)
    → IsNormal numbered i d (normal_device numbered i d)
unfolding normal_device
normal_device-IsNormal numbered i d = record {
  name = cases (trim_space d.name);
  mac = refl;
  did = refl;
  product_id = refl;
  model = refl;
  aid = refl;
}
  where
    default : Bytes
    default = numbered (codes "Bluetooth Device") (i + 1)

    cases :
        (t : Bytes)
        → ((t ≡ []) × ((if is_empty t then default else t) ≡ default))
          ⊎ ((t ≢ []) × ((if is_empty t then default else t) ≡ t))
    cases [] = inl (refl, refl)
    cases (x ∷ t) = inr (λ e. absurd (cc e), refl)

normal_devices-AreNormal :
    (numbered : Bytes → ℕ → Bytes) (i : ℕ) (ds : List Device)
    → AreNormal numbered i ds (normal_devices numbered i ds)
unfolding normal_devices
normal_devices-AreNormal numbered i [] = tt
normal_devices-AreNormal numbered i (d ∷ ds) =
    (normal_device-IsNormal numbered i d, normal_devices-AreNormal numbered (suc i) ds)

pub normal_settings-IsFilledIn :
    (numbered : Bytes → ℕ → Bytes) (dir : Bytes) (c : Settings)
    → IsFilledIn numbered dir c
        (record (normal_settings dir c) { devices = normal_devices numbered 0 c.devices })
unfolding normal_settings
normal_settings-IsFilledIn numbered dir c = record {
  bridge_name = or_default-IsDefaulted (codes "MGL03 Bluetooth Bridge") c.bridge_name;
  pin = strip_pin-IsStripped c.pin;
  port = or_number-IsNumberDefaulted (pos 51826) c.port;
  interfaces = refl;
  state_dir =
      rw (default_state_dir-fallback_dir dir)
        (or_default-IsDefaulted (fallback_dir dir) c.state_dir);
  mode = normal_mode-IsTrimmed c.discovery.mode;
  window = or_number-IsNumberDefaulted (pos 30) c.discovery.window_seconds;
  address = or_default-IsDefaulted (codes "127.0.0.1:1883") c.mqtt.address;
  topic = or_default-IsDefaulted (codes "central/report") c.mqtt.topic;
  client_id = or_default-IsDefaulted (codes "mgl03-homekit-bridge") c.mqtt.client_id;
  devices = normal_devices-AreNormal numbered 0 c.devices;
}
