-- ===== src/Config/Validate/Tests.antt =====
-- What NormalizeAndValidate looks for in a configuration, written out.
use mgl03_homekit_bridge.Common.{
  ℕ, zero, suc, ◌+◌, ◌*◌, ◌<◌, ◌≡◌, refl, ap, ◌∙◌, Bool, true, false, not, ◌&&◌, ◌||◌, some, none,
  List, [], ◌∷◌, ◌++◌, Bytes, codes, eq_bytes, is_empty, is_some, length, leb, ltb, ◌==◌,
  if◌then◌else◌, arith,
}
use mgl03_homekit_bridge.Common.Int.{ℤ, pos, leb_ℤ, ltb_ℤ}
use mgl03_homekit_bridge.Config.Device.{Device}
use mgl03_homekit_bridge.Config.Mac.{is_lower_hex, mac_groups, is_mac}
use mgl03_homekit_bridge.Config.Pin.{
  is_digit, all_digits, invalid_pins, is_listed, validate_pin, rejected_pin, not_eight_digits,
}
use mgl03_homekit_bridge.Config.Validate.{Settings, key, is_mode}
use mgl03_homekit_bridge.Config.Validate.Accepted.{is_usable, apart, all_apart, are_valid}
use mgl03_homekit_bridge.Config.Validate.Complete.{is_complete}

pub is_any_of : List Bytes → Bytes → Bool
is_any_of [] s = false
is_any_of (t ∷ ts) s = eq_bytes s t || is_any_of ts s

-- A pairing code: eight decimal digits, and none of the trivial codes.
pub all_decimal : Bytes → Bool
all_decimal [] = true
all_decimal (c ∷ s) = leb 48 c && (leb c 57 && all_decimal s)

abbrev trivial_codes : List Bytes
trivial_codes =
    codes "00000000"
    ∷ codes "11111111"
    ∷ codes "22222222"
    ∷ codes "33333333"
    ∷ codes "44444444"
    ∷ codes "55555555"
    ∷ codes "66666666"
    ∷ codes "77777777"
    ∷ codes "88888888"
    ∷ codes "99999999"
    ∷ codes "12345678"
    ∷ codes "87654321"
    ∷ []

abbrev pub is_pairing_code : Bytes → Bool
is_pairing_code s = length s == 8 && (all_decimal s && not (is_any_of trivial_codes s))

-- A MAC: 17 characters, every third of which is a colon and every other one a lower-case hex digit.
abbrev is_hex_digit : ℕ → Bool
is_hex_digit c = leb 48 c && leb c 57 || leb 97 c && leb c 102

pub spaced : Bytes → Bool
spaced [] = true
spaced (a ∷ []) = is_hex_digit a
spaced (a ∷ b ∷ []) = is_hex_digit a && is_hex_digit b
spaced (a ∷ b ∷ c ∷ s) = is_hex_digit a && (is_hex_digit b && (c == 58 && spaced s))

abbrev pub is_colon_mac : Bytes → Bool
is_colon_mac s = length s == 17 && spaced s

-- A device has a MAC or a DID, a MAC that is well-formed if it has one, and not the id of the bridge.
abbrev pub is_device : Device → Bool
is_device d =
    not (is_empty d.mac && is_empty d.did)
    && ((is_empty d.mac || is_colon_mac d.mac) && not (d.aid == 1))

-- Two devices differ in the MAC, or the DID behind "did:" where there is none, and in ids that are set.
pub identity_text : Bytes → Bytes → Bytes
identity_text [] did = codes "did:" ++ did
identity_text (c ∷ mac) did = c ∷ mac

abbrev pub differ : Device → Device → Bool
differ c d =
    not (eq_bytes (identity_text d.mac d.did) (identity_text c.mac c.did))
    && not (ltb 0 d.aid && d.aid == c.aid)

pub all_differ : Device → List Device → Bool
all_differ c [] = true
all_differ c (d ∷ ds) = differ c d && all_differ c ds

pub are_devices : List Device → Bool
are_devices [] = true
are_devices (d ∷ ds) = is_device d && (all_differ d ds && are_devices ds)

abbrev pub is_accepted : Settings → Bool
is_accepted c =
    leb_ℤ (pos 1) c.port
    && (leb_ℤ c.port (pos 65535)
        && (is_any_of (codes "first" ∷ codes "auto" ∷ codes "manual" ∷ []) c.discovery.mode
            && (leb_ℤ (pos 5) c.discovery.window_seconds
                && (leb_ℤ c.discovery.window_seconds (pos 600)
                    && (is_pairing_code c.pin && are_devices c.devices)))))

all_digits-all_decimal : (s : Bytes) → all_digits s ≡ all_decimal s
unfolding all_digits is_digit all_decimal
all_digits-all_decimal [] = refl
all_digits-all_decimal (c ∷ s) = ground (arith, all_digits-all_decimal s)

is_listed-is_any_of : (s : Bytes) (ts : List Bytes) → is_listed s ts ≡ is_any_of ts s
unfolding is_listed is_any_of
is_listed-is_any_of s [] = refl
is_listed-is_any_of s (t ∷ ts) = ap (λ b. eq_bytes s t || b) (is_listed-is_any_of s ts)

validate_pin-is_pairing_code : (s : Bytes) → not (is_some (validate_pin s)) ≡ is_pairing_code s
unfolding validate_pin
validate_pin-is_pairing_code s =
    rw (is_listed-is_any_of s invalid_pins, all_digits-all_decimal s)
      (regroup (length s == 8) (all_decimal s) (is_any_of trivial_codes s))
  where
    regroup :
        (a b c : Bool)
        → not (
            is_some
              (if a && b then (if c then some rejected_pin else none) else some not_eight_digits))
          ≡ a && (b && not c)
    regroup a b c = ground arith

one_more : (n k : ℕ) → (suc (suc (suc n)) == suc k * 3 + 2) ≡ (n == k * 3 + 2)
one_more n k = ground arith

too_short : (n k : ℕ) → n < 3 → (n == suc k * 3 + 2) ≡ false
too_short n k h = ground arith

-- The last pair, and a pair with its colon.
last_pair : (s : Bytes) → mac_groups zero s ≡ (length s == 2) && spaced s
unfolding mac_groups spaced is_lower_hex
last_pair [] = refl
last_pair (a ∷ []) = refl
last_pair (a ∷ b ∷ []) = refl
last_pair (a ∷ b ∷ c ∷ s) =
    let long : (length (a ∷ b ∷ c ∷ s) == 2) ≡ false = ground arith in rw long refl

pair_more :
    (k a b c : ℕ) (s : Bytes)
    → mac_groups k s ≡ (length s == k * 3 + 2) && spaced s
    → mac_groups (suc k) (a ∷ b ∷ c ∷ s)
      ≡ (length (a ∷ b ∷ c ∷ s) == suc k * 3 + 2) && spaced (a ∷ b ∷ c ∷ s)
unfolding mac_groups spaced is_lower_hex
pair_more k a b c s h =
    rw (h, one_more (length s) k)
      (regroup (is_hex_digit a) (is_hex_digit b) (c == 58) (length s == k * 3 + 2) (spaced s))
  where
    regroup : (x y z n r : Bool) → x && (y && (z && (n && r))) ≡ n && (x && (y && (z && r)))
    regroup x y z n r = ground arith

mac_groups_short :
    (k : ℕ) (s : Bytes)
    → mac_groups (suc k) s ≡ false
    → length s < 3
    → mac_groups (suc k) s ≡ (length s == suc k * 3 + 2) && spaced s
mac_groups_short k s none_left h = none_left ∙ rw (too_short (length s) k h) refl

mac_groups-spaced : (k : ℕ) (s : Bytes) → mac_groups k s ≡ (length s == k * 3 + 2) && spaced s
mac_groups-spaced zero s = last_pair s
mac_groups-spaced (suc k) [] = mac_groups_short k [] (unfold mac_groups in refl) (omega arith)
mac_groups-spaced (suc k) (a ∷ []) =
    mac_groups_short k (a ∷ []) (unfold mac_groups in refl) (omega arith)
mac_groups-spaced (suc k) (a ∷ b ∷ []) =
    mac_groups_short k (a ∷ b ∷ []) (unfold mac_groups in refl) (omega arith)
mac_groups-spaced (suc k) (a ∷ b ∷ c ∷ s) = pair_more k a b c s (mac_groups-spaced k s)

is_mac-is_colon_mac : (s : Bytes) → is_mac s ≡ is_colon_mac s
unfolding is_mac
is_mac-is_colon_mac s = mac_groups-spaced 5 s

is_usable-is_device : (d : Device) → is_usable d ≡ is_device d
unfolding is_usable
is_usable-is_device d = rw (is_mac-is_colon_mac d.mac) refl

key-identity_text : (d : Device) → key d ≡ identity_text d.mac d.did
unfolding key identity_text
key-identity_text d = cases d.mac
  where
    cases : (m : Bytes) → (if is_empty m then codes "did:" ++ d.did else m) ≡ identity_text m d.did
    cases [] = refl
    cases (c ∷ m) = refl

all_apart-all_differ : (c : Device) (ds : List Device) → all_apart c ds ≡ all_differ c ds
unfolding all_apart all_differ apart
all_apart-all_differ c [] = refl
all_apart-all_differ c (d ∷ ds) =
    rw (key-identity_text c, key-identity_text d, all_apart-all_differ c ds) refl

are_valid-are_devices : (ds : List Device) → are_valid ds ≡ are_devices ds
unfolding are_valid are_devices
are_valid-are_devices [] = refl
are_valid-are_devices (d ∷ ds) =
    rw (is_usable-is_device d, all_apart-all_differ d ds, are_valid-are_devices ds) refl

not-ltb_ℤ : (a b : ℤ) → not (ltb_ℤ a b) ≡ leb_ℤ b a
not-ltb_ℤ a b = ground arith

pub is_complete-is_accepted : (c : Settings) → is_complete c && are_valid c.devices ≡ is_accepted c
unfolding is_complete is_mode is_any_of
is_complete-is_accepted c =
    rw
      (
        validate_pin-is_pairing_code c.pin,
        are_valid-are_devices c.devices,
        not-ltb_ℤ c.port (pos 1),
        not-ltb_ℤ (pos 65535) c.port,
        not-ltb_ℤ c.discovery.window_seconds (pos 5),
        not-ltb_ℤ (pos 600) c.discovery.window_seconds,
      )
      (regroup (leb_ℤ (pos 1) c.port) (leb_ℤ c.port (pos 65535))
        (eq_bytes c.discovery.mode (codes "first")) (eq_bytes c.discovery.mode (codes "auto"))
        (eq_bytes c.discovery.mode (codes "manual")) (leb_ℤ (pos 5) c.discovery.window_seconds)
        (leb_ℤ c.discovery.window_seconds (pos 600)) (is_pairing_code c.pin)
        (are_devices c.devices))
  where
    regroup :
        (a b x y z d e f g : Bool)
        → (a && (b && ((x || (y || z)) && (d && (e && f))))) && g
          ≡ a && (b && ((x || (y || (z || false))) && (d && (e && (f && g)))))
    regroup a b x y z d e f g = ground arith
