-- ===== src/Config/Pin.antt =====
-- config.go: HomeKit pairing codes.
pub mod Valid
use mgl03_homekit_bridge.Common.{
  ℕ, suc, zero, ◌+◌, ◌*◌, ◌/◌, ◌%◌, ◌^◌, Bool, true, false, ◌&&◌, ◌||◌, List, [], ◌∷◌, ◌++◌, Bytes,
  codes, eq_bytes, length, take, drop, leb, ◌==◌, if◌then◌else◌, Option, none, some,
}

unfoldable pub is_digit : ℕ → Bool
is_digit c = leb b'0' c && leb c b'9'

unfoldable pub all_digits : Bytes → Bool
all_digits [] = true
all_digits (c ∷ s) = is_digit c && all_digits s

-- The keys of `invalidPins`.
abbrev pub invalid_pins : List Bytes
invalid_pins =
    codes "00000000"
    ∷ codes "11111111"
    ∷ codes "22222222"
    ∷ codes "33333333"
    ∷ codes "44444444"
    ∷ codes "55555555"
    ∷ codes "66666666"
    ∷ codes "77777777"
    ∷ codes "88888888"
    ∷ codes "99999999"
    ∷ codes "12345678"
    ∷ codes "87654321"
    ∷ []

unfoldable pub is_listed : Bytes → List Bytes → Bool
is_listed p [] = false
is_listed p (q ∷ qs) = eq_bytes p q || is_listed p qs

pub data PinError : Type 0 where
  not_eight_digits rejected_pin : PinError

-- `none` is a nil error.
unfoldable pub validate_pin : Bytes → Option PinError
validate_pin pin =
    if length pin == 8 && all_digits pin
    then (if is_listed pin invalid_pins then some rejected_pin else none)
    else some not_eight_digits

-- The Replacer that drops dashes and spaces.
unfoldable pub strip_pin : Bytes → Bytes
strip_pin [] = []
strip_pin (c ∷ s) = let rest = strip_pin s in if c == b'-' || c == b' ' then rest else c ∷ rest

unfoldable pub format_pin : Bytes → Bytes
format_pin pin =
    if length pin == 8
    then take 3 pin ++ (b'-' ∷ take 2 (drop 3 pin) ++ (b'-' ∷ drop 5 pin))
    else pin

-- Sprintf("%08d", n) for n below 10^8: eight digits, the highest first.
unfoldable pub decimal8 : ℕ → ℕ → Bytes
decimal8 zero n = []
decimal8 (suc k) n = (b'0' + n / 10 ^ k % 10) ∷ decimal8 k n

-- The PIN for one draw of a uint32.
unfoldable pub drawn_pin : ℕ → Bytes
drawn_pin n = decimal8 8 (n % 100000000)

-- generatePin over the draws of the random source: `none` while it goes on.
unfoldable pub generate_pin : List ℕ → Option Bytes
generate_pin [] = none
generate_pin (n ∷ draws) =
    let later = generate_pin draws in
    elim (validate_pin (drawn_pin n)) [ none ↦ some (drawn_pin n) | some e ↦ later ]
