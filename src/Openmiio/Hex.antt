-- ===== src/Openmiio/Hex.antt =====
-- encoding/hex and encoding/binary as the decoders use them.
use mgl03_homekit_bridge.Common.{
  ℕ, ◌+◌, ◌-◌, ◌*◌, ◌/◌, ◌%◌, ◌≤◌, ◌<◌, ◌≡◌, refl, ap, Option, none, some, [], ◌∷◌, ◌&&◌, Bytes,
  arith, leb, if◌then◌else◌, All, ltb,
}

-- The value of a hexadecimal digit.
unfoldable pub hex_digit : ℕ → Option ℕ
hex_digit c =
    if leb b'0' c && leb c b'9'
    then some (c - b'0')
    else if leb b'a' c && leb c b'f'
    then some (c - b'a' + 10)
    else if leb b'A' c && leb c b'F'
    then some (c - b'A' + 10)
    else none

abbrev pub hex_pair : Option ℕ → Option ℕ → Option Bytes → Option Bytes
hex_pair (some hi) (some lo) (some rest) = some ((hi * 16 + lo) ∷ rest)
hex_pair _ _ _ = none

-- hex.DecodeString: `none` for an odd length or a byte that is no digit.
unfoldable pub hex_decode : Bytes → Option Bytes
hex_decode [] = some []
hex_decode (c ∷ []) = none
hex_decode (c ∷ d ∷ s) = hex_pair (hex_digit c) (hex_digit d) (hex_decode s)

-- binary.LittleEndian.Uint32 on the first four bytes.
unfoldable pub le_uint32 : ℕ → ℕ → ℕ → ℕ → ℕ
le_uint32 a b c d = a + b * 256 + c * 65536 + d * 16777216

-- The other direction, for round trips: lower-case digits, and four bytes of a number.
abbrev pub hex_char : ℕ → ℕ
hex_char n = if ltb n 10 then n + b'0' else n - 10 + b'a'

abbrev pub hex_encode : Bytes → Bytes
hex_encode [] = []
hex_encode (b ∷ s) = hex_char (b / 16) ∷ hex_char (b % 16) ∷ hex_encode s

abbrev pub IsByte : ℕ → Type 0
IsByte b = b < 256

hex_digit-hex_char : (n : ℕ) → n < 16 → hex_digit (hex_char n) ≡ some n
unfolding hex_digit
hex_digit-hex_char n h = ground arith

-- Decoding the digits of bytes gives the bytes back.
pub hex_decode-hex_encode : (s : Bytes) → All IsByte s → hex_decode (hex_encode s) ≡ some s
unfolding hex_decode
hex_decode-hex_encode [] h = refl
hex_decode-hex_encode (b ∷ s) (hb, hs) =
    rw
      (
        hex_digit-hex_char (b / 16) (omega arith),
        hex_digit-hex_char (b % 16) (omega arith),
        hex_decode-hex_encode s hs,
      )
      (ap (λ (x : ℕ). some (x ∷ s)) (omega arith))

hex_digit-lt : (c : ℕ) {d : ℕ} → hex_digit c ≡ some d → d < 16
unfolding hex_digit
hex_digit-lt c h = ground arith

hex_pair-IsByte :
    (x y : Option ℕ) (o : Option Bytes)
    → ((d : ℕ) → x ≡ some d → d < 16)
    → ((d : ℕ) → y ≡ some d → d < 16)
    → ((bs : Bytes) → o ≡ some bs → All IsByte bs)
    → (bs : Bytes) → hex_pair x y o ≡ some bs
    → All IsByte bs
hex_pair-IsByte (some hi) (some lo) (some rest) hx hy ho [] e = cc
hex_pair-IsByte (some hi) (some lo) (some rest) hx hy ho (b ∷ bs) e =
    ground (arith, hx hi refl, hy lo refl, ho rest refl)
hex_pair-IsByte (some hi) (some lo) none hx hy ho bs e = cc
hex_pair-IsByte (some hi) none o hx hy ho bs e = cc
hex_pair-IsByte none y o hx hy ho bs e = cc

-- What is decoded is bytes.
pub hex_decode-IsByte : (s bs : Bytes) → hex_decode s ≡ some bs → All IsByte bs
unfolding hex_decode
hex_decode-IsByte [] [] e = tt
hex_decode-IsByte [] (b ∷ bs) e = cc
hex_decode-IsByte (c ∷ []) bs e = cc
hex_decode-IsByte (c ∷ d ∷ s) bs e =
    hex_pair-IsByte (hex_digit c) (hex_digit d) (hex_decode s) (λ _ h. hex_digit-lt c h)
      (λ _ h. hex_digit-lt d h) (hex_decode-IsByte s) bs e

pub le_uint32-lt :
    (a b c d : ℕ) → a < 256 → b < 256 → c < 256 → d < 256 → le_uint32 a b c d ≤ 4294967295
unfolding le_uint32
le_uint32-lt a b c d ha hb hc hd = omega arith

pub le_uint32_lem :
    (n : ℕ)
    → n < 4294967296
    → le_uint32 (n % 256) (n / 256 % 256) (n / 65536 % 256) (n / 16777216) ≡ n
unfolding le_uint32
le_uint32_lem n h = omega arith
