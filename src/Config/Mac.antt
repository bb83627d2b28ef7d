-- ===== src/Config/Mac.antt =====
-- config.go, NormalizeMAC, and the regular expression that checks a MAC.
pub mod Normal
use mgl03_homekit_bridge.Common.{
  ℕ, zero, suc, Bool, true, false, ◌&&◌, ◌||◌, List, [], ◌∷◌, Bytes, length, leb, ◌==◌, to_lower,
  trim_space, if◌then◌else◌,
}

-- A byte of the class [0-9A-Fa-f].
unfoldable pub is_hex : ℕ → Bool
is_hex c = leb b'0' c && leb c b'9' || (leb b'A' c && leb c b'F' || leb b'a' c && leb c b'f')

-- ReplaceAllString of [^0-9A-Fa-f] by the empty string.
unfoldable pub only_hex : Bytes → Bytes
only_hex [] = []
only_hex (c ∷ s) = let rest = only_hex s in if is_hex c then c ∷ rest else rest

-- The pairs of characters, joined by colons.
unfoldable pub join_pairs : Bytes → Bytes
join_pairs [] = []
join_pairs (a ∷ []) = a ∷ []
join_pairs (a ∷ b ∷ []) = a ∷ b ∷ []
join_pairs (a ∷ b ∷ c ∷ s) = a ∷ b ∷ b':' ∷ join_pairs (c ∷ s)

unfoldable pub normalize_mac : Bytes → Bytes
normalize_mac s =
    let hex = only_hex s in
    if length hex == 12 then join_pairs (to_lower hex) else to_lower (trim_space s)

-- A byte of the class [0-9a-f].
unfoldable pub is_lower_hex : ℕ → Bool
is_lower_hex c = leb b'0' c && leb c b'9' || leb b'a' c && leb c b'f'

-- `^([0-9a-f]{2}:){k}[0-9a-f]{2}$`
unfoldable pub mac_groups : ℕ → Bytes → Bool
mac_groups zero (a ∷ b ∷ []) = is_lower_hex a && is_lower_hex b
mac_groups (suc k) (a ∷ b ∷ c ∷ s) =
    let rest = mac_groups k s in is_lower_hex a && (is_lower_hex b && (c == b':' && rest))
mac_groups _ _ = false

unfoldable pub is_mac : Bytes → Bool
is_mac s = mac_groups 5 s
