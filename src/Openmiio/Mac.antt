-- ===== src/Openmiio/Mac.antt =====
-- parser.go, NormalizeMAC: a second version of the function of internal/config.
pub mod Agree
use mgl03_homekit_bridge.Common.{
  ℕ, zero, suc, ◌+◌, ◌*◌, ◌||◌, ◌&&◌, Bool, List, [], ◌∷◌, ◌++◌, Bytes, length, take, drop, leb,
  ◌==◌, to_lower, trim_space, if◌then◌else◌,
}

-- The condition of the loop over the bytes.
unfoldable pub is_hex_char : ℕ → Bool
is_hex_char c = leb b'0' c && leb c b'9' || leb b'a' c && leb c b'f' || leb b'A' c && leb c b'F'

unfoldable pub hex_loop : Bytes → Bytes → Bytes
hex_loop [] hex_chars = hex_chars
hex_loop (c ∷ s) hex_chars = hex_loop s (if is_hex_char c then hex_chars ++ (c ∷ []) else hex_chars)

-- `parts`, from index `i` on.
unfoldable pub mac_parts : ℕ → ℕ → Bytes → List Bytes
mac_parts zero i hex_chars = []
mac_parts (suc k) i hex_chars =
    to_lower (take 2 (drop (i * 2) hex_chars)) ∷ mac_parts k (suc i) hex_chars

-- strings.Join
unfoldable pub join : Bytes → List Bytes → Bytes
join sep [] = []
join sep (p ∷ []) = p
join sep (p ∷ q ∷ ps) = p ++ (sep ++ join sep (q ∷ ps))

unfoldable pub normalize_mac : Bytes → Bytes
normalize_mac s =
    let hex_chars = hex_loop s [] in
    if length hex_chars == 12
    then join (b':' ∷ []) (mac_parts 6 0 hex_chars)
    else to_lower (trim_space s)
