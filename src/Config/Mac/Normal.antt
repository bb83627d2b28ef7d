-- ===== src/Config/Mac/Normal.antt =====
-- NormalizeMAC is idempotent, and its results are the MACs that the configuration accepts.
use mgl03_homekit_bridge.Common.{
  ℕ, zero, suc, ◌+◌, ◌*◌, ◌≡◌, ◌≢◌, refl, sym, ap, ◌∙◌, ◌↔◌, inl, inr, true, false, [], ◌∷◌, ◌++◌,
  Bytes, length, length-append, lower_char, to_lower, to_lower_idem, is_space, trim_left,
  trim_space, arith, Bool-cases, All, trim_space-to_lower, trim_space_idem,
}
use mathlib.Core.List.{reverse, reverse-append}
use native.Mathlib.Decide.{ℕ_discrete}
use mgl03_homekit_bridge.Config.Mac.{
  is_hex, only_hex, join_pairs, normalize_mac, is_lower_hex, mac_groups, is_mac,
}

is_hex-lower_char : (c : ℕ) → is_hex (lower_char c) ≡ is_hex c
unfolding is_hex lower_char
is_hex-lower_char c = ground arith

only_hex-to_lower : (s : Bytes) → only_hex (to_lower s) ≡ to_lower (only_hex s)
unfolding only_hex to_lower
only_hex-to_lower [] = refl
only_hex-to_lower (c ∷ s) = ground (arith, is_hex-lower_char c, only_hex-to_lower s)

only_hex-append : (s t : Bytes) → only_hex (s ++ t) ≡ only_hex s ++ only_hex t
unfolding only_hex
only_hex-append [] t = refl
only_hex-append (c ∷ s) t = ground (arith, only_hex-append s t)

length-to_lower : (s : Bytes) → length (to_lower s) ≡ length s
unfolding to_lower
length-to_lower [] = refl
length-to_lower (c ∷ s) = ap suc (length-to_lower s)

-- How many hexadecimal digits a text has.
abbrev pub hex_count : Bytes → ℕ
hex_count s = length (only_hex s)

hex_count-reverse : (s : Bytes) → hex_count (reverse s) ≡ hex_count s
hex_count-reverse [] = refl
hex_count-reverse (c ∷ s) =
    rw (reverse-append (c ∷ []) s, only_hex-append (reverse s) (c ∷ []))
      (swap_lem (reverse s) s c (hex_count-reverse s))
  where
    swap_lem :
        (r s : Bytes) (c : ℕ)
        → hex_count r ≡ hex_count s
        → length (only_hex r ++ only_hex (c ∷ [])) ≡ hex_count (c ∷ s)
    swap_lem r s c h =
        unfold only_hex in
        ground (arith, length-append (only_hex r) (c ∷ []), length-append (only_hex r) [])

is_space_not_hex : (c : ℕ) → is_space c ≡ true → is_hex c ≡ false
unfolding is_space is_hex
is_space_not_hex c h = ground arith

hex_count-trim_left : (s : Bytes) → hex_count (trim_left s) ≡ hex_count s
unfolding trim_left only_hex
hex_count-trim_left [] = refl
hex_count-trim_left (c ∷ s) = ground (arith, is_space_not_hex c, hex_count-trim_left s)

hex_count-trim_space : (s : Bytes) → hex_count (trim_space s) ≡ hex_count s
unfolding trim_space
hex_count-trim_space s =
    hex_count-reverse (trim_left (reverse (trim_left s)))
    ∙ hex_count-trim_left (reverse (trim_left s))
    ∙ hex_count-reverse (trim_left s)
    ∙ hex_count-trim_left s

-- The result of a text with twelve digits is their pairs, in lower case.
twelve : (s : Bytes) → hex_count s ≡ 12 → normalize_mac s ≡ join_pairs (to_lower (only_hex s))
unfolding normalize_mac
twelve s h = ground (arith, h)

not_twelve : (s : Bytes) → hex_count s ≢ 12 → normalize_mac s ≡ to_lower (trim_space s)
unfolding normalize_mac
not_twelve s h = ground (arith, h)

-- Every byte is a lower-case hexadecimal digit.
abbrev LowerHex : Bytes → Type 0
LowerHex = All (λ c. is_lower_hex c ≡ true)

lower_hex_of_hex : (c : ℕ) → is_hex c ≡ true → is_lower_hex (lower_char c) ≡ true
unfolding is_hex is_lower_hex lower_char
lower_hex_of_hex c h = ground arith

LowerHex-only_hex : (s : Bytes) → LowerHex (to_lower (only_hex s))
unfolding only_hex to_lower
LowerHex-only_hex [] = tt
LowerHex-only_hex (c ∷ s) = elim (Bool-cases (is_hex c)) [
  | inl hex ↦ rw hex (lower_hex_of_hex c hex, LowerHex-only_hex s)
  | inr other ↦ rw other (LowerHex-only_hex s)
]

hex_of_lower_hex : (c : ℕ) → is_lower_hex c ≡ true → is_hex c ≡ true
unfolding is_hex is_lower_hex
hex_of_lower_hex c h = ground arith

colon_not_hex : is_hex b':' ≡ false
unfolding is_hex
colon_not_hex = refl

only_hex-join_pairs : (s : Bytes) → LowerHex s → only_hex (join_pairs s) ≡ s
unfolding join_pairs only_hex
only_hex-join_pairs [] h = refl
only_hex-join_pairs (a ∷ []) (ha, h) = rw (hex_of_lower_hex a ha)
only_hex-join_pairs (a ∷ b ∷ []) (ha, (hb, h)) = rw (hex_of_lower_hex a ha, hex_of_lower_hex b hb)
only_hex-join_pairs (a ∷ b ∷ c ∷ s) (ha, (hb, h)) =
    rw (hex_of_lower_hex a ha, hex_of_lower_hex b hb, colon_not_hex)
      (ap (λ (r : Bytes). a ∷ b ∷ r) (only_hex-join_pairs (c ∷ s) h))

mac_groups-join_pairs :
    (k : ℕ) (s : Bytes) → LowerHex s → length s ≡ 2 * k + 2 → mac_groups k (join_pairs s) ≡ true
unfolding join_pairs
mac_groups-join_pairs k [] h e = absurd (omega arith)
mac_groups-join_pairs k (a ∷ []) h e = absurd (omega arith)
mac_groups-join_pairs zero (a ∷ b ∷ []) (ha, (hb, h)) e = unfold mac_groups in rw (ha, hb)
mac_groups-join_pairs (suc k) (a ∷ b ∷ []) h e = absurd (omega arith)
mac_groups-join_pairs zero (a ∷ b ∷ c ∷ s) h e = absurd (omega arith)
mac_groups-join_pairs (suc k) (a ∷ b ∷ c ∷ s) (ha, (hb, h)) e =
    colon_group k a b (join_pairs (c ∷ s)) ha hb (mac_groups-join_pairs k (c ∷ s) h (omega arith))
  where
    colon_group :
        (k a b : ℕ) (r : Bytes)
        → is_lower_hex a ≡ true
        → is_lower_hex b ≡ true
        → mac_groups k r ≡ true
        → mac_groups (suc k) (a ∷ b ∷ b':' ∷ r) ≡ true
    colon_group k a b r ha hb h = unfold mac_groups in rw (ha, hb, h)

-- A text of that form has exactly its 2 * k + 2 digits.
hex_count-mac_groups : (k : ℕ) (s : Bytes) → mac_groups k s ≡ true → hex_count s ≡ 2 * k + 2
unfolding mac_groups only_hex
hex_count-mac_groups zero [] h = cc
hex_count-mac_groups (suc k) [] h = cc
hex_count-mac_groups zero (a ∷ []) h = cc
hex_count-mac_groups (suc k) (a ∷ []) h = cc
hex_count-mac_groups zero (a ∷ b ∷ []) h = ground (arith, hex_of_lower_hex a, hex_of_lower_hex b)
hex_count-mac_groups (suc k) (a ∷ b ∷ []) h = cc
hex_count-mac_groups zero (a ∷ b ∷ c ∷ s) h = cc
hex_count-mac_groups (suc k) (a ∷ b ∷ c ∷ s) h =
    ground (arith, hex_of_lower_hex a, hex_of_lower_hex b, colon_not_hex, hex_count-mac_groups k s)

hex_count-normal : (s : Bytes) → hex_count (to_lower (trim_space s)) ≡ hex_count s
hex_count-normal s =
    ap length (only_hex-to_lower (trim_space s))
    ∙ length-to_lower (only_hex (trim_space s))
    ∙ hex_count-trim_space s

-- A normalized MAC passes the check of the configuration exactly if the text that it came from has
-- twelve hexadecimal digits, whatever separates or surrounds them.
pub is_mac-normalize_mac : (s : Bytes) → (is_mac (normalize_mac s) ≡ true) ↔ (hex_count s ≡ 12)
unfolding is_mac
is_mac-normalize_mac s = (only_twelve, all_twelve)
  where
    all_twelve : hex_count s ≡ 12 → mac_groups 5 (normalize_mac s) ≡ true
    all_twelve h = rw (twelve s h) (
        mac_groups-join_pairs 5 (to_lower (only_hex s)) (LowerHex-only_hex s)
          (length-to_lower (only_hex s) ∙ h))

    only_twelve : mac_groups 5 (normalize_mac s) ≡ true → hex_count s ≡ 12
    only_twelve h = elim (ℕ_discrete (hex_count s) 12) [
      | yes e ↦ e
      | no other ↦ absurd (
          other (
            sym (hex_count-normal s)
            ∙ hex_count-mac_groups 5 (to_lower (trim_space s)) (rw (not_twelve s other) at h)))
    ]

-- Normalizing twice is normalizing once, so the keys of the registry and of the caches are stable.
pub normalize_mac_idem : (s : Bytes) → normalize_mac (normalize_mac s) ≡ normalize_mac s
normalize_mac_idem s = elim (ℕ_discrete (hex_count s) 12) [
  | yes h ↦
      let low = to_lower (only_hex s) in
      let digits = only_hex-join_pairs low (LowerHex-only_hex s) in
      rw (twelve s h) (
        twelve (join_pairs low) (ap length digits ∙ length-to_lower (only_hex s) ∙ h)
        ∙ ap (λ (r : Bytes). join_pairs (to_lower r)) digits
        ∙ ap join_pairs (to_lower_idem (only_hex s)))
  | no h ↦ rw (not_twelve s h) (
      not_twelve (to_lower (trim_space s)) (λ e. h (sym (hex_count-normal s) ∙ e))
      ∙ ap to_lower (trim_space-to_lower (trim_space s))
      ∙ to_lower_idem (trim_space (trim_space s))
      ∙ ap to_lower (trim_space_idem s))
]
