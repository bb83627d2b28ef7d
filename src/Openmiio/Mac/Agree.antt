-- ===== src/Openmiio/Mac/Agree.antt =====
-- The two versions of NormalizeMAC are one function.
use mgl03_homekit_bridge.Common.{
  ℕ, zero, suc, ◌+◌, ◌*◌, ◌≡◌, refl, sym, ap, ◌∙◌, inl, inr, [], ◌∷◌, ◌++◌, Bytes, length, drop,
  ◌==◌, to_lower, arith, Bool-cases, lower_char,
}
use mathlib.Core.List.{append_assoc, append-nil}
use mgl03_homekit_bridge.Config.Mac
use mgl03_homekit_bridge.Config.Mac.{is_hex, only_hex, join_pairs}
use mgl03_homekit_bridge.Openmiio.Mac.{is_hex_char, hex_loop, mac_parts, join, normalize_mac}

is_hex_char-is_hex : (c : ℕ) → is_hex_char c ≡ is_hex c
unfolding is_hex_char is_hex
is_hex_char-is_hex c = ground arith

hex_loop-only_hex : (s hex : Bytes) → hex_loop s hex ≡ hex ++ only_hex s
unfolding hex_loop only_hex
hex_loop-only_hex [] hex = sym (append-nil hex)
hex_loop-only_hex (c ∷ s) hex = elim (Bool-cases (is_hex c)) [
  | inl on ↦
      rw (is_hex_char-is_hex, on)
        (hex_loop-only_hex s (hex ++ (c ∷ [])) ∙ append_assoc hex (c ∷ []) (only_hex s))
  | inr off ↦ rw (is_hex_char-is_hex, off) (hex_loop-only_hex s hex)
]

drop_nil : (n : ℕ) → drop {A = ℕ} n [] ≡ []
drop_nil zero = refl
drop_nil (suc n) = refl

drop-add : (n m : ℕ) (s : Bytes) → drop (n + m) s ≡ drop m (drop n s)
drop-add zero m s = ap (λ (k : ℕ). drop k s) (omega arith)
drop-add (suc n) m [] = drop_nil (suc n + m) ∙ sym (drop_nil m)
drop-add (suc n) m (c ∷ s) = ap (λ (k : ℕ). drop k (c ∷ s)) (suc_first n m) ∙ drop-add n m s
  where
    suc_first : (a b : ℕ) → suc a + b ≡ suc (a + b)
    suc_first a b = omega arith

next_part :
    (i : ℕ) (hex : Bytes) (a b : ℕ) (rest : Bytes)
    → drop (i * 2) hex ≡ a ∷ b ∷ rest
    → drop (suc i * 2) hex ≡ rest
next_part i hex a b rest e =
    ap (λ (k : ℕ). drop k hex) (two_more i) ∙ drop-add (i * 2) 2 hex ∙ ap (drop 2) e
  where
    two_more : (k : ℕ) → suc k * 2 ≡ k * 2 + 2
    two_more k = omega arith

join-mac_parts :
    (k i : ℕ) (hex rest : Bytes)
    → drop (i * 2) hex ≡ rest
    → length rest ≡ suc k * 2
    → join (b':' ∷ []) (mac_parts (suc k) i hex) ≡ join_pairs (to_lower rest)
unfolding mac_parts join join_pairs to_lower
join-mac_parts k i hex [] e size = absurd (omega arith)
join-mac_parts k i hex (a ∷ []) e size = absurd (omega arith)
join-mac_parts zero i hex (a ∷ b ∷ []) e size = rw e
join-mac_parts (suc k) i hex (a ∷ b ∷ []) e size = absurd (omega arith)
join-mac_parts zero i hex (a ∷ b ∷ c ∷ s) e size = absurd (omega arith)
join-mac_parts (suc k) i hex (a ∷ b ∷ c ∷ s) e size =
    let later =
      join-mac_parts k (suc i) hex (c ∷ s) (next_part i hex a b (c ∷ s) e) (omega arith) in
    rw e (ap (λ (r : Bytes). lower_char a ∷ lower_char b ∷ b':' ∷ r) later)

-- The parser of reports and the configuration agree on every MAC, so a report finds its device.
pub normalize_mac-agrees : (s : Bytes) → normalize_mac s ≡ Mac.normalize_mac s
unfolding normalize_mac Mac.normalize_mac
normalize_mac-agrees s =
    rw (hex_loop-only_hex s []) (elim (Bool-cases (length (only_hex s) == 12)) [
      | inr other ↦ rw other
      | inl twelve ↦ rw twelve (join-mac_parts 5 0 (only_hex s) (only_hex s) refl (ground arith))
    ])
