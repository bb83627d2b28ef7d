-- ===== src/Common/Trim.antt =====
-- Laws of TrimSpace.
use Prim.Native.Nat.{ℕ}
use mathlib.Core.Path.{◌≡◌, refl, sym, ap, ◌∙◌}
use mathlib.Core.Logic.{inl, inr}
use mathlib.Core.Bool.{false}
use mathlib.Core.List.{[], ◌∷◌, ◌++◌, map, reverse, reverse-append, reverse-reverse}
use native.Mathlib.Omega.{arith}
use mgl03_homekit_bridge.Common.Tests.{Bool-cases}
use mgl03_homekit_bridge.Common.Text.{
  Bytes, lower_char, to_lower, to_lower-append, is_space, trim_left, trim_space,
}

is_space-lower_char : (c : ℕ) → is_space (lower_char c) ≡ is_space c
unfolding is_space lower_char
is_space-lower_char c = ground arith

trim_left-to_lower : (s : Bytes) → trim_left (to_lower s) ≡ to_lower (trim_left s)
unfolding trim_left to_lower
trim_left-to_lower [] = refl
trim_left-to_lower (c ∷ s) = ground (arith, is_space-lower_char c, trim_left-to_lower s)

reverse-to_lower : (s : Bytes) → reverse (to_lower s) ≡ to_lower (reverse s)
unfolding to_lower
reverse-to_lower [] = refl
reverse-to_lower (c ∷ s) =
    reverse-append (lower_char c ∷ []) (map lower_char s)
    ∙ ap (λ (r : Bytes). r ++ (lower_char c ∷ [])) (reverse-to_lower s)
    ∙ sym (ap to_lower (reverse-append (c ∷ []) s) ∙ to_lower-append (reverse s) (c ∷ []))

pub trim_space-to_lower : (s : Bytes) → trim_space (to_lower s) ≡ to_lower (trim_space s)
unfolding trim_space
trim_space-to_lower s =
    rw
      (
        trim_left-to_lower s,
        reverse-to_lower (trim_left s),
        trim_left-to_lower (reverse (trim_left s)),
      )
      (reverse-to_lower (trim_left (reverse (trim_left s))))

-- What trim_left leaves begins with no space.
HasNoSpace : Bytes → Type 0
HasNoSpace [] = Unit
HasNoSpace (c ∷ s) = is_space c ≡ false

trim_left-HasNoSpace : (s : Bytes) → HasNoSpace (trim_left s)
unfolding trim_left HasNoSpace
trim_left-HasNoSpace [] = tt
trim_left-HasNoSpace (c ∷ s) = elim (Bool-cases (is_space c)) [
  | inl space ↦ rw space (trim_left-HasNoSpace s)
  | inr other ↦ rw other other
]

trim_left_of_HasNoSpace : (s : Bytes) → HasNoSpace s → trim_left s ≡ s
unfolding trim_left HasNoSpace
trim_left_of_HasNoSpace [] h = refl
trim_left_of_HasNoSpace (c ∷ s) h = rw h

-- Cutting the spaces behind a text keeps its first byte, if that is no space.
trim_left-snoc :
    (s : Bytes) (c : ℕ) → is_space c ≡ false → trim_left (s ++ (c ∷ [])) ≡ trim_left s ++ (c ∷ [])
unfolding trim_left
trim_left-snoc [] c h = rw h
trim_left-snoc (d ∷ s) c h = ground (arith, trim_left-snoc s c h)

trim_right-HasNoSpace : (s : Bytes) → HasNoSpace s → HasNoSpace (reverse (trim_left (reverse s)))
unfolding HasNoSpace
trim_right-HasNoSpace [] h = unfold trim_left in tt
trim_right-HasNoSpace (c ∷ s) h =
    rw
      (
        reverse-append (c ∷ []) s,
        trim_left-snoc (reverse s) c h,
        reverse-append (trim_left (reverse s)) (c ∷ []),
      )
      h

pub trim_space_idem : (s : Bytes) → trim_space (trim_space s) ≡ trim_space s
unfolding trim_space
trim_space_idem s =
    let front = trim_left s in
    let back = trim_left (reverse front) in
    rw (
      trim_left_of_HasNoSpace (reverse back) (trim_right-HasNoSpace front (trim_left-HasNoSpace s)),
      reverse-reverse back,
      trim_left_of_HasNoSpace back (trim_left-HasNoSpace (reverse front)),
    )
