-- ===== src/Config/Pin/Valid.antt =====
-- Pairing codes: the generated ones are valid, and the printed form is read back.
use mgl03_homekit_bridge.Common.{
  ℕ, zero, suc, ◌+◌, ◌/◌, ◌%◌, ◌^◌, ◌≡◌, refl, ap, ◌∙◌, inl, inr, Bool, true, false, none, some,
  List, [], ◌∷◌, ◌++◌, Bytes, length, take, drop, take-append-drop, if◌then◌else◌, arith,
  Bool-cases, is_some,
}
use mgl03_homekit_bridge.Config.Pin.{
  is_digit, all_digits, invalid_pins, is_listed, rejected_pin, validate_pin, strip_pin, format_pin,
  decimal8, drawn_pin, generate_pin,
}

decimal_digit : (n : ℕ) → is_digit (b'0' + n % 10) ≡ true
unfolding is_digit
decimal_digit n = ground arith

decimal8_digits : (k n : ℕ) → (length (decimal8 k n) ≡ k) × (all_digits (decimal8 k n) ≡ true)
unfolding decimal8 all_digits
decimal8_digits zero n = (refl, refl)
decimal8_digits (suc k) n =
    let (size, digits) = decimal8_digits k n in
    (ap suc size, rw (decimal_digit (n / 10 ^ k), digits))

validate-drawn_pin :
    (n : ℕ)
    → validate_pin (drawn_pin n)
      ≡ (if is_listed (drawn_pin n) invalid_pins then some rejected_pin else none)
unfolding validate_pin drawn_pin
validate-drawn_pin n = let (size, digits) = decimal8_digits 8 (n % 100000000) in rw (size, digits)

-- Is some draw not one of the codes that HomeKit rejects?
abbrev pub has_usable : List ℕ → Bool
has_usable [] = false
has_usable (n ∷ draws) = if is_listed (drawn_pin n) invalid_pins then has_usable draws else true

generate_step :
    (n : ℕ) (draws : List ℕ)
    → generate_pin (n ∷ draws)
      ≡ (if is_listed (drawn_pin n) invalid_pins then generate_pin draws else some (drawn_pin n))
unfolding generate_pin
generate_step n draws = elim (Bool-cases (is_listed (drawn_pin n) invalid_pins)) [
  | inl listed ↦ ground (arith, validate-drawn_pin n, listed)
  | inr usable ↦ ground (arith, validate-drawn_pin n, usable)
]

-- generatePin returns as soon as the random source has drawn a number whose eight digits are not a
-- rejected code, and not before; what it returns is a valid code.
pub generate_pin_lem :
    (draws : List ℕ)
    → (is_some (generate_pin draws) ≡ has_usable draws)
      × ((elim (generate_pin draws) [ none ↦ none | some pin ↦ validate_pin pin ]) ≡ none)
generate_pin_lem [] = unfold generate_pin in (refl, refl)
generate_pin_lem (n ∷ draws) =
    let (returns, valid) = generate_pin_lem draws in
    elim (Bool-cases (is_listed (drawn_pin n) invalid_pins)) [
      | inl listed ↦ rw (generate_step n draws, listed) (returns, valid)
      | inr usable ↦ rw (generate_step n draws, usable) (refl, validate-drawn_pin n ∙ rw usable)
    ]

strip_pin-append : (s t : Bytes) → strip_pin (s ++ t) ≡ strip_pin s ++ strip_pin t
unfolding strip_pin
strip_pin-append [] t = refl
strip_pin-append (c ∷ s) t = ground (arith, strip_pin-append s t)

pub strip_pin_digits : (s : Bytes) → all_digits s ≡ true → strip_pin s ≡ s
unfolding strip_pin all_digits is_digit
strip_pin_digits [] h = refl
strip_pin_digits (c ∷ s) h = ground (arith, strip_pin_digits s)

all_digits-take : (n : ℕ) (s : Bytes) → all_digits s ≡ true → all_digits (take n s) ≡ true
unfolding all_digits
all_digits-take zero s h = refl
all_digits-take (suc n) [] h = refl
all_digits-take (suc n) (c ∷ s) h = ground (arith, all_digits-take n s)

all_digits-drop : (n : ℕ) (s : Bytes) → all_digits s ≡ true → all_digits (drop n s) ≡ true
unfolding all_digits
all_digits-drop zero s h = h
all_digits-drop (suc n) [] h = refl
all_digits-drop (suc n) (c ∷ s) h = ground (arith, all_digits-drop n s)

strip_dash : (s : Bytes) → strip_pin (b'-' ∷ s) ≡ strip_pin s
unfolding strip_pin
strip_dash s = refl

drop_five : (s : Bytes) → drop 5 s ≡ drop 2 (drop 3 s)
drop_five [] = refl
drop_five (a ∷ []) = refl
drop_five (a ∷ b ∷ []) = refl
drop_five (a ∷ b ∷ c ∷ s) = refl

-- The form with dashes that is shown to the user stands for the same code: read from the configuration,
-- every valid code comes back from it.
pub strip_pin-format_pin :
    (pin : Bytes) → validate_pin pin ≡ none → strip_pin (format_pin pin) ≡ pin
unfolding format_pin
strip_pin-format_pin pin h =
    let size : length pin ≡ 8 = unfold validate_pin in ground arith in
    let digits : all_digits pin ≡ true = unfold validate_pin in ground arith in
    let later = all_digits-drop 3 pin digits in
    rw (size, strip_pin-append, strip_dash, strip_pin-append, strip_dash)
      (rw
        (
          strip_pin_digits (take 3 pin) (all_digits-take 3 pin digits),
          strip_pin_digits (take 2 (drop 3 pin)) (all_digits-take 2 (drop 3 pin) later),
          strip_pin_digits (drop 5 pin) (all_digits-drop 5 pin digits),
          drop_five,
          take-append-drop 2 (drop 3 pin),
        )
        (take-append-drop 3 pin))
