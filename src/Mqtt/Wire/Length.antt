-- ===== src/Mqtt/Wire/Length.antt =====
-- Remaining lengths are read back as they were written.
use mgl03_homekit_bridge.Common.{
  ℕ, zero, suc, ◌+◌, ◌*◌, ◌/◌, ◌%◌, ◌^◌, ◌≤◌, ◌<◌, ◌≡◌, ap, ◌∙◌, [], ◌∷◌, ◌++◌, Bytes, ok, length,
  arith, All,
}
use native.Mathlib.Nat.{div-add-mod, pow-suc}
use native.Mathlib.Decide.{dec_lt}
use mgl03_homekit_bridge.Mqtt.Wire.{
  encode_loop, encode_remaining_length, decode_loop, decode_remaining_length,
}

-- One round on a byte with the top bit set, and on a last byte.
decode_more :
    (k g m v : ℕ) (r : Bytes)
    → g < 128
    → decode_loop (suc k) m v ((g + 128) ∷ r) ≡ decode_loop k (m * 128) (v + g * m) r
unfolding decode_loop
decode_more k g m v r h = ground arith

decode_last :
    (k g m v : ℕ) (r : Bytes) → g < 128 → decode_loop (suc k) m v (g ∷ r) ≡ ok (v + g * m, r)
unfolding decode_loop
decode_last k g m v r h = ground arith

split_group : (n m : ℕ) → n % 128 * m + n / 128 * (m * 128) ≡ n * m
split_group n m = omega (arith, ap (λ (t : ℕ). t * m) (div-add-mod n 128))

encode_more :
    (fuel n : ℕ) → 128 ≤ n → encode_loop (suc fuel) n ≡ (n % 128 + 128) ∷ encode_loop fuel (n / 128)
unfolding encode_loop
encode_more fuel n h = ground arith

encode_last : (fuel n : ℕ) → n < 128 → encode_loop (suc fuel) n ≡ n ∷ []
unfolding encode_loop
encode_last fuel n h = ground arith

-- With `suc k` rounds left at `multiplier`, a number below 128 ^ suc k is read back.
decode_loop-encode_loop :
    (k fuel n multiplier value : ℕ) (rest : Bytes)
    → n < 128 ^ suc k
    → n < fuel
    → decode_loop (suc k) multiplier value (encode_loop fuel n ++ rest)
      ≡ ok (value + n * multiplier, rest)
decode_loop-encode_loop k zero n m v rest h lt = absurd (omega arith)
decode_loop-encode_loop zero (suc fuel) n m v rest h lt =
    let small : n < 128 = omega arith in
    rw (encode_last fuel n small) (decode_last zero n m v rest small)
decode_loop-encode_loop (suc k) (suc fuel) n m v rest h lt = elim (dec_lt n 128) [
  | yes small ↦ rw (encode_last fuel n small) (decode_last (suc k) n m v rest small)
  | no big ↦
      rw (encode_more fuel n (omega arith), decode_more (suc k) (n % 128) m v _ (omega arith))
        (decode_loop-encode_loop k fuel (n / 128) (m * 128) (v + n % 128 * m) rest
            (omega (arith, pow-suc 128 (suc k))) (omega arith)
          ∙ ap (λ (t : ℕ). ok (t, rest)) (omega (arith, split_group n m)))
]

-- Every length below 128^4, so every legal one, is read back as it was written, and what follows it
-- is left.
pub decode-encode_remaining_length :
    (n : ℕ) (rest : Bytes)
    → n < 128 ^ 4
    → decode_remaining_length (encode_remaining_length n ++ rest) ≡ ok (n, rest)
unfolding decode_remaining_length encode_remaining_length
decode-encode_remaining_length n rest h =
    decode_loop-encode_loop 3 (suc n) n 1 0 rest h (omega arith)
    ∙ ap (λ (t : ℕ). ok (t, rest)) (omega arith)

encode_loop-length :
    (k fuel n : ℕ)
    → n < 128 ^ suc k
    → n < fuel
    → (1 ≤ length (encode_loop fuel n))
      × (length (encode_loop fuel n) ≤ suc k)
      × All (λ b. b < 256) (encode_loop fuel n)
encode_loop-length k zero n h lt = absurd (omega arith)
encode_loop-length zero (suc fuel) n h lt =
    let small : n < 128 = omega arith in rw (encode_last fuel n small) (omega arith)
encode_loop-length (suc k) (suc fuel) n h lt = elim (dec_lt n 128) [
  | yes small ↦ rw (encode_last fuel n small) (omega arith)
  | no big ↦
      let (lo, hi, bytes) =
        encode_loop-length k fuel (n / 128) (omega (arith, pow-suc 128 (suc k))) (omega arith) in
      rw (encode_more fuel n (omega arith)) (omega arith, omega arith, (omega arith, bytes))
]

-- A length below 128^4 is written in one to four bytes.
pub encode_remaining_length-length :
    (n : ℕ)
    → n < 128 ^ 4
    → (1 ≤ length (encode_remaining_length n))
      × (length (encode_remaining_length n) ≤ 4)
      × All (λ b. b < 256) (encode_remaining_length n)
unfolding encode_remaining_length
encode_remaining_length-length n h = encode_loop-length 3 (suc n) n h (omega arith)

group_le : (g m : ℕ) → g < 128 → g * m + m ≤ 128 * m
group_le g m h = grind arith

power_step : (k m : ℕ) → m * 128 ^ suc k ≡ m * 128 * 128 ^ k
power_step k m = omega (arith, ap (λ (t : ℕ). m * t) (pow-suc 128 k))

power_ge : (k m : ℕ) → m ≤ m * 128 ^ k
power_ge zero m = omega arith
power_ge (suc k) m = omega (arith, power_step k m, power_ge k (m * 128))

decode_loop-bounds :
    (k m v n : ℕ) (r rest : Bytes)
    → decode_loop k m v r ≡ ok (n, rest)
    → (n + m ≤ v + m * 128 ^ k) × (length rest < length r) × (length r ≤ length rest + k)
unfolding decode_loop
decode_loop-bounds zero m v n r rest e = cc
decode_loop-bounds (suc k) m v n [] rest e = cc
decode_loop-bounds (suc k) m v n (b ∷ r) rest e =
    let g = b % 128 in
    let small = group_le g m (omega arith) in
    let step = power_step k m in
    let room = power_ge k (m * 128) in
    ground (arith, small, step, room, decode_loop-bounds k (m * 128) (v + g * m) n r rest)

-- Whatever the stream holds, a length that is read is below 128^4 and took one to four bytes.
pub decode_remaining_length_bounds :
    (r rest : Bytes) (n : ℕ)
    → decode_remaining_length r ≡ ok (n, rest)
    → (n < 128 ^ 4) × (length rest < length r) × (length r ≤ length rest + 4)
unfolding decode_remaining_length
decode_remaining_length_bounds r rest n e = omega (arith, decode_loop-bounds 4 1 0 n r rest e)
