-- ===== src/Common/Int.antt =====
-- Signed integers over the native numbers, and Go's int64 arithmetic on them.
use mgl03_homekit_bridge.Common.Tests.{ltb, leb, if◌then◌else◌}
use Prim.Native.Nat.{ℕ, suc, ◌+◌, ◌-◌, ◌*◌, ◌%◌, ◌^◌, ◌≤◌, ◌<◌}
use mathlib.Core.Path.{◌≡◌}
use mathlib.Core.Bool.{Bool, ◌&&◌}
use native.Mathlib.Omega.{arith}

-- `negsuc n` is -(n + 1).
pub data ℤ : Type 0 where
  pos : ℕ → ℤ
  negsuc : ℕ → ℤ

abbrev pub pos_part : ℤ → ℕ
pos_part (pos n) = n
pos_part (negsuc n) = 0

abbrev pub neg_part : ℤ → ℕ
neg_part (pos n) = 0
neg_part (negsuc n) = suc n

-- a - b, as an integer.
abbrev pub sub_ℕ : ℕ → ℕ → ℤ
sub_ℕ a b = if leb b a then pos (a - b) else negsuc (b - a - 1)

infix 50 ◌≤ℤ◌ ◌<ℤ◌
abbrev pub ◌≤ℤ◌ : ℤ → ℤ → Type 0
a ≤ℤ b = pos_part a + neg_part b ≤ pos_part b + neg_part a

abbrev pub ◌<ℤ◌ : ℤ → ℤ → Type 0
a <ℤ b = pos_part a + neg_part b < pos_part b + neg_part a

abbrev pub ltb_ℤ : ℤ → ℤ → Bool
ltb_ℤ a b = ltb (pos_part a + neg_part b) (pos_part b + neg_part a)

abbrev pub leb_ℤ : ℤ → ℤ → Bool
leb_ℤ a b = leb (pos_part a + neg_part b) (pos_part b + neg_part a)

-- The int64 whose bits are those of `n`, and the bits of an integer.
abbrev pub of_bits64 : ℕ → ℤ
of_bits64 n = if ltb n (2 ^ 63) then pos n else negsuc (2 ^ 64 - 1 - n)

abbrev pub bits64 : ℤ → ℕ
bits64 (pos n) = n % 2 ^ 64
bits64 (negsuc n) = 2 ^ 64 - 1 - n % 2 ^ 64

-- An int64 operation wraps the exact result around.
abbrev pub wrap64 : ℤ → ℤ
wrap64 z = of_bits64 (bits64 z)

-- int64 `a - b`, `-a` and `a * 1_000_000_000` (a number of seconds as a time.Duration).
unfoldable pub sub64 : ℤ → ℤ → ℤ
sub64 a b = wrap64 (sub_ℕ (pos_part a + neg_part b) (neg_part a + pos_part b))

unfoldable pub neg64 : ℤ → ℤ
neg64 a = wrap64 (sub_ℕ (neg_part a) (pos_part a))

abbrev pub second : ℕ
second = 1_000_000_000

unfoldable pub seconds64 : ℤ → ℤ
seconds64 a = wrap64 (sub_ℕ (pos_part a * second) (neg_part a * second))

abbrev pub clamp64 : ℤ → ℤ
clamp64 (pos n) = if ltb n (2 ^ 63) then pos n else pos (2 ^ 63 - 1)
clamp64 (negsuc n) = if ltb n (2 ^ 63) then negsuc n else negsuc (2 ^ 63 - 1)

-- An integer that an int64 can hold.
abbrev pub IsInt64 : ℤ → Type 0
IsInt64 z = (pos_part z < 2 ^ 63) × (neg_part z ≤ 2 ^ 63)

-- Operations whose exact result fits do not wrap.
pub wrap64_of_IsInt64 : (z : ℤ) → IsInt64 z → wrap64 z ≡ z
wrap64_of_IsInt64 (pos n) h = ground arith
wrap64_of_IsInt64 (negsuc n) h = ground arith

abbrev pub eq_ℤ : ℤ → ℤ → Bool
eq_ℤ a b = leb_ℤ a b && leb_ℤ b a

-- time.Time.Sub of two instants in nanoseconds: the difference, saturated to an int64.
unfoldable pub sub_time : ℤ → ℤ → ℤ
sub_time a b = clamp64 (sub_ℕ (pos_part a + neg_part b) (neg_part a + pos_part b))
