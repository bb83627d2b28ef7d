-- ===== src/Mqtt/Backoff/Bounds.antt =====
-- The waits of Run are bounded powers of two, and start again after a long connection.
use mgl03_homekit_bridge.Common.{
  ℕ, zero, suc, ◌*◌, ◌≤◌, ◌≡◌, refl, ap, inl, inr, Bool-cases, All, List, [], ◌∷◌, arith, ltb, leb,
  if◌then◌else◌,
}
use mgl03_homekit_bridge.Mqtt.Backoff.{second, next_backoff, waits, run_waits}

-- The wait after the k-th short connection in a row is 2^min(k, 5) seconds.
abbrev pub step_wait : ℕ → ℕ
step_wait zero = second
step_wait (suc zero) = 2 * second
step_wait (suc (suc zero)) = 4 * second
step_wait (suc (suc (suc zero))) = 8 * second
step_wait (suc (suc (suc (suc zero)))) = 16 * second
step_wait (suc (suc (suc (suc (suc k))))) = 32 * second

-- `k` counts the connections since the last one that lasted a minute.
abbrev pub expected_waits : ℕ → List ℕ → List ℕ
expected_waits k [] = []
expected_waits k (lasted ∷ rest) =
    let here = if leb (60 * second) lasted then 0 else k in
    step_wait here ∷ expected_waits (suc here) rest

doubled :
    (k : ℕ)
    → (if ltb (step_wait k) (30 * second) then step_wait k * 2 else step_wait k) ≡ step_wait (suc k)
doubled zero = refl
doubled (suc zero) = refl
doubled (suc (suc zero)) = refl
doubled (suc (suc (suc zero))) = refl
doubled (suc (suc (suc (suc zero)))) = refl
doubled (suc (suc (suc (suc (suc k))))) = refl

pub next_backoff-step_wait :
    (k lasted : ℕ)
    → let here = if leb (60 * second) lasted then 0 else k in
      next_backoff (step_wait k) lasted ≡ (step_wait here, step_wait (suc here))
unfolding next_backoff
next_backoff-step_wait k lasted = elim (Bool-cases (leb (60 * second) lasted)) [
  | inl long ↦ rw long
  | inr short ↦ rw short (ap (λ (w : ℕ). (step_wait k, w)) (doubled k))
]

waits-expected_waits :
    (lasted : List ℕ) (k : ℕ) → waits (step_wait k) lasted ≡ expected_waits k lasted
unfolding waits
waits-expected_waits [] k = refl
waits-expected_waits (x ∷ rest) k =
    let here = if leb (60 * second) x then 0 else k in
    rw (next_backoff-step_wait k x)
      (ap (λ r. step_wait here ∷ r) (waits-expected_waits rest (suc here)))

step_wait_bounds : (k : ℕ) → (second ≤ step_wait k) × (step_wait k ≤ 32 * second)
step_wait_bounds zero = omega arith
step_wait_bounds (suc zero) = omega arith
step_wait_bounds (suc (suc zero)) = omega arith
step_wait_bounds (suc (suc (suc zero))) = omega arith
step_wait_bounds (suc (suc (suc (suc zero)))) = omega arith
step_wait_bounds (suc (suc (suc (suc (suc k))))) = omega arith

pub expected_waits_bounds :
    (lasted : List ℕ) (k : ℕ)
    → All (λ w. (second ≤ w) × (w ≤ 32 * second)) (expected_waits k lasted)
expected_waits_bounds [] k = tt
expected_waits_bounds (x ∷ rest) k =
    let here = if leb (60 * second) x then 0 else k in
    (step_wait_bounds here, expected_waits_bounds rest (suc here))

-- The client waits 1, 2, 4, 8, 16 and then 32 seconds between its connections, and starts again with
-- one second after each connection that lasted a minute; no wait is shorter than a second or longer
-- than 32.
pub run_waits_lem :
    (lasted : List ℕ)
    → (run_waits lasted ≡ expected_waits 0 lasted)
      × All (λ w. (second ≤ w) × (w ≤ 32 * second)) (run_waits lasted)
unfolding run_waits
run_waits_lem lasted =
    let same = waits-expected_waits lasted 0 in (same, rw same (expected_waits_bounds lasted 0))
