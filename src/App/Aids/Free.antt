-- ===== src/App/Aids/Free.antt =====
-- The search for an accessory id ends with a free one.
use mgl03_homekit_bridge.Common.{
  ℕ, zero, suc, ◌+◌, ◌-◌, ◌≤◌, ◌<◌, ◌≡◌, ◌≢◌, ◌⊎◌, inl, inr, refl, true, false, List, [], ◌∷◌,
  contains, length, ◌==◌, if◌then◌else◌, arith, All, Bool-cases,
}
use mgl03_homekit_bridge.App.Aids.{last_id, next_id, free_loop, free_id}

-- The candidates that the loop looks at.
visited : ℕ → ℕ → List ℕ
visited zero c = []
visited (suc n) c = c ∷ visited n (next_id c)

length-visited : (n c : ℕ) → length (visited n c) ≡ n
unfolding visited
length-visited zero c = refl
length-visited (suc n) c = omega (arith, length-visited n (next_id c))

-- From `c` on the candidates climb to the last id and go on from 2.
visited_range :
    (n c x : ℕ)
    → 2 ≤ c
    → c ≤ last_id
    → contains x (visited n c) ≡ true
    → ((c ≤ x) × (x < c + n) × (x ≤ last_id)) ⊎ ((2 ≤ x) × (x + (last_id + 1 - c) < 2 + n))
unfolding visited next_id
visited_range zero c x lo hi h = cc
visited_range (suc n) c x lo hi h = ground (arith, visited_range n (c + 1) x, visited_range n 2 x)

abbrev Distinct : List ℕ → Type 0
Distinct [] = Unit
Distinct (x ∷ xs) = (contains x xs ≡ false) × Distinct xs

visited_fresh : (n c : ℕ) → 2 ≤ c → suc n < last_id → contains c (visited n (next_id c)) ≡ false
unfolding next_id
visited_fresh n c lo h = elim (Bool-cases (contains c (visited n (next_id c)))) [
  | inr fresh ↦ fresh
  | inl again ↦ absurd (ground (arith, visited_range n (c + 1) c, visited_range n 2 c))
]

next_id_bounds : (c : ℕ) → 2 ≤ c → 2 ≤ next_id c
unfolding next_id
next_id_bounds c lo = ground arith

visited-Distinct : (n c : ℕ) → 2 ≤ c → n < last_id → Distinct (visited n c)
unfolding visited
visited-Distinct zero c lo h = tt
visited-Distinct (suc n) c lo h =
    (visited_fresh n c lo h, visited-Distinct n (next_id c) (next_id_bounds c lo) (omega arith))

-- Distinct numbers of a list are no more than the list has.
remove : ℕ → List ℕ → List ℕ
remove x [] = []
remove x (y ∷ ys) = if x == y then ys else y ∷ remove x ys

length-remove :
    (x : ℕ) (ys : List ℕ) → contains x ys ≡ true → suc (length (remove x ys)) ≡ length ys
unfolding remove
length-remove x [] h = cc
length-remove x (y ∷ ys) h = ground (arith, length-remove x ys)

contains-remove :
    (x z : ℕ) (ys : List ℕ) → z ≢ x → contains z ys ≡ true → contains z (remove x ys) ≡ true
unfolding remove
contains-remove x z [] ne h = cc
contains-remove x z (y ∷ ys) ne h = ground (arith, contains-remove x z ys)

abbrev AllIn : List ℕ → List ℕ → Type 0
AllIn ys = All (λ x. contains x ys ≡ true)

AllIn-remove :
    (x : ℕ) (xs ys : List ℕ) → contains x xs ≡ false → AllIn ys xs → AllIn (remove x ys) xs
AllIn-remove x [] ys h a = tt
AllIn-remove x (z ∷ xs) ys h (p, a) =
    (contains-remove x z ys (ground arith) p, AllIn-remove x xs ys (ground arith) a)

pigeonhole : (xs ys : List ℕ) → Distinct xs → AllIn ys xs → length xs ≤ length ys
pigeonhole [] ys d a = omega arith
pigeonhole (x ∷ xs) ys (fresh, d) (p, a) =
    omega
      (arith, length-remove x ys p, pigeonhole xs (remove x ys) d (AllIn-remove x xs ys fresh a))

-- A loop that ends on a used id has looked only at used ones.
free_loop_used :
    (n c : ℕ) (used : List ℕ)
    → 2 ≤ c
    → contains (free_loop n c used) used ≡ true
    → AllIn used (visited n c)
unfolding free_loop visited
free_loop_used zero c used lo h = tt
free_loop_used (suc n) c used lo h = elim (Bool-cases (contains c used)) [
  | inl taken ↦ (taken, free_loop_used n (next_id c) used (next_id_bounds c lo) (ground arith))
  | inr free ↦ absurd (ground arith)
]

free_loop-ge : (n c : ℕ) (used : List ℕ) → 2 ≤ c → 2 ≤ free_loop n c used
unfolding free_loop
free_loop-ge zero c used lo = lo
free_loop-ge (suc n) c used lo =
    ground (arith, free_loop-ge n (next_id c) used (next_id_bounds c lo))

-- From any start above the reserved ids, and with fewer used ids than there are, the search ends with an
-- id that is neither reserved nor used: its fuel does not run out.
pub free_id_lem :
    (c : ℕ) (used : List ℕ)
    → 2 ≤ c
    → suc (length used) < last_id
    → (2 ≤ free_id c used) × (contains (free_id c used) used ≡ false)
unfolding free_id
free_id_lem c used lo room =
    let n = suc (length used) in
    (
      free_loop-ge n c used lo,
      elim (Bool-cases (contains (free_loop n c used) used)) [
        | inr free ↦ free
        | inl taken ↦ absurd (
            omega (
              arith,
              pigeonhole (visited n c) used (visited-Distinct n c lo room)
                  (free_loop_used n c used lo taken),
              length-visited n c,
            ))
      ],
    )
