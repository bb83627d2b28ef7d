-- ===== src/App/Merge/Owner.antt =====
-- The device that a report is of.
use mgl03_homekit_bridge.Common.{
  ℕ, zero, suc, ◌≡◌, ◌≢◌, ◌⊎◌, refl, inl, inr, true, not, ◌&&◌, Option, none, some, List, [], ◌∷◌,
  Bytes, is_empty, to_lower, equal_fold, eq_bytes, eq_bytes_iff, arith, All, Bool-cases,
  Option-cases,
}
use mgl03_homekit_bridge.Config.Device.{Device}
use mgl03_homekit_bridge.Openmiio.Types.{Update}
use mgl03_homekit_bridge.App.Merge.{is_match, find_device}

-- A report is of a device if both have the same MAC, up to the case of its letters, or the same DID.
abbrev pub IsOf : Update → Device → Type 0
IsOf u d =
    ((u.mac ≢ []) × (d.mac ≢ []) × (to_lower u.mac ≡ to_lower d.mac))
    ⊎ ((u.did ≢ []) × (d.did ≢ []) × (u.did ≡ d.did))

-- The device at a position is the first that a report is of.
abbrev pub IsOwner : List Device → Update → ℕ → Type 0
IsOwner [] u i = ⊥
IsOwner (d ∷ ds) u zero = IsOf u d
IsOwner (d ∷ ds) u (suc i) = ¬ IsOf u d × IsOwner ds u i

-- The owner of a report, or `none` if it is of no device.
abbrev pub IsTarget : List Device → Update → Option ℕ → Type 0
IsTarget ds u none = All (λ d. ¬ IsOf u d) ds
IsTarget ds u (some i) = IsOwner ds u i

filled : (s : Bytes) → not (is_empty s) ≡ true → s ≢ []
filled [] h = cc
filled (c ∷ s) h = λ e. absurd (cc e)

is_filled : (s : Bytes) → s ≢ [] → not (is_empty s) ≡ true
is_filled [] h = absurd (h refl)
is_filled (c ∷ s) h = refl

is_match-IsOf : (u : Update) (d : Device) → is_match u d ≡ true → IsOf u d
unfolding is_match equal_fold
is_match-IsOf u d h =
    elim (Bool-cases (
      not (is_empty u.mac)
      && (not (is_empty d.mac) && eq_bytes (to_lower u.mac) (to_lower d.mac)))) [
        | inl mac ↦ inl (
          filled u.mac (ground arith),
          filled d.mac (ground arith),
          (eq_bytes_iff (to_lower u.mac) (to_lower d.mac)).0 (ground arith),
        )
        | inr other ↦ inr (
          filled u.did (ground arith),
          filled d.did (ground arith),
          (eq_bytes_iff u.did d.did).0 (ground arith),
        )
      ]

IsOf-is_match : (u : Update) (d : Device) → IsOf u d → is_match u d ≡ true
unfolding is_match equal_fold
IsOf-is_match u d (inl (a, b, same)) = ground (
  arith,
  is_filled u.mac a,
  is_filled d.mac b,
  (eq_bytes_iff (to_lower u.mac) (to_lower d.mac)).1 same,
)
IsOf-is_match u d (inr (a, b, same)) =
    ground (arith, is_filled u.did a, is_filled d.did b, (eq_bytes_iff u.did d.did).1 same)

pub find_device-IsTarget : (ds : List Device) (u : Update) → IsTarget ds u (find_device ds u)
unfolding find_device
find_device-IsTarget [] u = tt
find_device-IsTarget (d ∷ ds) u = elim (Bool-cases (is_match u d)) [
  | inl here ↦ rw here (is_match-IsOf u d here)
  | inr other ↦
      let apart : ¬ IsOf u d = λ h. absurd (cc (IsOf-is_match u d h, other)) in
      let rest = find_device-IsTarget ds u in
      rw other (elim (Option-cases (find_device ds u)) [
        | inl e ↦ rw e (apart, rw e at rest)
        | inr (i, e) ↦ rw e (apart, rw e at rest)
      ])
]
