-- ===== src/App/Home/Calls.antt =====
-- The calls of Apply of one accessory.
use mgl03_homekit_bridge.Common.{
  ℕ, ◌≡◌, ◌⊎◌, refl, ap, inl, inr, Option, none, some, List, ◌++◌, [], ◌∷◌, ◌==◌, if◌then◌else◌,
  Bool-cases,
}
use mgl03_homekit_bridge.Openmiio.Types.{Update}
use mgl03_homekit_bridge.Openmiio.Dedup.{FrameDisposition, accepted, duplicate, stale}
use mgl03_homekit_bridge.Bridge.Toothbrush.{Toothbrush, Now, apply}
use mgl03_homekit_bridge.Bridge.Toothbrush.System.{System}
use mgl03_homekit_bridge.Bridge.Toothbrush.System as Brush
use mgl03_homekit_bridge.App.Updates.{Effect, apply_to, save_measurements, save_registry}
use mgl03_homekit_bridge.App.Updates.Rules.{applied, recipients, starts_session}
use mgl03_homekit_bridge.App.Home.{told, apply_at}

-- Only the calls of Apply matter.
abbrev pub apply_each : ℕ → Now → List (ℕ × Update) → Toothbrush → Toothbrush
apply_each i now [] t = t
apply_each i now ((j, u) ∷ us) t = apply_each i now us (if j == i then apply u now t else t)

pub apply_at-applied :
    (i : ℕ) (now : Now) (es : List Effect) (t : Toothbrush)
    → apply_at i now es t ≡ apply_each i now (applied es) t
unfolding apply_at
apply_at-applied i now [] t = refl
apply_at-applied i now (apply_to j u ∷ es) t =
    apply_at-applied i now es (if j == i then apply u now t else t)
apply_at-applied i now (save_measurements ms ∷ es) t = apply_at-applied i now es t
apply_at-applied i now (save_registry ds ∷ es) t = apply_at-applied i now es t

-- The reports for the position.
abbrev pub at_position : ℕ → List (ℕ × Update) → List Update
at_position i [] = []
at_position i ((j, u) ∷ us) = if j == i then u ∷ at_position i us else at_position i us

pub at_position-append :
    (i : ℕ) (xs ys : List (ℕ × Update))
    → at_position i (xs ++ ys) ≡ at_position i xs ++ at_position i ys
at_position-append i [] ys = refl
at_position-append i ((j, u) ∷ xs) ys = elim (Bool-cases (j == i)) [
  | inl e ↦ rw e (ap (λ (us : List Update). u ∷ us) (at_position-append i xs ys))
  | inr e ↦ rw e (at_position-append i xs ys)
]

-- One round calls Apply of the accessory once or not at all.
abbrev pub IsOneCall : ℕ → Now → List (ℕ × Update) → Update → Toothbrush → Type 0
IsOneCall i now to u t =
    ((apply_each i now to t ≡ t) × (at_position i to ≡ []))
    ⊎ ((apply_each i now to t ≡ apply u now t) × (at_position i to ≡ u ∷ []))

handed-IsOneCall :
    (i : ℕ) (now : Now) (j : ℕ) (u : Update) (t : Toothbrush) → IsOneCall i now ((j, u) ∷ []) u t
handed-IsOneCall i now j u t = elim (Bool-cases (j == i)) [
  | inl e ↦ inr (rw e (refl, refl))
  | inr e ↦ inl (rw e (refl, refl))
]

pub recipients-IsOneCall :
    (i : ℕ) (now : Now) (disposition : FrameDisposition) (target : Option ℕ) (u : Update)
    (t : Toothbrush)
    → IsOneCall i now (recipients disposition target u) u t
recipients-IsOneCall i now stale target u t = inl (refl, refl)
recipients-IsOneCall i now accepted none u t = inl (refl, refl)
recipients-IsOneCall i now accepted (some j) u t = handed-IsOneCall i now j u t
recipients-IsOneCall i now duplicate none u t = elim (Bool-cases (starts_session u.toothbrush)) [
  | inl e ↦ inl (rw e (refl, refl))
  | inr e ↦ inl (rw e (refl, refl))
]
recipients-IsOneCall i now duplicate (some j) u t =
    elim (Bool-cases (starts_session u.toothbrush)) [
      | inl e ↦ rw e (handed-IsOneCall i now j u t)
      | inr e ↦ inl (rw e (refl, refl))
    ]

-- The reports of an accessory on its own, in their order.
abbrev pub reported : {s : System} {n : ℕ} {t : System} → Brush.Reach s n t → List Update
reported Brush.here = []
reported (Brush.next p st) = reported p ++ told st
