-- ===== src/App/Updates/Replay.antt =====
-- The reports that discovery kept reach their accessories.
use mgl03_homekit_bridge.Common.{
  ℕ, ◌≡◌, refl, ap, ◌∙◌, inl, inr, true, List, [], ◌∷◌, ◌++◌, Bytes, is_some, All, All-append,
  Option-cases,
}
use mgl03_homekit_bridge.Common.Int.{ℤ}
use mgl03_homekit_bridge.Openmiio.Types.{FloatOps, Update}
use mgl03_homekit_bridge.Config.Device.{Device}
use mgl03_homekit_bridge.App.Merge.{find_device}
use mgl03_homekit_bridge.App.Merge.Owner.{IsOwner, find_device-IsTarget}
use mgl03_homekit_bridge.App.Updates.{Runtime, match_accessory, persist, replay_one, replay_initial}
use mgl03_homekit_bridge.App.Updates.Rules.{applied, applied-append, applied-persist}

-- Every one of the reports has a device that takes it.
abbrev pub HasTakers : List Device → List (Bytes × Update) → Type 0
HasTakers ds kept = All (λ e. is_some (find_device ds e.1) ≡ true) kept

-- Each report is given to the first device that it is of.
abbrev pub AreOwners : List Device → List (ℕ × Update) → Type 0
AreOwners ds calls = All (λ e. IsOwner ds e.1 e.0) calls

-- The reports alone.
abbrev pub reports {ℓ} : {A : Type ℓ} → List (A × Update) → List Update
reports [] = []
reports ((a, u) ∷ rest) = u ∷ reports rest

reports-append {ℓ} :
    {A : Type ℓ} (xs ys : List (A × Update)) → reports (xs ++ ys) ≡ reports xs ++ reports ys
reports-append [] ys = refl
reports-append ((a, u) ∷ xs) ys = ap (λ (r : List Update). u ∷ r) (reports-append xs ys)

module _ (numbered : Bytes → ℕ → Bytes) (fl : FloatOps) where
  replay_one_lem :
      (u : Update) (unix : ℤ) (rt : Runtime)
      → is_some (match_accessory rt u) ≡ true
      → let after = replay_one numbered fl (match_accessory rt u) u unix rt in
        (reports (applied after.1) ≡ u ∷ [])
        × AreOwners rt.exposed (applied after.1)
        × (after.0.exposed ≡ rt.exposed)
  unfolding replay_one match_accessory
  replay_one_lem u unix rt h = elim (Option-cases (find_device rt.exposed u)) [
    | inl e ↦ absurd (cc (e, h))
    | inr (i, e) ↦
        let owner = rw e at (find_device-IsTarget rt.exposed u) in
        rw e
          (rw (applied-persist numbered fl u unix rt) (refl, (owner, tt), unfold persist in refl))
  ]

  -- When each report that discovery kept has an accessory, each is applied to its own exactly once, in the
  -- order in which the map gives them.
  pub reports-replay_initial :
      (unix : ℤ) (kept : List (Bytes × Update)) (rt : Runtime)
      → HasTakers rt.exposed kept
      → let calls = applied (replay_initial numbered fl unix kept rt).1 in
        (reports calls ≡ reports kept) × AreOwners rt.exposed calls
  unfolding replay_initial match_accessory
  reports-replay_initial unix [] rt h = (refl, tt)
  reports-replay_initial unix ((k, u) ∷ rest) rt (h, hs) =
      let one = replay_one numbered fl (match_accessory rt u) u unix rt in
      let later = replay_initial numbered fl unix rest one.0 in
      let (same, owner, kept) = replay_one_lem u unix rt (unfold match_accessory in h) in
      let (rest_same, rest_owners) = reports-replay_initial unix rest one.0 (rw kept hs) in
      (
        ap reports (applied-append one.1 later.1)
            ∙ reports-append (applied one.1) (applied later.1)
            ∙ rw same (ap (λ (r : List Update). u ∷ r) rest_same),
        rw (applied-append one.1 later.1) (
            All-append (λ e. IsOwner rt.exposed e.1 e.0) (applied one.1) (applied later.1) owner
              (rw kept at rest_owners)),
      )
