-- ===== src/App/Prepare/Again.antt =====
-- Preparing a list of devices in two parts.
use mgl03_homekit_bridge.Common.{
  ℕ, ◌+◌, ◌≡◌, refl, ap, sym, List, [], ◌∷◌, ◌++◌, Bytes, length, arith,
}
use mgl03_homekit_bridge.Config.Device.{Device}
use mgl03_homekit_bridge.App.Merge.Again.{AreSame}
use mgl03_homekit_bridge.App.Prepare.{prepare_device, prepare_loop}
use mgl03_homekit_bridge.App.Prepare.Kept.{identity-prepare_device}

-- The ids that are used after some devices.
unfoldable pub used_after : List ℕ → List Device → List ℕ
used_after used [] = used
used_after used (d ∷ ds) = used_after ((prepare_device used d).0.aid ∷ used) ds

pub length-used_after :
    (ds : List Device) (used : List ℕ) → length (used_after used ds) ≡ length ds + length used
unfolding used_after
length-used_after [] used = omega arith
length-used_after (d ∷ ds) used =
    omega (arith, length-used_after ds ((prepare_device used d).0.aid ∷ used))

pub prepare_loop-parts :
    (ds es : List Device) (used : List ℕ)
    → (prepare_loop used (ds ++ es)).0
      ≡ (prepare_loop used ds).0 ++ (prepare_loop (used_after used ds) es).0
unfolding prepare_loop used_after
prepare_loop-parts [] es used = refl
prepare_loop-parts (d ∷ ds) es used =
    ap (λ (r : List Device). (prepare_device used d).0 ∷ r)
      (prepare_loop-parts ds es ((prepare_device used d).0.aid ∷ used))

pub prepare_loop-AreSame : (ds : List Device) (used : List ℕ) → AreSame ds (prepare_loop used ds).0
unfolding prepare_loop
prepare_loop-AreSame [] used = tt
prepare_loop-AreSame (d ∷ ds) used =
    let same = identity-prepare_device used d in
    (
      sym (ap (λ (i : Bytes × Bytes × Bytes). i.1) same),
      sym (ap (λ (i : Bytes × Bytes × Bytes). i.2) same),
      prepare_loop-AreSame ds ((prepare_device used d).0.aid ∷ used),
    )
