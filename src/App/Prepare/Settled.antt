-- ===== src/App/Prepare/Settled.antt =====
-- What prepareDevices leaves alone.
use mgl03_homekit_bridge.Common.{
  ℕ, ◌≤◌, ◌<◌, ◌≡◌, refl, ◌⊎◌, inl, inr, false, not, ◌&&◌, none, List, [], ◌∷◌, contains, length,
  leb, is_empty, arith, All, Bool-cases, Option-cases,
}
use mgl03_homekit_bridge.Common.Int.{pos, eq_ℤ}
use mgl03_homekit_bridge.Config.Device.{Device}
use mgl03_homekit_bridge.Openmiio.Products.{lookup_product, lookup_product_by_model}
use mgl03_homekit_bridge.Openmiio.Products.Lookup.{product_of_model, model_of_product}
use mgl03_homekit_bridge.App.Aids.{last_id}
use mgl03_homekit_bridge.App.Prepare.{
  by_model, by_product, fill_product, fill_model, fill_aid, prepare_device, prepare_loop,
  prepare_devices,
}
use mgl03_homekit_bridge.App.Prepare.Assigned.{IsAssigned, prepare_devices-IsAssigned}

-- Neither of the first two blocks would change a device with this product and model.
abbrev pub IsNamed : Device → Type 0
IsNamed d =
    ((eq_ℤ d.product_id (pos 0) ≡ false)
      ⊎ ((is_empty d.model ≡ false) × (lookup_product_by_model d.model ≡ none)))
    × ((is_empty d.model ≡ false) ⊎ (lookup_product d.product_id ≡ none))

pub fill_product-IsNamed : (d : Device) → IsNamed d → fill_product d ≡ (d, false)
unfolding fill_product by_model
fill_product-IsNamed d (inl i, m) = rw i
fill_product-IsNamed d (inr (e, l), m) = ground arith

pub fill_model-IsNamed : (d : Device) → IsNamed d → fill_model d ≡ (d, false)
unfolding fill_model by_product
fill_model-IsNamed d (i, inl m) = rw m
fill_model-IsNamed d (i, inr l) = ground arith

-- The first block gives a product id, unless the model is unknown.
fill_product_lem :
    (d : Device)
    → let d' = (fill_product d).0 in
      (eq_ℤ d'.product_id (pos 0) ≡ false)
      ⊎ ((is_empty d'.model ≡ false) × (lookup_product_by_model d'.model ≡ none))
unfolding fill_product
fill_product_lem d = elim (Bool-cases (eq_ℤ d.product_id (pos 0))) [
  | inr known ↦ rw known (inl known)
  | inl unset ↦ elim (Option-cases (lookup_product_by_model d.model)) [
    | inr (p, e) ↦ rw (unset, e) (unfold by_model in inl (product_of_model d.model e))
    | inl e ↦
        rw (unset, e)
          (unfold by_model in
            elim (Bool-cases (is_empty d.model)) [
              | inl bare ↦ rw bare (inl refl)
              | inr full ↦ rw full (inr (full, e))
            ])
  ]
]

-- The second gives a model, unless the product is unknown, and keeps the product id.
fill_model_lem :
    (d : Device)
    → ((eq_ℤ d.product_id (pos 0) ≡ false)
        ⊎ ((is_empty d.model ≡ false) × (lookup_product_by_model d.model ≡ none)))
    → IsNamed (fill_model d).0
unfolding fill_model
fill_model_lem d i = elim (Bool-cases (is_empty d.model)) [
  | inr full ↦ rw full (i, inl full)
  | inl bare ↦ elim (Option-cases (lookup_product d.product_id)) [
    | inl e ↦ rw (bare, e) (unfold by_product in (i, inr e))
    | inr (p, e) ↦
        let known : eq_ℤ d.product_id (pos 0) ≡ false = ground arith in
        rw (bare, e) (unfold by_product in (inl known, inl (model_of_product d.product_id e)))
  ]
]

-- The third changes nothing but the id, and not a free one.
fill_aid-IsNamed : (used : List ℕ) (d : Device) → IsNamed d → IsNamed (fill_aid used d).0
unfolding fill_aid
fill_aid-IsNamed used d h = elim (Bool-cases (leb 2 d.aid && not (contains d.aid used))) [
  | inl keep ↦ rw keep h
  | inr search_on ↦ rw search_on h
]

pub fill_aid_keep :
    (used : List ℕ) (d : Device)
    → 2 ≤ d.aid
    → contains d.aid used ≡ false
    → fill_aid used d ≡ (d, false)
unfolding fill_aid
fill_aid_keep used d lo fresh = rw fresh (ground arith)

pub prepare_loop_settled :
    (ds : List Device) (used : List ℕ)
    → All IsNamed ds
    → IsAssigned used ds
    → prepare_loop used ds ≡ (ds, false)
unfolding prepare_loop prepare_device
prepare_loop_settled [] used n a = refl
prepare_loop_settled (d ∷ ds) used (n, ns) (lo, fresh, a) =
    rw (fill_product-IsNamed d n, fill_model-IsNamed d n, fill_aid_keep used d lo fresh)
      (rw (prepare_loop_settled ds (d.aid ∷ used) ns a))

pub prepare_loop-IsNamed : (ds : List Device) (used : List ℕ) → All IsNamed (prepare_loop used ds).0
unfolding prepare_loop prepare_device
prepare_loop-IsNamed [] used = tt
prepare_loop-IsNamed (d ∷ ds) used =
    let d2 = (fill_model (fill_product d).0).0 in
    (
      fill_aid-IsNamed used d2 (fill_model_lem (fill_product d).0 (fill_product_lem d)),
      prepare_loop-IsNamed ds ((fill_aid used d2).0.aid ∷ used),
    )

-- Preparing again, as every restart does with the saved registry, changes nothing and says so.
pub prepare_devices_idem :
    (ds : List Device)
    → length ds < last_id
    → prepare_devices (prepare_devices ds).0 ≡ ((prepare_devices ds).0, false)
unfolding prepare_devices
prepare_devices_idem ds room =
    prepare_loop_settled (prepare_loop [] ds).0 [] (prepare_loop-IsNamed ds [])
      (unfold prepare_devices in prepare_devices-IsAssigned ds room)
