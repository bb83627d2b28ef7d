-- ===== src/App/Prepare/Supported.antt =====
-- Preparing leaves the supported products as they are.
use mgl03_homekit_bridge.Common.{ℕ, ◌≡◌, true, false, List, [], ◌∷◌, arith, All}
use mgl03_homekit_bridge.Common.Int.{ℤ, pos, eq_ℤ}
use mgl03_homekit_bridge.Config.Device.{Device}
use mgl03_homekit_bridge.Openmiio.Products.{lookup_product, supported_product}
use mgl03_homekit_bridge.App.Prepare.{
  by_product, fill_product, fill_model, fill_aid, prepare_device, prepare_loop,
}

abbrev pub IsSupported : Device → Type 0
IsSupported d = supported_product d.product_id ≡ true

-- A supported product is not 0, so preparing leaves it.
supported_not_zero : (i : ℤ) → supported_product i ≡ true → eq_ℤ i (pos 0) ≡ false
unfolding supported_product lookup_product
supported_not_zero (pos n) h = ground arith
supported_not_zero (ℤ.negsuc n) h = ground arith

prepare_device-IsSupported :
    (used : List ℕ) (d : Device) → IsSupported d → IsSupported (prepare_device used d).0
unfolding prepare_device fill_product fill_model fill_aid by_product
prepare_device-IsSupported used d h = rw (supported_not_zero d.product_id h) (ground arith)

pub prepare_loop-IsSupported :
    (used : List ℕ) (ds : List Device)
    → All IsSupported ds
    → All IsSupported (prepare_loop used ds).0
unfolding prepare_loop
prepare_loop-IsSupported used [] h = tt
prepare_loop-IsSupported used (d ∷ ds) (h, hs) = (
  prepare_device-IsSupported used d h,
  prepare_loop-IsSupported ((prepare_device used d).0.aid ∷ used) ds hs,
)
