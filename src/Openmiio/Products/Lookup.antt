-- ===== src/Openmiio/Products/Lookup.antt =====
-- What a lookup in the product registry finds.
use mgl03_homekit_bridge.Common.{◌≡◌, false, some, Bytes, is_empty, arith}
use mgl03_homekit_bridge.Common.Int.{ℤ, pos, eq_ℤ}
use mgl03_homekit_bridge.Openmiio.Products.{
  Product, find_product, find_model, lookup_product, lookup_product_by_model,
}

pub product_of_model :
    (m : Bytes) {p : Product} → lookup_product_by_model m ≡ some p → eq_ℤ p.id (pos 0) ≡ false
unfolding lookup_product_by_model find_model
product_of_model m h = ground arith

pub model_of_product : (i : ℤ) {p : Product} → lookup_product i ≡ some p → is_empty p.model ≡ false
unfolding lookup_product find_product
model_of_product i h = ground arith
