-- ===== src/App/Prepare.antt =====
-- main.go, prepareDevices and appendDeviceWithAID: product ids, models and accessory ids.
pub mod Assigned
pub mod Supported
pub mod Settled
pub mod Kept
pub mod Again
use mgl03_homekit_bridge.Common.{
  ℕ, Bool, true, false, not, ◌&&◌, ◌||◌, Option, none, some, List, [], ◌∷◌, ◌++◌, contains,
  is_empty, leb, if◌then◌else◌,
}
use mgl03_homekit_bridge.Common.Int.{ℤ, pos, eq_ℤ}
use mgl03_homekit_bridge.Config.Device.{Device}
use mgl03_homekit_bridge.Openmiio.Products.{
  Product, lookup_product, lookup_product_by_model, product_id_sensor_hto2,
}
use mgl03_homekit_bridge.Bridge.Ids.{default_accessory_id}
use mgl03_homekit_bridge.App.Aids.{free_id}

-- The first block: a product id for a device that has none; the flag is `changed`.
unfoldable pub by_model : Option Product → Device → Device × Bool
by_model (some product) d = (record d { product_id = product.id }, true)
by_model none d =
    if is_empty d.model
    then (record d { product_id = product_id_sensor_hto2 }, true)
    else (d, false)

unfoldable pub fill_product : Device → Device × Bool
fill_product d =
    if eq_ℤ d.product_id (pos 0) then by_model (lookup_product_by_model d.model) d else (d, false)

-- The second block: a model for a device that has none.
unfoldable pub by_product : Option Product → Device → Device × Bool
by_product (some product) d = (record d { model = product.model }, true)
by_product none d = (d, false)

unfoldable pub fill_model : Device → Device × Bool
fill_model d = if is_empty d.model then by_product (lookup_product d.product_id) d else (d, false)

-- The third: an accessory id, given those that are used.
unfoldable pub fill_aid : List ℕ → Device → Device × Bool
fill_aid used d =
    if leb 2 d.aid && not (contains d.aid used)
    then (d, false)
    else (record d { aid = free_id (default_accessory_id d) used }, true)

-- One round of the loop.
unfoldable pub prepare_device : List ℕ → Device → Device × Bool
prepare_device used d =
    let (d1, changed1) = fill_product d in
    let (d2, changed2) = fill_model d1 in
    let (d3, changed3) = fill_aid used d2 in (d3, changed1 || (changed2 || changed3))

unfoldable pub prepare_loop : List ℕ → List Device → List Device × Bool
prepare_loop used [] = ([], false)
prepare_loop used (d ∷ ds) =
    let (d', changed) = prepare_device used d in
    let (rest, changed') = prepare_loop (d'.aid ∷ used) ds in (d' ∷ rest, changed || changed')

unfoldable pub prepare_devices : List Device → List Device × Bool
prepare_devices devices = prepare_loop [] devices

unfoldable pub append_device_with_aid : List Device → Device → List Device
append_device_with_aid devices device = (prepare_devices (devices ++ (device ∷ []))).0
