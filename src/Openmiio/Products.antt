-- ===== src/Openmiio/Products.antt =====
-- products.go: the registry of supported products.
pub mod Lookup
use mgl03_homekit_bridge.Common.{
  Bool, Option, none, some, List, [], ◌∷◌, Bytes, codes, eq_bytes, is_some, if◌then◌else◌,
}
use mgl03_homekit_bridge.Common.Int.{ℤ, pos, eq_ℤ}
use mgl03_homekit_bridge.Openmiio.Types.{
  ProductKind, climate, toothbrush, FloatOps, BleEvent, Update,
}
use mgl03_homekit_bridge.Openmiio.Decoders.{Progress, decode_sensor_hto2, decode_toothbrush_t700i}

abbrev pub product_id_sensor_hto2 : ℤ
product_id_sensor_hto2 = pos 5860

abbrev pub model_sensor_hto2 : Bytes
model_sensor_hto2 = codes "miaomiaoce.sensor_ht.o2"

abbrev pub product_id_toothbrush_t700i : ℤ
product_id_toothbrush_t700i = pos 6032

abbrev pub model_toothbrush_t700i : Bytes
model_toothbrush_t700i = codes "k0918.toothbrush.t700i"

-- A `bleDecoder` of the registry, by its function's name.
pub data BleDecoder : Type 0 where
  sensor_hto2 toothbrush_t700i : BleDecoder

unfoldable pub run_decoder : FloatOps → BleDecoder → List BleEvent → Update → Progress
run_decoder fl sensor_hto2 events u = decode_sensor_hto2 fl events u
run_decoder fl toothbrush_t700i events u = decode_toothbrush_t700i events u

pub record Product : Type 0 where
  pub id : ℤ
  pub kind : ProductKind
  pub model : Bytes
  pub manufacturer : Bytes
  pub default_name : Bytes
  pub decode : Option BleDecoder

abbrev pub sensor_product : Product
sensor_product = record {
  id = product_id_sensor_hto2;
  kind = climate;
  model = model_sensor_hto2;
  manufacturer = codes "Miaomiaoce";
  default_name = codes "Miaomiaoce Temperature Sensor";
  decode = some sensor_hto2;
}

abbrev pub toothbrush_product : Product
toothbrush_product = record {
  id = product_id_toothbrush_t700i;
  kind = toothbrush;
  model = model_toothbrush_t700i;
  manufacturer = codes "Xiaomi";
  default_name = codes "Xiaomi Toothbrush T700i";
  decode = some toothbrush_t700i;
}

-- The map `products`, a list of its entries.
abbrev pub products : List Product
products = sensor_product ∷ toothbrush_product ∷ []

find_product : ℤ → List Product → Option Product
find_product i [] = none
find_product i (p ∷ ps) = if eq_ℤ p.id i then some p else find_product i ps

unfoldable pub lookup_product : ℤ → Option Product
unfolding find_product
lookup_product i = find_product i products

unfoldable pub supported_product : ℤ → Bool
supported_product i = is_some (lookup_product i)

find_model : Bytes → List Product → Option Product
find_model m [] = none
find_model m (p ∷ ps) = if eq_bytes p.model m then some p else find_model m ps

unfoldable pub lookup_product_by_model : Bytes → Option Product
unfolding find_model
lookup_product_by_model m = find_model m products
