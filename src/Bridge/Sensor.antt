-- ===== src/Bridge/Sensor.antt =====
-- sensor.go: the accessory of a climate sensor, by the values that its characteristics were set to; and
-- device.go: which accessory a device gets, and its information.
use mgl03_homekit_bridge.Common.{Option, none, some, Bytes, is_empty, if◌then◌else◌}
use mgl03_homekit_bridge.Common.Int.{ℤ}
use mgl03_homekit_bridge.Config.Device.{Device}
use mgl03_homekit_bridge.Openmiio.Types.{Float64, Update, ProductKind, climate, toothbrush, unset}
use mgl03_homekit_bridge.Openmiio.Products.{Product, lookup_product, lookup_product_by_model}
use mgl03_homekit_bridge.Bridge.Battery.{BatteryService, apply_battery}
use mgl03_homekit_bridge.Bridge.Ids.{serial_number}

pub record Sensor : Type 0 where
  pub temperature : Float64
  pub humidity : Float64
  pub battery : BatteryService

abbrev or_kept : Option Float64 → Float64 → Float64
or_kept none old = old
or_kept (some v) old = v

abbrev or_kept_battery : Option ℤ → BatteryService → BatteryService
or_kept_battery none old = old
or_kept_battery (some level) old = apply_battery level old

-- Sensor.Apply
unfoldable pub apply_sensor : Update → Sensor → Sensor
apply_sensor update s = record {
  temperature = or_kept update.temperature s.temperature;
  humidity = or_kept update.humidity s.humidity;
  battery = or_kept_battery update.battery s.battery;
}

-- productForDevice
unfoldable pub product_for_device : Device → Option Product
product_for_device device = elim (lookup_product device.product_id) [
  | some product ↦ some product
  | none ↦ lookup_product_by_model device.model
]

-- The keys of accessoryFactories: the accessory that NewDeviceAccessory makes.
pub data AccessoryKind : Type 0 where
  sensor_accessory toothbrush_accessory : AccessoryKind

abbrev factory : ProductKind → Option AccessoryKind
factory climate = some sensor_accessory
factory toothbrush = some toothbrush_accessory
factory unset = none

unfoldable pub new_device_accessory : Device → Option AccessoryKind
new_device_accessory device = elim (product_for_device device) [
  | none ↦ none
  | some product ↦ factory product.kind
]

pub record Info : Type 0 where
  pub name : Bytes
  pub serial : Bytes
  pub manufacturer : Bytes
  pub model : Bytes

abbrev or_text : Bytes → Bytes → Bytes
or_text text other = if is_empty text then other else text

-- The information with what the product gives.
abbrev product_info : Option Product → Device → Bytes → Info
product_info none device maker = record {
  name = device.name;
  serial = serial_number device;
  manufacturer = maker;
  model = device.model;
}
product_info (some product) device maker = record {
  name = or_text device.name product.default_name;
  serial = serial_number device;
  manufacturer = or_text product.manufacturer maker;
  model = or_text device.model product.model;
}

-- accessoryInfo; the firmware is always "MGL03 bridge".
unfoldable pub accessory_info : Device → Bytes → Bytes → Info
accessory_info device model maker =
    let info = product_info (product_for_device device) device maker in
    record info { model = or_text info.model model }
