-- ===== src/Bridge/Accessory.antt =====
-- sensor.go, toothbrush.go and device.go: the HomeKit accessory of a device, that is its id and its
-- information. What the hap library makes of them is not modelled.
use mgl03_homekit_bridge.Common.{ℕ, none, some, List, [], ◌∷◌, codes}
use mgl03_homekit_bridge.Config.Device.{Device}
use mgl03_homekit_bridge.Openmiio.Products.{model_sensor_hto2, model_toothbrush_t700i}
use mgl03_homekit_bridge.Bridge.Ids.{accessory_id}
use mgl03_homekit_bridge.Bridge.Sensor.{
  AccessoryKind, sensor_accessory, toothbrush_accessory, Info, accessory_info, new_device_accessory,
}

pub record Accessory : Type 0 where
  pub id : ℕ
  pub info : Info

-- NewSensor
unfoldable pub new_sensor : Device → Accessory
new_sensor device = record {
  id = accessory_id device;
  info = accessory_info device model_sensor_hto2 (codes "Miaomiaoce");
}

-- NewToothbrush
unfoldable pub new_toothbrush_accessory : Device → Accessory
new_toothbrush_accessory device = record {
  id = accessory_id device;
  info = accessory_info device model_toothbrush_t700i (codes "Xiaomi");
}

-- The values of accessoryFactories.
unfoldable pub make_accessory : AccessoryKind → Device → Accessory
make_accessory sensor_accessory device = new_sensor device
make_accessory toothbrush_accessory device = new_toothbrush_accessory device

-- The loop of run over the devices: those that NewDeviceAccessory refuses are left out.
unfoldable pub device_accessories : List Device → List Accessory
device_accessories [] = []
device_accessories (d ∷ ds) =
    let rest = device_accessories ds in
    elim (new_device_accessory d) [ none ↦ rest | some kind ↦ make_accessory kind d ∷ rest ]
