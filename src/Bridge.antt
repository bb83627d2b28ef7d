-- ===== src/Bridge.antt =====
-- internal/bridge: the HomeKit accessories of the supported devices.
pub mod Ids
pub mod Accessory
pub mod Battery
pub mod Timers
pub mod Toothbrush
pub mod Sensor
