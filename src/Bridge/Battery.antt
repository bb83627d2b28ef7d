-- ===== src/Bridge/Battery.antt =====
-- device.go, applyBattery: the characteristics of the HomeKit battery service.
use mgl03_homekit_bridge.Common.{ℕ, if◌then◌else◌}
use mgl03_homekit_bridge.Common.Int.{ℤ, pos, leb_ℤ}

pub record BatteryService : Type 0 where
  pub level : ℤ
  pub status_low : ℕ

unfoldable pub apply_battery : ℤ → BatteryService → BatteryService
apply_battery battery service = record service {
  level = battery;
  status_low = if leb_ℤ battery (pos 20) then 1 else 0;
}
