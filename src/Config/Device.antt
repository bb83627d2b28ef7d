-- ===== src/Config/Device.antt =====
-- config.go: the record of a configured device.
use mgl03_homekit_bridge.Common.{ℕ, Bytes}
use mgl03_homekit_bridge.Common.Int.{ℤ}

-- `aid` is a uint64.
pub record Device : Type 0 where
  pub name : Bytes
  pub mac : Bytes
  pub did : Bytes
  pub product_id : ℤ
  pub model : Bytes
  pub aid : ℕ
