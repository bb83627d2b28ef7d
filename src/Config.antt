-- ===== src/Config.antt =====
-- internal/config: the configured devices, pairing codes and the validation of the file.
pub mod Device
pub mod Mac
pub mod Pin
pub mod Validate
pub mod Load
