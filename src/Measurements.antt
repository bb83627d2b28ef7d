-- ===== src/Measurements.antt =====
-- internal/measurements: the last readings of each device, kept over restarts.
pub mod State
pub mod Laws
pub mod File
