-- ===== src/Examples.antt =====
-- The theorems at concrete inputs.
mod Data
mod Brush
mod Wire
mod Reports
mod Registry
mod Settings
mod Startup
mod Storage
mod Running
mod Fresh
mod Sessions
mod Live
