-- ===== src/App.antt =====
-- cmd/mgl03-homekit-bridge: the devices of the bridge and the handling of their reports.
pub mod Aids
pub mod Prepare
pub mod Merge
pub mod Updates
pub mod Discover
pub mod Queue
pub mod Start
pub mod Live
pub mod Home
pub mod Run
pub mod Server
