-- ===== src/Openmiio.antt =====
-- internal/openmiio: the messages of openmiio_agent, their decoders, and the frame filter.
pub mod Types
pub mod Hex
pub mod Decoders
pub mod Products
pub mod Dedup
pub mod Mac
pub mod Parser
pub mod Miot
