-- ===== src/Relay.antt =====
-- The relay server: internal/relay.
pub mod Session
pub mod Limits
pub mod Code
pub mod Server
