-- ===== src/Relay/Server.antt =====
-- internal/relay/server.go: the server around the session manager.
pub mod State
pub mod Limiters
pub mod Register
pub mod Join
pub mod Handle
pub mod Serve
pub mod Refines
pub mod Slots
pub mod Safety
pub mod Joins
pub mod Throttle
pub mod Order
pub mod Roles
pub mod Patience
