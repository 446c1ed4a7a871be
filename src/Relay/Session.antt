-- ===== src/Relay/Session.antt =====
-- The session manager of the relay: internal/relay/session.go.
pub mod State
pub mod Create
pub mod Reuse
pub mod Pairing
pub mod Addresses
pub mod Teardown
pub mod Invariant
pub mod Step
pub mod Limits
pub mod DataPlane
pub mod Join
pub mod Rejoin
pub mod Cleanup
pub mod Conflict
