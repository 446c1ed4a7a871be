-- ===== src/Relay/Session/Invariant.antt =====
-- The well-formedness of the session manager's indexes (internal/relay/session.go).
pub mod Defs
pub mod Update
pub mod Routing
pub mod Pairing
pub mod Reuse
pub mod Disconnect
pub mod Create
pub mod Remove
