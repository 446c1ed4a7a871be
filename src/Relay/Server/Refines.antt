-- ===== src/Relay/Server/Refines.antt =====
-- The handlers of internal/relay/server.go touch the session manager through its calls only.
pub mod Ran
mod Registering
mod Joining
pub mod Handlers
pub mod Ending
pub mod Serving
