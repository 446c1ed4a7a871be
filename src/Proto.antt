-- ===== src/Proto.antt =====
-- internal/proto: the messages of the tool channel, its handshake and its authenticated data.
pub mod Handshake
pub mod Aad
pub mod Session
