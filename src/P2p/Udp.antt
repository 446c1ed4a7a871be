-- ===== src/P2p/Udp.antt =====
-- internal/p2p/stun_server.go: the relay of UDP packets between the two ends of a session.
pub mod Header
pub mod Relay
pub mod Isolation
pub mod Quota
pub mod Admission
pub mod Runs
pub mod Pairs
