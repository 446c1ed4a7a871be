-- ===== src/P2p.antt =====
-- internal/p2p: the direct UDP tunnel and the UDP relay.
pub mod Tunnel
pub mod Limits
pub mod Udp
