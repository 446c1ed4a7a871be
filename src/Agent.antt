-- ===== src/Agent.antt =====
-- internal/agent: the side that executes the tool calls.
pub mod Replay
pub mod Truncate
pub mod Daemon
