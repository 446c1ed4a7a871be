-- ===== src/Mcp.antt =====
-- internal/mcp: the helper's side of the tool channel.
pub mod Stream
pub mod Bridge
