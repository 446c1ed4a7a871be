-- ===== src/Client.antt =====
-- internal/client: the two ends of the tool channel.
pub mod Hello
