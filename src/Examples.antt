-- ===== src/Examples.antt =====
-- Concrete runs of the theorems.
mod Session
mod Rejoin
mod Protocol
mod Udp
mod Truncation
mod Codes
mod Server
mod Mcp
mod Agent
