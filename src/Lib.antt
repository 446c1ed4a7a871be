-- ===== src/Lib.antt =====
-- The relay, the tool channel and the UDP paths of the remote assistance tool.
--
-- A share registers with the relay and gets a code; a helper joins with the code; the relay then
-- carries the messages of the tool channel between the two, over TCP, over its own UDP relay, or
-- leaves them to a direct UDP tunnel. The two ends trust each other through the code, and the relay
-- as little as possible.
--
-- Relay/Session models internal/relay/session.go (SessionManager): State has the types, Create,
-- Reuse, Pairing, Addresses and Teardown have one function for each method, named after it. A
-- pointer to a session is an index of a heap, the maps are association lists, and the mutex makes
-- each method one step, which Step collects as calls. Texts that are only compared are numbers, the
-- clock is an argument, and the order in which Go visits a map is an argument too. Relay/Code
-- models internal/relay/code.go, with the random numbers as an argument. Relay/Limits and
-- P2p/Limits model the limits.go of internal/relay and internal/p2p, with whole numbers for the
-- values.
--
-- Ratelimit/Bucket and Ratelimit/Keyed model the Bucket and the KeyedLimiter of
-- internal/ratelimit/ratelimit.go with exact amounts, so that rounding is not covered. Agent/Replay
-- models internal/agent/replay.go; its loop runs on fuel, of which 1024 is enough for every ID
-- below 2^64 - 1. Proto/Handshake and Proto/Aad model internal/proto/handshake.go and
-- internal/proto/aad.go, Client/Hello the two ends of the handshake in internal/client/share.go and
-- internal/client/help_mcp.go, through an answer that may be anything. P2p/Tunnel models the
-- sending and the receiving side of internal/p2p/tunnel.go; the loop that empties the buffer has
-- its size as fuel, which is enough since a round takes an entry out. Sequence numbers are covered
-- as long as they do not come round. P2p/Udp models the UDP relay of internal/p2p/stun_server.go,
-- with the token buckets of Ratelimit and the check of the session manager as a parameter. Base has
-- what the parts share; Examples runs the theorems on concrete inputs.
--
-- Relay/Server models internal/relay/server.go: State has the server, its configuration and
-- messages, Limiters the limiters of the messages, Register, Join and Handle the handlers, Serve
-- the life of a connection. What the other goroutines do between two calls of one handler is the
-- list `meanwhile` of calls of the session manager, and random draws that run out stand for a loop
-- that still draws. The wait for the tool channel runs on fuel 101, toolThrottleMaxWait /
-- toolThrottleStep + 1, which is enough since each round takes a step of the clock.
--
-- Proto/Session models internal/proto/session.go and internal/proto/aead.go, with the cipher as a
-- parameter. Mcp/Stream models the streamRecv of internal/mcp/bridge.go, Mcp/Bridge the Bridge and
-- Mcp/Bridge/Call its callToolInner: the goroutines that share the bridge are sequences of events
-- between the steps of a call, and a call that is not woken has no end yet. Agent/Daemon models
-- internal/agent/agent.go from a request to the tool and from the tool to the response and the
-- stream; the window of Agent/Replay has fuel 1024 there.
--
-- Not modelled: sockets, TLS, QUIC and the ciphers, the JSON of the messages, compression, the
-- listeners of the server, the tools, the graphical interface and the commands.
mod Base
pub mod Relay
pub mod Ratelimit
pub mod Agent
pub mod Proto
pub mod Client
pub mod Mcp
pub mod P2p
pub mod Examples
