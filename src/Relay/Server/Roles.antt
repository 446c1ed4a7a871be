-- ===== src/Relay/Server/Roles.antt =====
-- The role of a connection of internal/relay/server.go.
use remote_assist_tool.Base.{◌≡◌, refl, false, none, some}
use remote_assist_tool.Relay.Session.Addresses.{Net}
use remote_assist_tool.Relay.Server.State.{
  Client, Message, register_request, join_request, tunnel_data, heartbeat, peer_addr_advertise,
  p2p_connected, tool, other, Server, Env,
}
use remote_assist_tool.Relay.Server.Handle.{is_new, handle_message}
use remote_assist_tool.Relay.Server.Order.{business-client}

-- A connection with a role keeps it: whatever it sends, its state stays as it is.
pub handle_message_role :
    (net : Net) (env : Env) (s : Server) (c : Client) (msg : Message)
    → is_new c.type ≡ false
    → (handle_message net env s c msg).client ≡ c
unfolding handle_message
handle_message_role net env s c (register_request none) h = refl
handle_message_role net env s c (register_request (some req)) h = rw h refl
handle_message_role net env s c (join_request none) h = refl
handle_message_role net env s c (join_request (some req)) h = rw h refl
handle_message_role net env s c other h = refl
handle_message_role net env s c (tunnel_data payload) h =
    rw h (business-client net env c s (tunnel_data payload))
handle_message_role net env s c heartbeat h = rw h (business-client net env c s heartbeat)
handle_message_role net env s c (peer_addr_advertise advert) h =
    rw h (business-client net env c s (peer_addr_advertise advert))
handle_message_role net env s c p2p_connected h = rw h (business-client net env c s p2p_connected)
handle_message_role net env s c (tool kind payload) h =
    rw h (business-client net env c s (tool kind payload))
