-- ===== src/Relay/Server/Refines/Handlers.antt =====
-- handleMessage of internal/relay/server.go as calls of the session manager.
use remote_assist_tool.Base.{◌≢◌, refl, Bool, true, false, Option, none, some, if◌then◌else◌, not}
use remote_assist_tool.Relay.Session.Addresses.{Net}
use remote_assist_tool.Relay.Session.Step.{advertises, step}
use remote_assist_tool.Relay.Server.State.{
  Client, PeerAddrAdvertise, Message, register_request, join_request, tunnel_data, heartbeat,
  peer_addr_advertise, p2p_connected, tool, other, Server, Env, Outcome,
}
use remote_assist_tool.Relay.Server.Limiters.{Verdict, passed, over_own, over_global, Waiting}
use remote_assist_tool.Relay.Server.Handle.{
  is_new, forward_to_peer, if_passed, handle_tunnel_data, handle_heartbeat, public_addr_or_fallback,
  handle_peer_addr_advertise, after_control, tool_waited, handle_tool, handle_business, registering,
  joining, handle_message,
}
use remote_assist_tool.Relay.Server.Refines.Ran.{Ran-step, IsServed, Handled, Handled-refl}
use remote_assist_tool.Relay.Server.Refines.Registering.{handle_register-Handled}
use remote_assist_tool.Relay.Server.Refines.Joining.{handle_join-Handled}

module _ (net : Net) (env : Env) where
  if-Handled :
      (s : Server) (c : Client) (b : Bool) (x y : Outcome)
      → Handled net s c x
      → Handled net s c y
      → Handled net s c (if b then x else y)
  if-Handled s c true x y h k = h
  if-Handled s c false x y h k = k

  if_passed-Handled :
      (s : Server) (c : Client) (v : Verdict) (x y : Outcome)
      → Handled net s c x
      → Handled net s c y
      → Handled net s c (if_passed v x y)
  if_passed-Handled s c passed x y h k = h
  if_passed-Handled s c over_own x y h k = k
  if_passed-Handled s c over_global x y h k = k

  advertise-Handled :
      (s : Server) (c : Client) (advert : Option PeerAddrAdvertise)
      → Handled net s c (handle_peer_addr_advertise net env s c advert)
  unfolding handle_peer_addr_advertise step
  advertise-Handled s c none = Handled-refl net s c
  advertise-Handled s c (some advert) = (
    Ran-step net s.config s.sessions env.now
        (advertises c.conn.id (public_addr_or_fallback net env c advert) advert.private_addr
          advert.nat_type)
        tt tt,
    refl,
    refl,
    refl,
    refl,
    refl,
    refl,
  )

  tool_waited-Handled :
      (s : Server) (c : Client) (msg : Message) (w : Option Waiting)
      → Handled net s c (tool_waited s c msg w)
  unfolding tool_waited forward_to_peer
  tool_waited-Handled s c msg none = Handled-refl net s c
  tool_waited-Handled s c msg (some w) =
      if-Handled s c w.accepted _ _ (Handled-refl net s c) (Handled-refl net s c)

  business-Handled :
      (s : Server) (c : Client) (msg : Message) → Handled net s c (handle_business net env s c msg)
  unfolding handle_business handle_tunnel_data handle_heartbeat after_control handle_tool
      forward_to_peer
  business-Handled s c (tunnel_data payload) =
      if_passed-Handled s c _ _ _ (Handled-refl net s c) (Handled-refl net s c)
  business-Handled s c heartbeat =
      if_passed-Handled s c _ _ _ (Handled-refl net s c) (Handled-refl net s c)
  business-Handled s c (peer_addr_advertise advert) =
      if_passed-Handled s c _ _ _ (advertise-Handled _ c advert) (Handled-refl net s c)
  business-Handled s c p2p_connected =
      if_passed-Handled s c _ _ _ (Handled-refl net s c) (Handled-refl net s c)
  business-Handled s c (tool kind payload) = tool_waited-Handled s c (tool kind payload) _
  business-Handled s c (register_request req) = Handled-refl net s c
  business-Handled s c (join_request req) = Handled-refl net s c
  business-Handled s c other = Handled-refl net s c

  pub handle_message-Handled :
      (s : Server) (q : IsServed s.config env.meanwhile) (c : Client) (msg : Message)
      → c.conn.id ≢ 0
      → Handled net s c (handle_message net env s c msg)
  unfolding handle_message
  handle_message-Handled s q c (register_request none) n = Handled-refl net s c
  handle_message-Handled s q c (register_request (some req)) n =
      if-Handled s c (not (is_new c.type)) _ _ (Handled-refl net s c)
        (handle_register-Handled net env s q (registering env c req) n)
  handle_message-Handled s q c (join_request none) n = Handled-refl net s c
  handle_message-Handled s q c (join_request (some req)) n =
      if-Handled s c (not (is_new c.type)) _ _ (Handled-refl net s c)
        (handle_join-Handled net env s q (joining env c req) req.code n)
  handle_message-Handled s q c other n = Handled-refl net s c
  handle_message-Handled s q c (tunnel_data payload) n =
      if-Handled s c (is_new c.type) _ _ (Handled-refl net s c)
        (business-Handled s c (tunnel_data payload))
  handle_message-Handled s q c heartbeat n =
      if-Handled s c (is_new c.type) _ _ (Handled-refl net s c) (business-Handled s c heartbeat)
  handle_message-Handled s q c (peer_addr_advertise advert) n =
      if-Handled s c (is_new c.type) _ _ (Handled-refl net s c)
        (business-Handled s c (peer_addr_advertise advert))
  handle_message-Handled s q c p2p_connected n =
      if-Handled s c (is_new c.type) _ _ (Handled-refl net s c) (business-Handled s c p2p_connected)
  handle_message-Handled s q c (tool kind payload) n =
      if-Handled s c (is_new c.type) _ _ (Handled-refl net s c)
        (business-Handled s c (tool kind payload))
