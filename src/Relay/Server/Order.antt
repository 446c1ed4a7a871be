-- ===== src/Relay/Server/Order.antt =====
-- What the handlers of internal/relay/server.go leave of the state of a connection.
use remote_assist_tool.Base.{
  ℕ, ◌≡◌, ◌⊎◌, refl, Bool, true, false, Option, none, some, if◌then◌else◌, inl, inr,
}
use remote_assist_tool.Relay.Session.Create.{Creation, created, refused, drawing}
use remote_assist_tool.Relay.Session.Reuse.{Reuse, absent, conflict, reused}
use remote_assist_tool.Relay.Session.Addresses.{Net}
use remote_assist_tool.Relay.Server.State.{
  Client, share, PeerAddrAdvertise, Message, register_request, join_request, tunnel_data, heartbeat,
  peer_addr_advertise, p2p_connected, tool, other, Server, Env, Outcome,
}
use remote_assist_tool.Relay.Server.Limiters.{Verdict, passed, over_own, over_global, Waiting}
use remote_assist_tool.Relay.Server.Register.{
  register_ready, register_created, register_coded, register_reused, register_gated,
  handle_register,
}
use remote_assist_tool.Relay.Server.Handle.{
  forward_to_peer, if_passed, handle_tunnel_data, handle_heartbeat, handle_peer_addr_advertise,
  after_control, tool_waited, handle_tool, handle_business,
}

-- The handlers of the business messages leave the state of the connection alone.
module _ (net : Net) (env : Env) (c : Client) where
  if-client :
      (b : Bool) (x y : Outcome) → x.client ≡ c → y.client ≡ c → (if b then x else y).client ≡ c
  if-client true x y h k = h
  if-client false x y h k = k

  if_passed-client :
      (v : Verdict) (x y : Outcome) → x.client ≡ c → y.client ≡ c → (if_passed v x y).client ≡ c
  if_passed-client passed x y h k = h
  if_passed-client over_own x y h k = k
  if_passed-client over_global x y h k = k

  advertise-client :
      (s : Server) (advert : Option PeerAddrAdvertise)
      → (handle_peer_addr_advertise net env s c advert).client ≡ c
  unfolding handle_peer_addr_advertise
  advertise-client s none = refl
  advertise-client s (some advert) = refl

  tool_waited-client :
      (s : Server) (msg : Message) (w : Option Waiting) → (tool_waited s c msg w).client ≡ c
  unfolding tool_waited forward_to_peer
  tool_waited-client s msg none = refl
  tool_waited-client s msg (some w) = if-client w.accepted _ _ refl refl

  pub business-client : (s : Server) (msg : Message) → (handle_business net env s c msg).client ≡ c
  unfolding handle_business handle_tunnel_data handle_heartbeat after_control handle_tool
      forward_to_peer
  business-client s (tunnel_data payload) = if_passed-client _ _ _ refl refl
  business-client s heartbeat = if_passed-client _ _ _ refl refl
  business-client s (peer_addr_advertise advert) =
      if_passed-client _ _ _ (advertise-client _ advert) refl
  business-client s p2p_connected = if_passed-client _ _ _ refl refl
  business-client s (tool kind payload) = tool_waited-client s (tool kind payload) _
  business-client s (register_request req) = refl
  business-client s (join_request req) = refl
  business-client s other = refl

  -- A registration makes the connection a share, or fails and leaves it as it is.
  abbrev pub Registers : Outcome → Type 0
  Registers o = (o.client ≡ c) ⊎ (o.client ≡ record c { type = share })

  created-Registers :
      (s : Server) (code : ℕ) (made : Creation) → Registers (register_created net env s c code made)
  unfolding register_created register_ready
  created-Registers s code (created m r) = inr refl
  created-Registers s code (refused e) = inl refl
  created-Registers s code drawing = inl refl

  coded-Registers : (s : Server) (code : Option ℕ) → Registers (register_coded net env s c code)
  unfolding register_coded
  coded-Registers s none = inl refl
  coded-Registers s (some code) = created-Registers s code _

  reused-Registers : (s : Server) (found : Reuse) → Registers (register_reused net env s c found)
  unfolding register_reused register_ready
  reused-Registers s absent = coded-Registers s _
  reused-Registers s (conflict m id version host) = inl refl
  reused-Registers s (reused m id code expires_at old_share old_help) = inr refl

  gated-Registers : (s : Server) (v : Verdict) → Registers (register_gated net env s c v)
  unfolding register_gated
  gated-Registers s over_own = inl refl
  gated-Registers s over_global = inl refl
  gated-Registers s passed = reused-Registers s _

  pub handle_register-Registers : (s : Server) → Registers (handle_register net env s c)
  unfolding handle_register
  handle_register-Registers s = gated-Registers _ _
