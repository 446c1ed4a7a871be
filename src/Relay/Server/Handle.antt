-- ===== src/Relay/Server/Handle.antt =====
-- internal/relay/server.go: handleMessage and the handlers of the messages after the registration.
use remote_assist_tool.Base.{
  ℕ, Bool, true, false, not, ◌||◌, List, [], ◌∷◌, Option, none, some, length, ◌==◌, if◌then◌else◌,
}
use remote_assist_tool.P2p.Udp.Relay.{key}
use remote_assist_tool.Relay.Session.State.{ClientConn}
use remote_assist_tool.Relay.Session.Pairing.{find_peer}
use remote_assist_tool.Relay.Session.Addresses.{Net, PeerAddrUpdate, update_peer_addr}
use remote_assist_tool.Relay.Server.State.{
  Client, ConnState, new, share, help, RegisterRequest, JoinRequest, PeerAddrAdvertise, Message,
  register_request, join_request, tunnel_data, heartbeat, peer_addr_advertise, p2p_connected, tool,
  other, rate_limited, Reply, heartbeat_at, forwarded, peer_addr_ready, error, Effect, send, Server,
  Env, Outcome,
}
use remote_assist_tool.Relay.Server.Limiters.{
  Verdict, passed, over_own, over_global, Waiting, gate, allow_tool_message,
}
use remote_assist_tool.Relay.Server.Register.{client_host, handle_register}
use remote_assist_tool.Relay.Server.Join.{handle_join}

abbrev pub is_new : ConnState → Bool
is_new new = true
is_new share = false
is_new help = false

-- A connection that is closed, or that goes on, with nothing done.
abbrev pub closing : Server → Client → Outcome
closing s c = record { server = s; client = c; out = []; closes = true }

abbrev pub nothing_done : Server → Client → Outcome
nothing_done s c = record { server = s; client = c; out = []; closes = false }

-- forwardToPeer, and handleTunnelData, which wraps the payload anew.
abbrev pub send_to : Option ClientConn → Reply → List Effect
send_to none r = []
send_to (some target) r = send target r ∷ []

unfoldable pub forward_to_peer : Server → Client → Message → Outcome
unfolding find_peer
forward_to_peer s c msg = record {
  server = s;
  client = c;
  out = send_to (find_peer s.sessions c.conn.id) (forwarded msg);
  closes = false;
}

-- A message that the limiters refuse is dropped.
abbrev pub if_passed : Verdict → Outcome → Outcome → Outcome
if_passed passed x y = x
if_passed over_own x y = y
if_passed over_global x y = y

unfoldable pub handle_tunnel_data : Env → Server → Client → Message → Outcome
unfolding gate forward_to_peer
handle_tunnel_data env s c msg =
    let g =
      gate false s.tunnel_data_limiter_per_conn s.tunnel_data_limiter_global env.now c.conn.id in
    let s' = record s {
      tunnel_data_limiter_per_conn = g.own;
      tunnel_data_limiter_global = g.global;
    } in
    if_passed g.verdict (forward_to_peer s' c msg) (nothing_done s' c)

unfoldable pub handle_heartbeat : Net → Env → Server → Client → Outcome
unfolding gate client_host
handle_heartbeat net env s c =
    let g =
      gate s.config.disable_source_ip_limits s.heartbeat_limiter_per_ip s.heartbeat_limiter_global
        env.now (client_host net c.conn) in
    let s' = record s { heartbeat_limiter_per_ip = g.own; heartbeat_limiter_global = g.global } in
    if_passed g.verdict
      (record {
        server = s';
        client = c;
        out = send c.conn (heartbeat_at env.now) ∷ [];
        closes = false;
      })
      (nothing_done s' c)

-- "0"
abbrev pub zero_port : ℕ
unfolding key
zero_port = key (48 ∷ [])

-- The address of the TCP connection with the private port, where the client knows no public address.
unfoldable pub public_addr_or_fallback : Net → Env → Client → PeerAddrAdvertise → ℕ
public_addr_or_fallback net env c advert =
    if not (advert.public_addr == 0)
    then advert.public_addr
    else elim (net.split_host_port c.conn.remote_addr) [
      | none ↦ 0
      | some host ↦
          (let port = env.split_port advert.private_addr in
            if host == 0 || (port == 0 || port == zero_port)
            then 0
            else env.join_host_port host port)
    ]

abbrev pub tells_peer : Option PeerAddrUpdate → ℕ → ℕ → List Effect
tells_peer none public private = []
tells_peer (some u) public private =
    send u.peer (peer_addr_ready public private u.is_share_side u.same_network u.nat_type) ∷ []

unfoldable pub handle_peer_addr_advertise :
    Net → Env → Server → Client → Option PeerAddrAdvertise → Outcome
unfolding public_addr_or_fallback update_peer_addr
handle_peer_addr_advertise net env s c none = nothing_done s c
handle_peer_addr_advertise net env s c (some advert) =
    let public = public_addr_or_fallback net env c advert in
    let (m, update) =
      update_peer_addr net s.sessions c.conn.id public advert.private_addr advert.nat_type in
    record {
      server = record s { sessions = m };
      client = c;
      out = tells_peer update public advert.private_addr;
      closes = false;
    }

-- allowControlMessage
unfoldable pub after_control : Env → Server → Client → (Server → Outcome) → Outcome
unfolding gate
after_control env s c handler =
    let g = gate false s.control_limiter_per_conn s.control_limiter_global env.now c.conn.id in
    let s' = record s { control_limiter_per_conn = g.own; control_limiter_global = g.global } in
    if_passed g.verdict (handler s') (nothing_done s' c)

-- After allowToolMessage. `none` stands for a wait that has not ended, which does not happen.
unfoldable pub tool_waited : Server → Client → Message → Option Waiting → Outcome
unfolding forward_to_peer
tool_waited s c msg none = nothing_done s c
tool_waited s c msg (some w) =
    let s' = record s { tool_limiter_per_conn = w.own; tool_limiter_global = w.global } in
    if w.accepted then forward_to_peer s' c msg else record {
      server = s';
      client = c;
      out = send c.conn (error rate_limited) ∷ [];
      closes = true;
    }

unfoldable pub handle_tool : Env → Server → Client → Message → ℕ → Outcome
unfolding tool_waited allow_tool_message
handle_tool env s c msg payload_bytes = tool_waited s c msg (
    allow_tool_message s.tool_limiter_per_conn s.tool_limiter_global env.now env.late c.conn.id
      payload_bytes)

-- The messages of a connection that has registered or joined.
unfoldable pub handle_business : Net → Env → Server → Client → Message → Outcome
unfolding handle_tunnel_data handle_heartbeat handle_peer_addr_advertise after_control handle_tool
handle_business net env s c (tunnel_data payload) = handle_tunnel_data env s c (tunnel_data payload)
handle_business net env s c heartbeat = handle_heartbeat net env s c
handle_business net env s c (peer_addr_advertise advert) =
    after_control env s c (λ s'. handle_peer_addr_advertise net env s' c advert)
handle_business net env s c p2p_connected = after_control env s c (λ s'. nothing_done s' c)
handle_business net env s c (tool kind payload) =
    handle_tool env s c (tool kind payload) (length payload)
handle_business net env s c msg = closing s c

-- The identity of a client, written before it is published.
abbrev pub named : Env → Client → ℕ → ℕ → Bool → Client
named env c version host supports = record c {
  conn = record (c.conn) { version = env.sanitize version; host = env.sanitize host };
  supports_update_notice = supports;
}

abbrev pub registering : Env → Client → RegisterRequest → Client
registering env c req = record (named env c req.version req.host req.supports_update_notice) {
  client_id = req.client_id;
}

abbrev pub joining : Env → Client → JoinRequest → Client
joining env c req = named env c req.version req.host req.supports_update_notice

unfoldable pub handle_message : Net → Env → Server → Client → Message → Outcome
unfolding handle_business handle_register handle_join
handle_message net env s c (register_request none) = closing s c
handle_message net env s c (register_request (some req)) =
    if not (is_new c.type) then closing s c else handle_register net env s (registering env c req)
handle_message net env s c (join_request none) = closing s c
handle_message net env s c (join_request (some req)) =
    if not (is_new c.type) then closing s c else handle_join net env s (joining env c req) req.code
handle_message net env s c other = closing s c
handle_message net env s c msg =
    if is_new c.type then closing s c else handle_business net env s c msg
