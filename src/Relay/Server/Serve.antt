-- ===== src/Relay/Server/Serve.antt =====
-- internal/relay/server.go: a connection from its admission to its end, and what the server does by
-- itself, as the steps of one machine. The goroutine of a connection reads a message only when it
-- has handled the one before.
use remote_assist_tool.Base.{
  ℕ, ◌+◌, ◌-◌, false, not, ◌&&◌, List, [], ◌∷◌, ◌++◌, Option, none, some, leb, if◌then◌else◌,
}
use remote_assist_tool.Base.Dict.{Dict, lookup, insert, delete, count_at, less}
use remote_assist_tool.Base.Int.{pos_part}
use remote_assist_tool.P2p.Udp.Relay.{StunServer}
use remote_assist_tool.Relay.Session.State.{ClientConn}
use remote_assist_tool.Relay.Session.Addresses.{Net}
use remote_assist_tool.Relay.Session.Teardown.{
  DisconnectResult, disconnect_client, help_debounce_fires, cleanup_expired,
}
use remote_assist_tool.Relay.Server.State.{
  Client, ConnState, Message, peer_disconnected, error, Effect, close, Server, Env, Outcome,
}
use remote_assist_tool.Relay.Server.Register.{client_host, invalidate}
use remote_assist_tool.Relay.Server.Handle.{handle_message, send_to}

-- `none` where a limit is met.
unfoldable pub acquire_conn_slot : Server → ℕ → Option Server
acquire_conn_slot s ip =
    if leb (pos_part s.config.limits.max_connections_total) s.conn_total
    then none
    else if not s.config.disable_source_ip_limits
        && leb (pos_part s.config.limits.max_connections_per_ip) (count_at ip s.conn_per_ip)
    then none
    else some (record s {
      conn_total = s.conn_total + 1;
      conn_per_ip = insert ip (count_at ip s.conn_per_ip + 1) s.conn_per_ip;
    })

unfoldable pub release_conn_slot : Server → ℕ → Server
release_conn_slot s ip = elim (lookup ip s.conn_per_ip) [
  | none ↦ s
  | some cur ↦ record s { conn_total = s.conn_total - 1; conn_per_ip = less ip s.conn_per_ip }
]

-- The loop of registerClient; `none` if the draws run out before one is free.
unfoldable pub draw_client_id : Dict Client → List ℕ → Option ℕ
draw_client_id taken [] = none
draw_client_id taken (i ∷ draws) =
    let rest = draw_client_id taken draws in elim (lookup i taken) [ none ↦ some i | some c ↦ rest ]

abbrev pub new_client : ℕ → ℕ → ℕ → Client
new_client ptr remote_addr id = record {
  conn = record { ptr = ptr; id = id; version = 0; host = 0; remote_addr = remote_addr };
  type = ConnState.new;
  client_id = 0;
  supports_update_notice = false;
  join_failures = 0;
}

abbrev pub register_client : Server → ℕ → ℕ → Option ℕ → Server
register_client s ptr remote_addr none = s
register_client s ptr remote_addr (some id) = record s {
  clients = insert id (new_client ptr remote_addr id) s.clients;
}

-- handleConn and serveConn up to the loop; a connection that gets no slot is closed. While the ID is
-- being drawn, nothing has happened.
unfoldable pub admit_conn : Net → Server → ℕ → ℕ → Option ℕ → Server
unfolding acquire_conn_slot client_host
admit_conn net s ptr remote_addr none = s
admit_conn net s ptr remote_addr (some id) =
    elim (acquire_conn_slot s (client_host net (new_client ptr remote_addr id).conn)) [
      | none ↦ s
      | some s' ↦ register_client s' ptr remote_addr (some id)
    ]

abbrev pub disconnected : Server → Option DisconnectResult → Server × List Effect
disconnected s none = (s, [])
disconnected s (some r) = (
  if r.reset_data_plane
      then record s { stun_server = invalidate s.stun_server r.session_id }
      else s,
  send_to r.peer_to_notify (error peer_disconnected),
)

-- The deferred calls of serveConn and handleConn.
unfoldable pub end_conn : Net → Server → ℕ → Client → Server × List Effect
unfolding disconnect_client invalidate release_conn_slot client_host
end_conn net s now c =
    let (m, result) = disconnect_client s.sessions now c.conn.id in
    let (s', out) =
      disconnected (record s { clients = delete c.conn.id s.clients; sessions = m }) result in
    (release_conn_slot s' (client_host net c.conn), out ++ close c.conn ∷ [])

-- A round of the loop of serveConn, after the message is read.
unfoldable pub after_message : Net → Env → Outcome → Server × List Effect
unfolding end_conn
after_message net env o =
    let s = record (o.server) { clients = insert o.client.conn.id o.client o.server.clients } in
    let (s', out) = end_conn net s env.now o.client in
    if o.closes then (s', o.out ++ out) else (s, o.out)

abbrev pub invalidate_all : Option StunServer → List ℕ → Option StunServer
invalidate_all stun [] = stun
invalidate_all stun (id ∷ ids) = invalidate_all (invalidate stun id) ids

abbrev pub closes_all : List ClientConn → List Effect
closes_all [] = []
closes_all (c ∷ cs) = close c ∷ closes_all cs

-- `connects` has the ID that registerClient draws. `leaves` is the end of a connection's reads: its
-- peer closed it, was silent for too long, or sent what is no message.
pub data Event : Type 0 where
  connects : ℕ → ℕ → List ℕ → Event
  receives : ℕ → Message → Env → Event
  leaves : ℕ → ℕ → Event
  debounce_fires : ℕ → Event
  cleanup_ticks : ℕ → Dict ℕ → Event

unfoldable pub serve : Net → Server → Event → Server × List Effect
unfolding admit_conn draw_client_id after_message end_conn handle_message help_debounce_fires
    cleanup_expired
serve net s (connects ptr remote_addr draws) =
    (admit_conn net s ptr remote_addr (draw_client_id s.clients draws), [])
serve net s (receives id msg env) = elim (lookup id s.clients) [
  | none ↦ (s, [])
  | some c ↦ after_message net env (handle_message net env s c msg)
]
serve net s (leaves id now) = elim (lookup id s.clients) [
  | none ↦ (s, [])
  | some c ↦ end_conn net s now c
]
serve net s (debounce_fires r) =
    let (m, share) = help_debounce_fires s.sessions r in
    (record s { sessions = m }, send_to share (error peer_disconnected))
serve net s (cleanup_ticks now order) =
    let c = cleanup_expired s.sessions now order in
    (
      record s { sessions = c.after; stun_server = invalidate_all s.stun_server c.expired },
      closes_all c.to_close,
    )

unfoldable pub serve_all : Net → Server → List Event → Server
unfolding serve
serve_all net s [] = s
serve_all net s (e ∷ es) = serve_all net (serve net s e).0 es
