-- ===== src/Relay/Server/Register.antt =====
-- internal/relay/server.go: handleRegister.
use remote_assist_tool.Base.{
  ℕ, true, false, not, List, [], ◌∷◌, ◌++◌, Option, none, some, ◌==◌, if◌then◌else◌,
}
use remote_assist_tool.Base.Int.{pos_part}
use remote_assist_tool.P2p.Udp.Relay.{StunServer, key, invalidate_relay_session}
use remote_assist_tool.Relay.Code.{generate}
use remote_assist_tool.Relay.Session.State.{ClientConn}
use remote_assist_tool.Relay.Session.Create.{Creation, created, refused, drawing, create_session}
use remote_assist_tool.Relay.Session.Reuse.{
  Reuse, absent, conflict, reused, reuse_session_by_client_id, mark_share_ready,
}
use remote_assist_tool.Relay.Session.Addresses.{Net}
use remote_assist_tool.Relay.Session.Step.{run}
use remote_assist_tool.Relay.Server.State.{
  Client, ConnState, ErrorCode, rate_limited, server_busy, code_gen_failed, session_limit,
  client_id_conflict, peer_reconnected, register_response, error, Effect, send, close, Config,
  Server, Env, Outcome,
}
use remote_assist_tool.Relay.Server.Limiters.{Verdict, passed, over_own, over_global, gate}

unfoldable pub client_host : Net → ClientConn → ℕ
client_host net c = elim (net.split_host_port c.remote_addr) [
  | none ↦ c.remote_addr
  | some host ↦ host
]

-- `if s.stunServer != nil { s.stunServer.InvalidateRelaySession(id) }`
unfoldable pub invalidate : Option StunServer → ℕ → Option StunServer
unfolding invalidate_relay_session
invalidate none id = none
invalidate (some stun) id = some (invalidate_relay_session stun id)

-- proto.NoAuthCode, "noauth"
abbrev pub no_auth_code : ℕ
unfolding key
no_auth_code = key (110 ∷ 111 ∷ 97 ∷ 117 ∷ 116 ∷ 104 ∷ [])

abbrev pub fails : Server → Client → ErrorCode → Outcome
fails s c e = record { server = s; client = c; out = send c.conn (error e) ∷ []; closes = true }

-- The connections that give way to the new share: the old share at once, the old helper once the
-- response is out.
abbrev pub closes_old : Option ClientConn → ClientConn → List Effect
closes_old none c = []
closes_old (some old) c = if old.ptr == c.ptr then [] else close old ∷ []

abbrev pub dismisses_help : Option ClientConn → List Effect
dismisses_help none = []
dismisses_help (some help) = send help (error peer_reconnected) ∷ close help ∷ []

-- What follows once there is a session: other goroutines may call the manager before it is marked
-- ready.
unfoldable pub register_ready :
    Net → Env → Server → Client → ℕ → ℕ → ℕ → List Effect → Option ClientConn → Outcome
unfolding mark_share_ready
register_ready net env s c code expires_at session_id before old_help =
    let (m, ready) = mark_share_ready (run net s.sessions env.meanwhile) session_id c.conn.id in
    let out = before ++ send c.conn (register_response code expires_at s.update_info) ∷ [] in
    record {
      server = record s { sessions = m };
      client = record c { type = ConnState.share };
      out = if ready then out ++ dismisses_help old_help else out;
      closes = not ready;
    }

-- The code of a new session; `none` if its random source fails.
unfoldable pub new_code : Server → Env → Option ℕ
unfolding generate key
new_code s env =
    if s.config.no_auth
    then some no_auth_code
    else elim (generate s.codes env.code_draws) [ none ↦ none | some code ↦ some (key code) ]

-- `maxPerIP`; 0 stands for no limit.
abbrev pub max_sessions_of_ip : Config → ℕ
max_sessions_of_ip cfg =
    if cfg.disable_source_ip_limits then 0 else pos_part cfg.limits.max_active_sessions_per_ip

abbrev pub max_sessions : Config → ℕ
max_sessions cfg = pos_part cfg.limits.max_active_sessions_total

-- While the session ID is being drawn, nothing has changed.
unfoldable pub register_created : Net → Env → Server → Client → ℕ → Creation → Outcome
unfolding register_ready
register_created net env s c code (created m r) =
    register_ready net env (record s { sessions = m }) c code (m.heap r).expires_at (m.heap r).id []
      none
register_created net env s c code (refused e) = fails s c session_limit
register_created net env s c code drawing = record {
  server = s;
  client = c;
  out = [];
  closes = false;
}

unfoldable pub register_coded : Net → Env → Server → Client → Option ℕ → Outcome
unfolding register_created create_session client_host
register_coded net env s c none = fails s c code_gen_failed
register_coded net env s c (some code) = register_created net env s c code (
    create_session s.sessions env.id_draws env.now code (some c.conn) s.config.code_ttl c.client_id
      (client_host net c.conn) (max_sessions_of_ip s.config) (max_sessions s.config) false)

unfoldable pub register_reused : Net → Env → Server → Client → Reuse → Outcome
unfolding register_coded new_code register_ready invalidate
register_reused net env s c absent = register_coded net env s c (new_code s env)
register_reused net env s c (conflict m id version host) =
    fails (record s { sessions = m }) c client_id_conflict
register_reused net env s c (reused m id code expires_at old_share old_help) =
    register_ready net env (record s { sessions = m; stun_server = invalidate s.stun_server id }) c
      code expires_at id (closes_old old_share c.conn) old_help

unfoldable pub register_gated : Net → Env → Server → Client → Verdict → Outcome
unfolding register_reused reuse_session_by_client_id
register_gated net env s c over_own = fails s c rate_limited
register_gated net env s c over_global = fails s c server_busy
register_gated net env s c passed = register_reused net env s c (
    if not (c.client_id == 0)
    then reuse_session_by_client_id s.sessions env.now c.client_id c.conn
    else absent)

unfoldable pub handle_register : Net → Env → Server → Client → Outcome
unfolding register_gated gate client_host
handle_register net env s c =
    let g =
      gate s.config.disable_source_ip_limits s.create_limiter_per_ip s.create_limiter_global env.now
        (client_host net c.conn) in
    register_gated net env
      (record s { create_limiter_per_ip = g.own; create_limiter_global = g.global }) c g.verdict
