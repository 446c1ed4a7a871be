-- ===== src/Relay/Server/Join.antt =====
-- internal/relay/server.go: handleJoin and rejectJoin.
use remote_assist_tool.Base.{ℕ, ◌+◌, Bool, true, false, [], ◌∷◌, leb, if◌then◌else◌}
use remote_assist_tool.Base.Int.{pos_part}
use remote_assist_tool.P2p.Udp.Relay.{key}
use remote_assist_tool.Relay.Code.{Bytes, normalize_code}
use remote_assist_tool.Relay.Session.State.{SessionManager, Result, ok, err}
use remote_assist_tool.Relay.Session.Pairing.{
  JoinSessionResult, join_session, activate_data_plane, rollback_join,
}
use remote_assist_tool.Relay.Session.Addresses.{Net}
use remote_assist_tool.Relay.Session.Step.{run}
use remote_assist_tool.Relay.Server.State.{
  Client, ConnState, join_response, join_failed, session_ready, send, Server, Env, Outcome,
}
use remote_assist_tool.Relay.Server.Limiters.{Verdict, passed, over_own, over_global, gate}
use remote_assist_tool.Relay.Server.Register.{client_host, invalidate}

-- The one way out of a join that fails. The reason goes to the audit log only.
unfoldable pub reject_join : Server → Client → Outcome
reject_join s c = record {
  server = s;
  client = record c { join_failures = c.join_failures + 1 };
  out = send c.conn join_failed ∷ [];
  closes = leb (pos_part s.config.limits.max_join_failures) (c.join_failures + 1);
}

unfoldable pub join_accepted : Env → Server → Client → JoinSessionResult → Outcome
join_accepted env s c res = record {
  server = s;
  client = record c { join_failures = 0; type = ConnState.help };
  out =
      send c.conn (
        join_response res.session_id res.share_version
          (if c.supports_update_notice then res.share_host else env.legacy_help_host res.share_host)
          s.update_info)
      ∷ send res.share
          (session_ready res.session_id c.conn.version (env.legacy_share_host c.conn.host))
      ∷ [];
  closes = false;
}

-- After ActivateDataPlane; `m` is the manager that it leaves.
unfoldable pub join_activated :
    Env → Server → Client → JoinSessionResult → SessionManager → Bool → Outcome
unfolding join_accepted reject_join rollback_join
join_activated env s c res m true = join_accepted env (record s { sessions = m }) c res
join_activated env s c res m false =
    reject_join (record s { sessions = rollback_join m res.session_id c.conn.id }) c

-- After JoinSession: the UDP relay forgets the session before the data plane opens, and other
-- goroutines may call the manager in between.
unfoldable pub join_paired :
    Net → Env → Server → Client → Result (SessionManager × JoinSessionResult) → Outcome
unfolding join_activated reject_join activate_data_plane invalidate
join_paired net env s c (err e) = reject_join s c
join_paired net env s c (ok (m, res)) =
    let (m', active) =
      activate_data_plane (run net m env.meanwhile) res.session_id res.share_id c.conn.id in
    join_activated env (record s { stun_server = invalidate s.stun_server res.session_id }) c res m'
      active

unfoldable pub join_gated : Net → Env → Server → Client → ℕ → Verdict → Outcome
unfolding join_paired reject_join join_session
join_gated net env s c code over_own = reject_join s c
join_gated net env s c code over_global = reject_join s c
join_gated net env s c code passed =
    join_paired net env s c (join_session s.sessions env.now code c.conn)

unfoldable pub handle_join : Net → Env → Server → Client → Bytes → Outcome
unfolding join_gated gate client_host key normalize_code
handle_join net env s c code =
    let g =
      gate s.config.disable_source_ip_limits s.join_limiter_per_ip s.join_limiter_global env.now
        (client_host net c.conn) in
    join_gated net env (record s { join_limiter_per_ip = g.own; join_limiter_global = g.global }) c
      (key (normalize_code code)) g.verdict
