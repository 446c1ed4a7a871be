-- ===== src/Relay/Server/Refines/Joining.antt =====
-- handleJoin of internal/relay/server.go as calls of the session manager.
use remote_assist_tool.Base.{ℕ, ◌≢◌, refl, Bool, true, false}
use remote_assist_tool.P2p.Udp.Relay.{key}
use remote_assist_tool.Relay.Code.{Bytes, normalize_code}
use remote_assist_tool.Relay.Session.State.{SessionManager, Result, ok, err, after_result}
use remote_assist_tool.Relay.Session.Pairing.{JoinSessionResult, rollback_join}
use remote_assist_tool.Relay.Session.Addresses.{Net}
use remote_assist_tool.Relay.Session.Step.{joins, rolls_back, activates, step, run}
use remote_assist_tool.Relay.Server.State.{Client, Server, Env}
use remote_assist_tool.Relay.Server.Limiters.{Verdict, passed, over_own, over_global}
use remote_assist_tool.Relay.Server.Register.{invalidate}
use remote_assist_tool.Relay.Server.Join.{
  reject_join, join_accepted, join_activated, join_paired, join_gated, handle_join,
}
use remote_assist_tool.Relay.Server.Refines.Ran.{
  Ran, Ran-refl, Ran-trans, Ran-step, Ran-run, IsServed, Handled, Handled-after,
}

module _ (net : Net) (env : Env) where
  reject_join-Handled : (s : Server) (c : Client) → Handled net s c (reject_join s c)
  unfolding reject_join
  reject_join-Handled s c = (Ran-refl net s.config s.sessions, refl, refl, refl, refl, refl, refl)

  join_activated-Handled :
      (s : Server) (c : Client) (res : JoinSessionResult) (m : SessionManager) (active : Bool)
      → Ran net s.config s.sessions m
      → Handled net s c (join_activated env s c res m active)
  unfolding join_activated join_accepted reject_join step
  join_activated-Handled s c res m true r = (r, refl, refl, refl, refl, refl, refl)
  join_activated-Handled s c res m false r =
      Handled-after net s c (join_activated env s c res m false)
        (Ran-trans net s.config r
          (Ran-step net s.config m env.now (rolls_back res.session_id c.conn.id) tt tt))
        (reject_join-Handled (record s { sessions = rollback_join m res.session_id c.conn.id }) c)

  join_paired-Handled :
      (s : Server) (q : IsServed s.config env.meanwhile) (c : Client)
      (result : Result (SessionManager × JoinSessionResult))
      → Ran net s.config s.sessions (after_result s.sessions result)
      → Handled net s c (join_paired net env s c result)
  unfolding join_paired step
  join_paired-Handled s q c (err e) r = reject_join-Handled s c
  join_paired-Handled s q c (ok (m, res)) r =
      join_activated-Handled (record s { stun_server = invalidate s.stun_server res.session_id }) c
        res _ _
        (Ran-trans net s.config r (
          Ran-trans net s.config (Ran-run net s.config m env.meanwhile q.0 q.1) (
            Ran-step net s.config (run net m env.meanwhile) env.now
              (activates res.session_id res.share_id c.conn.id) tt tt)))

  join_gated-Handled :
      (s : Server) (q : IsServed s.config env.meanwhile) (c : Client) (code : ℕ) (v : Verdict)
      → c.conn.id ≢ 0
      → Handled net s c (join_gated net env s c code v)
  unfolding join_gated step
  join_gated-Handled s q c code over_own n = reject_join-Handled s c
  join_gated-Handled s q c code over_global n = reject_join-Handled s c
  join_gated-Handled s q c code passed n =
      join_paired-Handled s q c _
        (Ran-step net s.config s.sessions env.now (joins code c.conn) n tt)

  pub handle_join-Handled :
      (s : Server) (q : IsServed s.config env.meanwhile) (c : Client) (code : Bytes)
      → c.conn.id ≢ 0
      → Handled net s c (handle_join net env s c code)
  unfolding handle_join
  handle_join-Handled s q c code n = join_gated-Handled _ q c (key (normalize_code code)) _ n
