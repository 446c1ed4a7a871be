-- ===== src/Relay/Server/Refines/Registering.antt =====
-- handleRegister of internal/relay/server.go as calls of the session manager.
use remote_assist_tool.Base.{
  ℕ, ◌≡◌, ◌≢◌, refl, Bool, true, false, List, [], Option, none, some, if◌then◌else◌, not, ◌==◌,
  subst,
}
use remote_assist_tool.Relay.Session.State.{ClientConn, SessionManager}
use remote_assist_tool.Relay.Session.Create.{Creation, created, refused, drawing, create_session}
use remote_assist_tool.Relay.Session.Reuse.{
  Reuse, absent, conflict, reused, reuse_session_by_client_id,
}
use remote_assist_tool.Relay.Session.Addresses.{Net}
use remote_assist_tool.Relay.Session.Invariant.Create.{after_creation}
use remote_assist_tool.Relay.Session.Invariant.Reuse.{after_reuse}
use remote_assist_tool.Relay.Session.Step.{creates, reuses, marks_ready, step, run}
use remote_assist_tool.Relay.Server.State.{Client, Server, Env, Effect}
use remote_assist_tool.Relay.Server.Limiters.{Verdict, passed, over_own, over_global}
use remote_assist_tool.Relay.Server.Register.{
  client_host, invalidate, register_ready, new_code, max_sessions_of_ip, max_sessions,
  register_created, register_coded, register_reused, register_gated, handle_register, closes_old,
}
use remote_assist_tool.Relay.Server.Refines.Ran.{
  Ran, Ran-refl, Ran-trans, Ran-step, Ran-run, IsServed, Handled, Handled-after, Handled-refl,
}

module _ (net : Net) (env : Env) where
  register_ready-Handled :
      (s : Server) (q : IsServed s.config env.meanwhile) (c : Client)
      (code expires_at session_id : ℕ) (before : List Effect) (old_help : Option ClientConn)
      → Handled net s c (register_ready net env s c code expires_at session_id before old_help)
  unfolding register_ready step
  register_ready-Handled s q c code expires_at session_id before old_help = (
    Ran-trans net s.config (Ran-run net s.config s.sessions env.meanwhile q.0 q.1) (
        Ran-step net s.config (run net s.sessions env.meanwhile) env.now
          (marks_ready session_id c.conn.id) tt tt),
    refl,
    refl,
    refl,
    refl,
    refl,
    refl,
  )

  created_Ran :
      (s : Server) (c : Client) (code : ℕ) (r : ℕ) (m : SessionManager)
      → c.conn.id ≢ 0
      → create_session s.sessions env.id_draws env.now code
          (some c.conn)
          s.config.code_ttl
          c.client_id
          (client_host net c.conn)
          (max_sessions_of_ip s.config)
          (max_sessions s.config)
          false
        ≡ created m r
      → Ran net s.config s.sessions m
  unfolding step
  created_Ran s c code r m n e =
      subst (λ x. Ran net s.config s.sessions (after_creation s.sessions x)) e
        (Ran-step net s.config s.sessions env.now
          (creates (record {
            draws = env.id_draws;
            code = code;
            share = c.conn;
            ttl = s.config.code_ttl;
            client_id = c.client_id;
            share_ip = client_host net c.conn;
            max_per_ip = max_sessions_of_ip s.config;
            max_total = max_sessions s.config;
            ready = false;
          }))
          n (refl, refl))

  register_created-Handled :
      (s : Server) (q : IsServed s.config env.meanwhile) (c : Client) (code : ℕ) (made : Creation)
      → c.conn.id ≢ 0
      → create_session s.sessions env.id_draws env.now code
          (some c.conn)
          s.config.code_ttl
          c.client_id
          (client_host net c.conn)
          (max_sessions_of_ip s.config)
          (max_sessions s.config)
          false
        ≡ made
      → Handled net s c (register_created net env s c code made)
  unfolding register_created
  register_created-Handled s q c code (created m r) n e =
      Handled-after net s c (register_created net env s c code (created m r))
        (created_Ran s c code r m n e)
        (register_ready-Handled (record s { sessions = m }) q c code (m.heap r).expires_at
          (m.heap r).id [] none)
  register_created-Handled s q c code (refused x) n e = Handled-refl net s c
  register_created-Handled s q c code drawing n e = Handled-refl net s c

  register_coded-Handled :
      (s : Server) (q : IsServed s.config env.meanwhile) (c : Client) (code : Option ℕ)
      → c.conn.id ≢ 0
      → Handled net s c (register_coded net env s c code)
  unfolding register_coded
  register_coded-Handled s q c none n = Handled-refl net s c
  register_coded-Handled s q c (some code) n = register_created-Handled s q c code _ n refl

  register_reused-Handled :
      (s : Server) (q : IsServed s.config env.meanwhile) (c : Client) (found : Reuse)
      → c.conn.id ≢ 0
      → Ran net s.config s.sessions (after_reuse s.sessions found)
      → Handled net s c (register_reused net env s c found)
  unfolding register_reused
  register_reused-Handled s q c absent n r = register_coded-Handled s q c (new_code s env) n
  register_reused-Handled s q c (conflict m id version host) n r =
      Handled-after net s c (register_reused net env s c (conflict m id version host)) r
        (Handled-refl net (record s { sessions = m }) c)
  register_reused-Handled s q c (reused m id code expires_at old_share old_help) n r =
      Handled-after net s c
        (register_reused net env s c (reused m id code expires_at old_share old_help)) r
        (register_ready-Handled
          (record s { sessions = m; stun_server = invalidate s.stun_server id }) q c code expires_at
          id (closes_old old_share c.conn) old_help)

  reuse_or_absent-Ran :
      (s : Server) (c : Client) (b : Bool)
      → c.conn.id ≢ 0
      → Ran net s.config s.sessions (
          after_reuse s.sessions (
            if b then reuse_session_by_client_id s.sessions env.now c.client_id c.conn else absent))
  unfolding step
  reuse_or_absent-Ran s c true n =
      Ran-step net s.config s.sessions env.now (reuses c.client_id c.conn) n tt
  reuse_or_absent-Ran s c false n = Ran-refl net s.config s.sessions

  register_gated-Handled :
      (s : Server) (q : IsServed s.config env.meanwhile) (c : Client) (v : Verdict)
      → c.conn.id ≢ 0
      → Handled net s c (register_gated net env s c v)
  unfolding register_gated
  register_gated-Handled s q c over_own n = Handled-refl net s c
  register_gated-Handled s q c over_global n = Handled-refl net s c
  register_gated-Handled s q c passed n =
      register_reused-Handled s q c _ n (reuse_or_absent-Ran s c (not (c.client_id == 0)) n)

  pub handle_register-Handled :
      (s : Server) (q : IsServed s.config env.meanwhile) (c : Client)
      → c.conn.id ≢ 0
      → Handled net s c (handle_register net env s c)
  unfolding handle_register
  handle_register-Handled s q c n = register_gated-Handled _ q c _ n
