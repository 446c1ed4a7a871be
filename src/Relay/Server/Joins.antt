-- ===== src/Relay/Server/Joins.antt =====
-- The two outcomes of handleJoin of internal/relay/server.go, for the two ends, the session manager
-- and the UDP relay.
use remote_assist_tool.Base.{
  ℕ, ◌+◌, ◌≡◌, ◌⊎◌, refl, arith, Bool, true, false, [], take, ◌∷◌, Option, none, some, leb, inl,
  inr, if◌then◌else◌, Option-cases, Bool-cases,
}
use remote_assist_tool.Base.Int.{pos_part}
use remote_assist_tool.Base.Dict.{lookup, lookup-delete}
use remote_assist_tool.P2p.Udp.Relay.{
  StunServer, key, invalidate_relay_session, delete_relay_session,
}
use remote_assist_tool.Relay.Code.{Bytes, normalize_code, format_code}
use remote_assist_tool.Relay.Code.Format.{all_ascii, normalize_code-format_code}
use remote_assist_tool.Relay.Session.State.{SessionManager, has_id, Result, ok, err}
use remote_assist_tool.Ratelimit.Bucket.{Bucket}
use remote_assist_tool.Ratelimit.Keyed.{KeyedLimiter}
use remote_assist_tool.Relay.Session.Pairing.{
  JoinSessionResult, join_session, rollback_join, activate_data_plane,
}
use remote_assist_tool.Relay.Session.Step.{run}
use remote_assist_tool.Relay.Session.Addresses.{Net}
use remote_assist_tool.Relay.Server.State.{
  Client, help, join_response, join_failed, session_ready, send, Server, Env, Outcome,
}
use remote_assist_tool.Relay.Server.Limiters.{Verdict, passed, over_own, over_global, gate}
use remote_assist_tool.Relay.Server.Register.{client_host, invalidate}
use remote_assist_tool.Relay.Server.Join.{
  reject_join, join_accepted, join_activated, join_paired, join_gated, handle_join,
}

-- The UDP relay, if there is one, has nothing under this session ID.
abbrev pub Forgotten : Option StunServer → ℕ → Type 0
Forgotten none id = Unit
Forgotten (some stun) id = lookup id stun.relay_sessions ≡ none

abbrev pub limit_of : Server → ℕ
limit_of s = pos_part s.config.limits.max_join_failures

-- The code has paired the helper with a share after all, but of that session it is not the helper.
pub record IsUndone (env : Env) (before : SessionManager) (code : ℕ) (c : Client)
    (after : SessionManager) : Type 0 where
  pub paired : SessionManager
  pub res : JoinSessionResult
  pub joined : join_session before env.now code c.conn ≡ ok (paired, res)
  pub unseated :
      (r : ℕ)
      → lookup res.session_id after.sessions ≡ some r
      → has_id (after.heap r).help c.conn.id ≡ false

-- The server after the limiters have counted the join.
abbrev limited : Server → KeyedLimiter → Bucket → Server
limited s own global = record s { join_limiter_per_ip = own; join_limiter_global = global }

-- A join that fails: the client hears the same whatever the reason, and keeps its state but for the
-- count of its failures, which closes the connection at the limit. The session manager is as it
-- was, or the pairing is undone.
pub record IsRejection (env : Env) (s : Server) (code : ℕ) (c : Client) (o : Outcome) : Type 0 where
  pub answer : o.out ≡ send c.conn join_failed ∷ []
  pub client : o.client ≡ record c { join_failures = c.join_failures + 1 }
  pub at_limit : o.closes ≡ leb (limit_of s) (c.join_failures + 1)
  pub leaves : (o.server.sessions ≡ s.sessions) ⊎ IsUndone env s.sessions code c o.server.sessions

-- The two ends sit in the session, and its data plane is open.
pub record IsOpen (m : SessionManager) (res : JoinSessionResult) (help_id : ℕ) : Type 0 where
  pub at_ : ℕ
  pub listed : lookup res.session_id m.sessions ≡ some at_
  pub open_ : (m.heap at_).closed ≡ false
  pub shares : has_id (m.heap at_).share res.share_id ≡ true
  pub helps : has_id (m.heap at_).help help_id ≡ true
  pub calm : (m.heap at_).pending_help_id ≡ 0
  pub ready : (m.heap at_).data_plane_ready ≡ true

-- A join that succeeds: the helper and the share that the code pairs it with are told of one
-- session, whose data plane is open for the two and of which the UDP relay has forgotten all that
-- came before.
pub record IsPairing (env : Env) (s : Server) (code : ℕ) (c : Client) (o : Outcome) : Type 0 where
  pub paired : SessionManager
  pub res : JoinSessionResult
  pub joined : join_session s.sessions env.now code c.conn ≡ ok (paired, res)
  pub told :
      o.out
      ≡ send c.conn (
          join_response res.session_id res.share_version
            (if c.supports_update_notice
              then res.share_host
              else env.legacy_help_host res.share_host)
            s.update_info)
        ∷ send res.share
            (session_ready res.session_id c.conn.version (env.legacy_share_host c.conn.host))
        ∷ []
  pub client : o.client ≡ record c { join_failures = 0; type = help }
  pub stays : o.closes ≡ false
  pub opens : IsOpen o.server.sessions res c.conn.id
  pub forgotten : Forgotten o.server.stun_server res.session_id

activated-IsOpen :
    (m : SessionManager) (res : JoinSessionResult) (help_id : ℕ)
    → (activate_data_plane m res.session_id res.share_id help_id).1 ≡ true
    → IsOpen (activate_data_plane m res.session_id res.share_id help_id).0 res help_id
unfolding activate_data_plane
activated-IsOpen m res help_id e = elim (Option-cases (lookup res.session_id m.sessions)) [
  | inl gone ↦ absurd (ground (arith, gone, e))
  | inr (r, there) ↦ elim (Bool-cases (m.heap r).closed) [
    | inl closed ↦ absurd (ground (arith, there, closed, e))
    | inr open_ ↦ record {
      at_ = r;
      listed = ground (arith, there, open_, e);
      open_ = ground (arith, there, open_, e);
      shares = ground (arith, there, open_, e);
      helps = ground (arith, there, open_, e);
      calm = ground (arith, there, open_, e);
      ready = ground (arith, there, open_, e);
    }
  ]
]

invalidate-Forgotten : (stun : Option StunServer) (id : ℕ) → Forgotten (invalidate stun id) id
unfolding invalidate invalidate_relay_session delete_relay_session
invalidate-Forgotten none id = tt
invalidate-Forgotten (some stun) id = elim (Option-cases (lookup id stun.relay_sessions)) [
  | inl gone ↦ rw (gone, delete_relay_session) gone
  | inr (x, there) ↦ ground (arith, there, lookup-delete id id stun.relay_sessions)
]

rollback-unseated :
    (m : SessionManager) (session_id help_id r : ℕ)
    → lookup session_id (rollback_join m session_id help_id).sessions ≡ some r
    → has_id ((rollback_join m session_id help_id).heap r).help help_id ≡ false
unfolding rollback_join
rollback-unseated m session_id help_id r e = elim (Option-cases (lookup session_id m.sessions)) [
  | inl gone ↦ absurd (ground (arith, gone, e))
  | inr (i, there) ↦ elim (Bool-cases (has_id (m.heap i).help help_id)) [
    | inl sits ↦ ground (arith, there, sits, e)
    | inr other ↦ ground (arith, there, other, e)
  ]
]

module _ (net : Net) (env : Env) (c : Client) (s : Server) (code : ℕ) where
  abbrev IsEither : Outcome → Type 0
  IsEither o = IsRejection env s code c o ⊎ IsPairing env s code c o

  rejected :
      (own : KeyedLimiter) (global : Bucket) → IsEither (reject_join (limited s own global) c)
  unfolding reject_join
  rejected own global =
      inl (record { answer = refl; client = refl; at_limit = refl; leaves = inl refl })

  activated-IsEither :
      (t : Server) (paired : SessionManager) (res : JoinSessionResult) (m : SessionManager)
      (active : Bool)
      → t.config ≡ s.config
      → t.update_info ≡ s.update_info
      → join_session s.sessions env.now code c.conn ≡ ok (paired, res)
      → (active ≡ true → IsOpen m res c.conn.id)
      → Forgotten t.stun_server res.session_id
      → IsEither (join_activated env t c res m active)
  unfolding join_activated join_accepted reject_join
  activated-IsEither t paired res m true same info joined h f = inr (record {
    paired = paired;
    res = res;
    joined = joined;
    told = rw info refl;
    client = refl;
    stays = refl;
    opens = h refl;
    forgotten = f;
  })
  activated-IsEither t paired res m false same info joined h f = inl (record {
    answer = refl;
    client = refl;
    at_limit = rw same refl;
    leaves = inr (record {
      paired = paired;
      res = res;
      joined = joined;
      unseated = rollback-unseated m res.session_id c.conn.id;
    });
  })

  paired-IsEither :
      (own : KeyedLimiter) (global : Bucket) (result : Result (SessionManager × JoinSessionResult))
      → join_session s.sessions env.now code c.conn ≡ result
      → IsEither (join_paired net env (limited s own global) c result)
  unfolding join_paired
  paired-IsEither own global (err e) joined = rejected own global
  paired-IsEither own global (ok (m, res)) joined =
      activated-IsEither
        (record (limited s own global) { stun_server = invalidate s.stun_server res.session_id }) m
        res _ _ refl refl joined (activated-IsOpen (run net m env.meanwhile) res c.conn.id)
        (invalidate-Forgotten s.stun_server res.session_id)

  gated-IsEither :
      (own : KeyedLimiter) (global : Bucket) (v : Verdict)
      → IsEither (join_gated net env (limited s own global) c code v)
  unfolding join_gated
  gated-IsEither own global over_own = rejected own global
  gated-IsEither own global over_global = rejected own global
  gated-IsEither own global passed = paired-IsEither own global _ refl

module _ (net : Net) (env : Env) (c : Client) where
  -- A join has two outcomes, whatever other connections do in between. It pairs the helper with the
  -- share that JoinSession finds for the code: that share and the helper are told of the session,
  -- its data plane is open for these two, and the UDP relay has nothing left of it. Or it is
  -- rejected: whatever the reason, the helper hears the same, its failures are counted, the
  -- connection closes when they reach the limit, and the session manager is as it was, or
  -- JoinSession had found a session and the connection is not the helper of it.
  pub handle_join_either :
      (s : Server) (code : Bytes)
      → IsRejection env s (key (normalize_code code)) c (handle_join net env s c code)
        ⊎ IsPairing env s (key (normalize_code code)) c (handle_join net env s c code)
  unfolding handle_join
  handle_join_either s code =
      let g =
        gate s.config.disable_source_ip_limits s.join_limiter_per_ip s.join_limiter_global env.now
          (client_host net c.conn) in
      gated-IsEither net env c s (key (normalize_code code)) g.own g.global g.verdict

  -- When the first four bytes of a code, or all of a shorter one, are ASCII, a join with the form
  -- that FormatCode displays is the join with the code.
  pub handle_join-format_code :
      (s : Server) (code : Bytes)
      → all_ascii (take 4 code) ≡ true
      → handle_join net env s c (format_code code) ≡ handle_join net env s c code
  unfolding handle_join
  handle_join-format_code s code ascii = rw (normalize_code-format_code code ascii) refl
