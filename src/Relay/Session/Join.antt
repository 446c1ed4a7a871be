-- ===== src/Relay/Session/Join.antt =====
-- When a helper may join, and what a join does (internal/relay/session.go: JoinSession, FindPeer).
use remote_assist_tool.Base.{
  ℕ, ◌≤◌, ◌≡◌, ◌≢◌, ◌⊎◌, refl, true, false, none, some, arith, Bool-cases, Option-cases, sym, ◌∙◌,
  inl, inr, ◌==◌,
}
use remote_assist_tool.Base.Dict.{lookup, lookup-insert}
use remote_assist_tool.Relay.Session.State.{
  ClientConn, TunnelSession, SessionManager, ok, err, session_has_helper, code_expired,
  code_invalid,
}
use remote_assist_tool.Relay.Session.Pairing.{
  JoinSessionResult, joined_manager, joined_result, join_session, find_peer, is_active_data_session,
}
use remote_assist_tool.Relay.Session.Reuse.{unbind}
use mathlib.Core.Path.{subst₂}
use remote_assist_tool.Relay.Session.Create.{get_session_by_code}
use remote_assist_tool.Relay.Session.Invariant.Defs.{Inv}

-- The seat of the helper is free: nobody sits there, or the one who does has disconnected.
abbrev pub HasRoom : TunnelSession → Type 0
HasRoom s = (s.help ≡ none) ⊎ (s.pending_help_id ≢ 0)

pub record IsJoinable (m : SessionManager) (now code r : ℕ) (share : ClientConn) : Type 0 where
  pub found : lookup code m.by_code ≡ some r
  pub fresh : now ≤ (m.heap r).expires_at
  pub open_ : (m.heap r).closed ≡ false
  pub room : HasRoom (m.heap r)
  pub hosted : (m.heap r).share ≡ some share
  pub answered : (m.heap r).share_ready ≡ true

-- What a successful join gives.
pub record IsJoined (m n : SessionManager) (res : JoinSessionResult) (r : ℕ)
    (share help : ClientConn) : Type 0 where
  pub session_id : res.session_id ≡ (m.heap r).id
  pub partner : res.share ≡ share
  pub seated : (n.heap r).help ≡ some help
  pub still_hosted : (n.heap r).share ≡ some share
  pub calm : (n.heap r).pending_help_id ≡ 0
  pub still_open : (n.heap r).closed ≡ false
  pub same_codes : n.by_code ≡ m.by_code
  pub routed : (find_peer n help.id ≡ some share) ⊎ (share.id ≡ help.id)
  pub quiet : is_active_data_session n (m.heap r).id ≡ false

module _ (m : SessionManager) (v : Inv m) (now code : ℕ) (help : ClientConn) where
  join_succeeds :
      (r : ℕ) (share : ClientConn)
      → IsJoinable m now code r share
      → join_session m now code help ≡ ok (joined_manager m r help, joined_result (m.heap r) share)
  unfolding join_session
  join_succeeds r share j = ground (arith, j)

  missing : lookup code m.by_code ≡ none → join_session m now code help ≡ err code_invalid
  unfolding join_session
  missing gone = ground (arith, gone)

  joinable :
      (r : ℕ)
      → lookup code m.by_code ≡ some r
      → (n : SessionManager) (res : JoinSessionResult) → join_session m now code help ≡ ok (n, res)
      → (share : ClientConn) × IsJoinable m now code r share
  unfolding join_session
  joinable r f n res e = elim (Option-cases (m.heap r).share) [
    | inl gone ↦ absurd (ground (arith, gone, f, e))
    | inr (share, sits) ↦ (share, ground (arith, sits, f, e))
  ]

  joined_routed :
      (r : ℕ) (share : ClientConn)
      → IsJoinable m now code r share
      → (find_peer (joined_manager m r help) help.id ≡ some share) ⊎ (share.id ≡ help.id)
  unfolding joined_manager find_peer
  joined_routed r share j = elim (Bool-cases (share.id == help.id)) [
    | inl same ↦ inr (ground arith)
    | inr other ↦
        inl
          (ground (arith, j, lookup-insert help.id help.id r (unbind (m.heap r).help m.by_conn_id)))
  ]

  joined :
      (r : ℕ) (share : ClientConn)
      → IsJoinable m now code r share
      → IsJoined m (joined_manager m r help) (joined_result (m.heap r) share) r share help
  unfolding joined_manager joined_result is_active_data_session
  joined r share j =
      let live = (v.code code r j.found).0 in
      let timed = (v.live (m.heap r).id r live).pending_timed in
      record {
        session_id = refl;
        partner = refl;
        seated = ground arith;
        still_hosted = ground (arith, j);
        calm = ground (arith, timed);
        still_open = ground (arith, j);
        same_codes = refl;
        routed = joined_routed r share j;
        quiet = ground (arith, live);
      }

  -- JoinSession succeeds whenever the code leads to a session that is open, not expired, whose share
  -- has been answered and whose helper's seat is free or held by a disconnected helper.
  pub join_session_succeeds :
      (r : ℕ) (share : ClientConn)
      → IsJoinable m now code r share
      → (n : SessionManager) × (res : JoinSessionResult) × (join_session m now code help
          ≡ ok (n, res))
        × IsJoined m n res r share help
  join_session_succeeds r share j = (
    joined_manager m r help,
    joined_result (m.heap r) share,
    join_succeeds r share j,
    joined r share j,
  )

  -- JoinSession succeeds only for a code that leads to a session that is open, not expired, whose share
  -- has been answered and whose helper's seat is free or held by a disconnected helper. After it the
  -- session's ends are its share and the new helper, no disconnection is pending, the helper's
  -- messages go to the share, and the data plane is not yet active.
  pub join_session_only :
      (n : SessionManager) (res : JoinSessionResult)
      → join_session m now code help ≡ ok (n, res)
      → (r : ℕ) × (share : ClientConn) × IsJoinable m now code r share
        × IsJoined m n res r share help
  join_session_only n res e = elim (Option-cases (lookup code m.by_code)) [
    | inl gone ↦ absurd (ground (arith, missing gone, e))
    | inr (r, f) ↦
        let (share, j) = joinable r f n res e in
        let done : ok (joined_manager m r help, joined_result (m.heap r) share) ≡ ok (n, res) =
          sym (join_succeeds r share j) ∙ e in
        let p : joined_manager m r help ≡ n = cc done in
        let q : joined_result (m.heap r) share ≡ res = cc done in
        (r, share, j, subst₂ (λ a b. IsJoined m a b r share help) p q (joined r share j))
  ]

  -- After a join the next call for the same code, by whatever helper, is refused with the error of
  -- a taken seat as long as the code has not expired.
  pub join_session_occupied :
      (n : SessionManager) (res : JoinSessionResult) (later : ℕ) (other : ClientConn)
      → join_session m now code help ≡ ok (n, res)
      → get_session_by_code n later code ≢ err code_expired
      → join_session n later code other ≡ err session_has_helper
  unfolding join_session get_session_by_code
  join_session_occupied n res later other e alive =
      let (r, share, j, d) = join_session_only n res e in
      ground (arith, j.found, d.same_codes, d.seated, d.calm, d.still_open)
