-- ===== src/Relay/Session/Rejoin.antt =====
-- Coming back after a disconnection within the grace period (internal/relay/session.go).
use remote_assist_tool.Base.{
  ℕ, ◌+◌, ◌≤◌, ◌<◌, ◌≡◌, ◌≢◌, ◌⊎◌, true, false, none, some, arith, ◌∙◌, ap,
}
use remote_assist_tool.Base.Dict.{lookup, lookup-insert}
use remote_assist_tool.Relay.Session.State.{ClientConn, SessionManager, ok, has_id}
use remote_assist_tool.Relay.Session.Pairing.{JoinSessionResult, join_session}
use remote_assist_tool.Relay.Session.Join.{IsJoinable, IsJoined, join_session_succeeds}
use remote_assist_tool.Relay.Session.Reuse.{
  reuse_session_by_client_id, reused, take_over, taken_over,
}
use remote_assist_tool.Relay.Session.Invariant.Pairing.{help_debounce_fires-Inv}
use remote_assist_tool.Relay.Session.Teardown.{disconnect_client, help_debounce_fires}
use remote_assist_tool.Relay.Session.Invariant.Disconnect.{disconnect_client-Inv}
use remote_assist_tool.Relay.Session.Invariant.Defs.{Inv}

-- The session of a helper that disconnects, as the next helper finds it.
module _ (m : SessionManager) (v : Inv m) (now conn_id r : ℕ) (share : ClientConn) where
  waiting-IsJoinable :
      (later : ℕ)
      → lookup conn_id m.by_conn_id ≡ some r
      → has_id (m.heap r).help conn_id ≡ true
      → (m.heap r).share ≡ some share
      → (m.heap r).share_ready ≡ true
      → (lookup (m.heap r).code m.by_code ≡ none) ⊎ (lookup (m.heap r).code m.by_code ≡ some r)
      → 0 < m.reconnect_grace
      → later ≤ now + m.reconnect_grace
      → IsJoinable (disconnect_client m now conn_id).0 later (m.heap r).code r share
  unfolding disconnect_client
  waiting-IsJoinable later e sits hosted ready free grace soon =
      let q = v.conn conn_id r e in
      let live = v.live (m.heap r).id r q.in_table in
      ground (arith, e, live, q, lookup-insert (m.heap r).code (m.heap r).code r m.by_code)

  fired-IsJoinable :
      (later : ℕ)
      → lookup conn_id m.by_conn_id ≡ some r
      → has_id (m.heap r).help conn_id ≡ true
      → (m.heap r).share ≡ some share
      → (m.heap r).share_ready ≡ true
      → (lookup (m.heap r).code m.by_code ≡ none) ⊎ (lookup (m.heap r).code m.by_code ≡ some r)
      → 0 < m.reconnect_grace
      → later ≤ now + m.reconnect_grace
      → IsJoinable
          (help_debounce_fires (disconnect_client m now conn_id).0 r).0
          later
          (m.heap r).code
          r
          share
  unfolding disconnect_client help_debounce_fires
  fired-IsJoinable later e sits hosted ready free grace soon =
      let q = v.conn conn_id r e in
      let live = v.live (m.heap r).id r q.in_table in
      ground (arith, e, live, q, lookup-insert (m.heap r).code (m.heap r).code r m.by_code)

  -- A helper leaves a session whose share is answered. Until the grace period is over the old code
  -- lets a helper in, before the debounce timer fires and after it, unless the code has come to
  -- lead to another session.
  pub rejoin_within_grace :
      (later : ℕ) (help : ClientConn)
      → lookup conn_id m.by_conn_id ≡ some r
      → has_id (m.heap r).help conn_id ≡ true
      → (m.heap r).share ≡ some share
      → (m.heap r).share_ready ≡ true
      → (lookup (m.heap r).code m.by_code ≡ none) ⊎ (lookup (m.heap r).code m.by_code ≡ some r)
      → 0 < m.reconnect_grace
      → later ≤ now + m.reconnect_grace
      → let left = (disconnect_client m now conn_id).0 in
        let fired = (help_debounce_fires left r).0 in
        ((n : SessionManager) × (res : JoinSessionResult) × (join_session left later
              (m.heap r).code
              help
            ≡ ok (n, res))
          × IsJoined left n res r share help)
        × ((n : SessionManager) × (res : JoinSessionResult) × (join_session fired later
                (m.heap r).code
                help
              ≡ ok (n, res))
            × IsJoined fired n res r share help)
  rejoin_within_grace later help e sits hosted ready free grace soon =
      let left = (disconnect_client m now conn_id).0 in
      let v1 : Inv left = disconnect_client-Inv m v now conn_id in
      (
        join_session_succeeds left v1 later (m.heap r).code help r share
            (waiting-IsJoinable later e sits hosted ready free grace soon),
        join_session_succeeds (help_debounce_fires left r).0 (help_debounce_fires-Inv left v1 r)
            later (m.heap r).code help r share
            (fired-IsJoinable later e sits hosted ready free grace soon),
      )

-- A vacant session that its owner asks for again is handed over as it is.
vacant_reuse :
    (m : SessionManager) (r client_id now : ℕ) (new_share : ClientConn)
    → client_id ≢ 0
    → lookup client_id m.by_client_id ≡ some r
    → (m.heap r).share ≡ none
    → (m.heap r).closed ≡ false
    → now ≤ (m.heap r).expires_at
    → reuse_session_by_client_id m now client_id new_share ≡ take_over m r (m.heap r) new_share
unfolding reuse_session_by_client_id
vacant_reuse m r client_id now new_share n f gone open_ fresh = ground arith

-- What a departing share leaves behind.
share_left :
    (m : SessionManager) (v : Inv m) (now conn_id r : ℕ) (help : ClientConn)
    → lookup conn_id m.by_conn_id ≡ some r
    → has_id (m.heap r).help conn_id ≡ false
    → (m.heap r).help ≡ some help
    → 0 < m.reconnect_grace
    → let n = (disconnect_client m now conn_id).0 in
      (n.by_client_id ≡ m.by_client_id)
      × ((n.heap r).share ≡ none)
      × ((n.heap r).help ≡ some help)
      × ((n.heap r).closed ≡ false)
      × (now + m.reconnect_grace ≤ (n.heap r).expires_at)
      × ((n.heap r).id ≡ (m.heap r).id)
      × ((n.heap r).code ≡ (m.heap r).code)
unfolding disconnect_client
share_left m v now conn_id r help e other sits grace =
    let q = v.conn conn_id r e in
    let live = v.live (m.heap r).id r q.in_table in ground (arith, e, q, live)

-- A share leaves a session in which a helper sits. Until the grace period is over its client ID
-- gives it the same session with the same code, without the helper, whose connection the manager
-- returns to the caller.
pub reuse_within_grace :
    (m : SessionManager) (v : Inv m) (now conn_id r client_id later : ℕ)
    (help new_share : ClientConn)
    → lookup conn_id m.by_conn_id ≡ some r
    → lookup client_id m.by_client_id ≡ some r
    → has_id (m.heap r).help conn_id ≡ false
    → (m.heap r).help ≡ some help
    → 0 < m.reconnect_grace
    → later ≤ now + m.reconnect_grace
    → (n : SessionManager) × (until : ℕ) × (reuse_session_by_client_id
          (disconnect_client m now conn_id).0
          later
          client_id
          new_share
        ≡ reused n (m.heap r).id (m.heap r).code until none (some help))
      × ((n.heap r).share ≡ some new_share)
      × ((n.heap r).help ≡ none)
      × (later ≤ until)
unfolding take_over
reuse_within_grace m v now conn_id r client_id later help new_share e f other sits grace soon =
    let left = (disconnect_client m now conn_id).0 in
    let l = share_left m v now conn_id r help e other sits grace in
    let found = ap (lookup client_id) l.0 ∙ f in
    let reuse =
      vacant_reuse left r client_id later new_share (v.client client_id r f).2 found l.1 l.3
        (omega arith) in
    (
      taken_over left r (left.heap r) new_share,
      (left.heap r).expires_at,
      ground (arith, reuse, l),
      ground arith,
      ground arith,
      omega arith,
    )
