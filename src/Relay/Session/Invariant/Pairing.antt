-- ===== src/Relay/Session/Invariant/Pairing.antt =====
-- Joining, rolling back, activating and the debounce timer keep the invariant.
use remote_assist_tool.Base.{
  ℕ, ◌≡◌, ◌≢◌, refl, true, false, Option, none, some, arith, Bool-cases, Option-cases, inl, inr,
  ◌==◌, ◌⊎◌, if◌then◌else◌, Bool, ltb, not, ◌&&◌, ◌||◌,
}
use remote_assist_tool.Base.Dict.{Dict, lookup, insert, delete, lookup-insert, lookup-delete}
use remote_assist_tool.Relay.Session.State.{
  ClientConn, SessionManager, Result, ok, err, session_not_found, code_expired, session_has_helper,
  has_id, is_set, store, put, after_result,
}
use remote_assist_tool.Relay.Session.Reuse.{unbind}
use remote_assist_tool.Relay.Session.Pairing.{
  seat_help, join_share, join_session, rollback_join, activate_data_plane, JoinSessionResult,
}
use remote_assist_tool.Relay.Session.Teardown.{help_debounce_fires}
use remote_assist_tool.Relay.Session.Invariant.Defs.{Inv, IsRouted, InTable}
use remote_assist_tool.Relay.Session.Invariant.Update.{Keeps, update-Inv}
use remote_assist_tool.Relay.Session.Invariant.Routing.{
  IsEnd, store-IsRouted, new-IsRouted, put-Inv,
}

pub lookup-unbind :
    (o : Option ClientConn) (c : ℕ) (d : Dict ℕ) {x : ℕ}
    → lookup c (unbind o d) ≡ some x
    → (has_id o c ≡ false) × (lookup c d ≡ some x)
lookup-unbind none c d h = (refl, h)
lookup-unbind (some a) c d h = ground (arith, lookup-delete a.id c d)

join_tests :
    (m : SessionManager) (expired closed taken : Bool)
    (res : Result (SessionManager × JoinSessionResult))
    → Inv m
    → Inv (after_result m res)
    → Inv (
        after_result m (
          if expired
          then err code_expired
          else if closed
          then err session_not_found
          else if taken
          then err session_has_helper
          else res))
join_tests m true closed taken res v w = v
join_tests m false true taken res v w = v
join_tests m false false true res v w = v
join_tests m false false false res v w = w

ready_test :
    (m : SessionManager) (waits : Bool) (n : SessionManager) (a : JoinSessionResult)
    → Inv m
    → Inv n
    → Inv (after_result m (if waits then err session_not_found else ok (n, a)))
ready_test m true n a v w = v
ready_test m false n a v w = w

activate_tests :
    (m : SessionManager) (closed unpaired pending : Bool) (n : SessionManager)
    → Inv m
    → Inv n
    → Inv (
        let res : SessionManager × Bool =
          if closed
          then (m, false)
          else if unpaired
          then (m, false)
          else if pending
          then (m, false)
          else (n, true) in
        res.0)
activate_tests m true unpaired pending n v w = v
activate_tests m false true pending n v w = v
activate_tests m false false true n v w = v
activate_tests m false false false n v w = w

module _ (m : SessionManager) (v : Inv m) where
  seat_help-Keeps :
      (r : ℕ) (help : ClientConn) → help.id ≢ 0 → Keeps (m.heap r) (seat_help (m.heap r) help)
  unfolding seat_help
  seat_help-Keeps r help n = ground arith

  seat_help-IsEnd :
      (r : ℕ) (help : ClientConn) (c : ℕ)
      → InTable m.heap m.sessions r
      → c ≢ 0
      → (has_id (m.heap r).share c ≡ true) ⊎ (help.id ≡ c)
      → IsEnd (seat_help (m.heap r) help) c
  unfolding seat_help
  seat_help-IsEnd r help c live n e = ground (arith, v.live (m.heap r).id r live)

  -- The routing table after a helper took the seat.
  seat_help-IsRouted :
      (r : ℕ) (help : ClientConn) (c x : ℕ)
      → InTable m.heap m.sessions r
      → help.id ≢ 0
      → lookup c (insert help.id r (unbind (m.heap r).help m.by_conn_id)) ≡ some x
      → IsRouted (store m.heap r (seat_help (m.heap r) help)) m.sessions c x
  seat_help-IsRouted r help c x live n h = elim (Bool-cases (help.id == c)) [
    | inl same ↦
        let here : x ≡ r =
          ground (arith, lookup-insert help.id c r (unbind (m.heap r).help m.by_conn_id)) in
        rw here (
          new-IsRouted m v r _ (seat_help-Keeps r help n) c live (ground arith)
            (seat_help-IsEnd r help c live (ground arith) (inr (ground arith))))
    | inr other ↦
        let old =
          lookup-unbind (m.heap r).help c m.by_conn_id {x = x}
            (ground (arith, lookup-insert help.id c r (unbind (m.heap r).help m.by_conn_id))) in
        let q = v.conn c x old.1 in
        store-IsRouted m v r _ (seat_help-Keeps r help n) c x q
          λ e. seat_help-IsEnd r help c live q.named (inl (ground (arith, q.end_of)))
  ]

  join_share-Inv :
      (r : ℕ) (share : Option ClientConn) (help : ClientConn)
      → InTable m.heap m.sessions r
      → help.id ≢ 0
      → Inv (after_result m (join_share m r share help))
  unfolding join_share
  join_share-Inv r none help live n = v
  join_share-Inv r (some share) help live n = ready_test m (not (m.heap r).share_ready) _ _ v (
      update-Inv m v r _ (seat_help-Keeps r help n) _
        λ c x h. seat_help-IsRouted r help c x live n h)

  -- A call of JoinSession, whether it succeeds or not, keeps the invariant.
  pub join_session-Inv :
      (now code : ℕ) (help : ClientConn)
      → help.id ≢ 0
      → Inv (after_result m (join_session m now code help))
  unfolding join_session
  join_session-Inv now code help n = elim (Option-cases (lookup code m.by_code)) [
    | inl e ↦ rw (e, join_session) v
    | inr (r, e) ↦
        let joined = join_share-Inv r (m.heap r).share help (v.code code r e).0 n in
        rw (e, join_session)
          (join_tests m (ltb (m.heap r).expires_at now) (m.heap r).closed
            (is_set (m.heap r).help && (m.heap r).pending_help_id == 0)
            (join_share m r (m.heap r).share help) v joined)
  ]

  rollback_seat-Inv :
      (r help_id : ℕ)
      → has_id (m.heap r).help help_id ≡ true
      → Inv (record m {
        heap = store m.heap r (record (m.heap r) { help = none; data_plane_ready = false });
        by_conn_id = delete help_id m.by_conn_id;
      })
  rollback_seat-Inv r help_id e =
      let k : Keeps (m.heap r) (record (m.heap r) { help = none; data_plane_ready = false }) =
        ground arith in
      update-Inv m v r _ k _ λ c x h.
        let old : lookup c m.by_conn_id ≡ some x =
          ground (arith, lookup-delete help_id c m.by_conn_id) in
        let q = v.conn c x old in
        store-IsRouted m v r _ k c x q
          λ same. ground (arith, q.end_of, q.settled, lookup-delete help_id c m.by_conn_id)

  pub rollback_join-Inv : (session_id help_id : ℕ) → Inv (rollback_join m session_id help_id)
  unfolding rollback_join
  rollback_join-Inv session_id help_id = elim (Option-cases (lookup session_id m.sessions)) [
    | inl e ↦ rw (e, rollback_join) v
    | inr (r, e) ↦
        rw (e, rollback_join)
          (elim (Bool-cases (has_id (m.heap r).help help_id)) [
            | inl sits ↦ rw sits (rollback_seat-Inv r help_id sits)
            | inr gone ↦ rw gone v
          ])
  ]

  ready-Inv : (r : ℕ) → Inv (put m r (record (m.heap r) { data_plane_ready = true }))
  ready-Inv r = put-Inv m v r _ (ground arith) refl refl refl

  pub activate_data_plane-Inv :
      (session_id share_id help_id : ℕ) → Inv (activate_data_plane m session_id share_id help_id).0
  unfolding activate_data_plane
  activate_data_plane-Inv session_id share_id help_id =
      elim (Option-cases (lookup session_id m.sessions)) [
        | inl e ↦ rw (e, activate_data_plane) v
        | inr (r, e) ↦
            rw (e, activate_data_plane)
              (activate_tests m (m.heap r).closed
                (not (has_id (m.heap r).share share_id) || not (has_id (m.heap r).help help_id))
                (not ((m.heap r).pending_help_id == 0)) _ v (ready-Inv r))
      ]

  -- The debounce callback keeps the invariant whenever it runs, on whatever session.
  pub help_debounce_fires-Inv : (r : ℕ) → Inv (help_debounce_fires m r).0
  unfolding help_debounce_fires
  help_debounce_fires-Inv r =
      elim (Bool-cases (has_id (m.heap r).help (m.heap r).pending_help_id)) [
        | inl due ↦
            let k : Keeps (m.heap r) (record (m.heap r) { help = none; pending_help_id = 0 }) =
              ground arith in
            rw due (
              update-Inv m v r _ k m.by_conn_id λ c x h.
                let q = v.conn c x h in store-IsRouted m v r _ k c x q λ same. ground (arith, q))
        | inr other ↦ rw other v
      ]
