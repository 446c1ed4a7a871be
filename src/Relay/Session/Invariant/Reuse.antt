-- ===== src/Relay/Session/Invariant/Reuse.antt =====
-- ReuseSessionByClientID, MarkShareReady and UpdatePeerAddr keep the invariant.
use remote_assist_tool.Base.{
  ℕ, ◌≡◌, ◌≢◌, refl, Bool, true, false, not, ◌||◌, List, Option, none, some, arith, Bool-cases,
  Option-cases, inl, inr, ◌==◌, ltb, if◌then◌else◌, length,
}
use remote_assist_tool.Base.Dict.{lookup, insert, lookup-insert}
use remote_assist_tool.Relay.Session.State.{ClientConn, SessionManager, has_id, store, put}
use remote_assist_tool.Relay.Session.Reuse.{
  unbind, rebind_session, take_over, replace_live, reuse_found, reuse_session_by_client_id,
  mark_share_ready, Reuse, absent, conflict, reused, record_live_replace,
  share_conflict_max_replaces,
}
use remote_assist_tool.Relay.Session.Addresses.{
  Net, update_peer_addr, update_share_addr, update_help_addr,
}
use remote_assist_tool.Relay.Session.Invariant.Defs.{Inv, IsRouted, InTable}
use remote_assist_tool.Relay.Session.Invariant.Update.{Keeps, update-Inv}
use remote_assist_tool.Relay.Session.Invariant.Routing.{store-IsRouted, new-IsRouted, put-Inv}
use remote_assist_tool.Relay.Session.Invariant.Pairing.{lookup-unbind}

-- The manager after a call of ReuseSessionByClientID.
abbrev pub after_reuse : SessionManager → Reuse → SessionManager
after_reuse m absent = m
after_reuse m (conflict m' i v h) = m'
after_reuse m (reused m' i c e s h) = m'

absent_test :
    (m : SessionManager) (b : Bool) (res : Reuse)
    → Inv m
    → Inv (after_reuse m res)
    → Inv (after_reuse m (if b then absent else res))
absent_test m true res v w = v
absent_test m false res v w = w

choice_test :
    (m : SessionManager) (b : Bool) (x y : Reuse)
    → Inv (after_reuse m x)
    → Inv (after_reuse m y)
    → Inv (after_reuse m (if b then x else y))
choice_test m true x y v w = v
choice_test m false x y v w = w

module _ (m : SessionManager) (v : Inv m) where
  rebind-Keeps :
      (r : ℕ) (ts : List ℕ) (new_share : ClientConn)
      → Keeps (m.heap r) (rebind_session (record (m.heap r) { live_replaces = ts }) new_share)
  unfolding rebind_session
  rebind-Keeps r ts new_share = ground arith

  rebind-IsRouted :
      (r : ℕ) (ts : List ℕ) (new_share : ClientConn) (c x : ℕ)
      → InTable m.heap m.sessions r
      → new_share.id ≢ 0
      → lookup c
          (insert new_share.id r (unbind (m.heap r).help (unbind (m.heap r).share m.by_conn_id)))
        ≡ some x
      → IsRouted
          (store m.heap r (rebind_session (record (m.heap r) { live_replaces = ts }) new_share))
          m.sessions
          c
          x
  unfolding rebind_session
  rebind-IsRouted r ts new_share c x live n h =
      let d = unbind (m.heap r).help (unbind (m.heap r).share m.by_conn_id) in
      let k = rebind-Keeps r ts new_share in
      elim (Bool-cases (new_share.id == c)) [
        | inl same ↦
            let here : x ≡ r = ground (arith, lookup-insert new_share.id c r d) in
            rw here (new-IsRouted m v r _ k c live (ground arith) (ground arith))
        | inr other ↦
            let one =
              lookup-unbind (m.heap r).help c (unbind (m.heap r).share m.by_conn_id) {x = x}
                (ground (arith, lookup-insert new_share.id c r d)) in
            let two = lookup-unbind (m.heap r).share c m.by_conn_id {x = x} one.1 in
            let q = v.conn c x two.1 in
            store-IsRouted m v r _ k c x q λ same. absurd (ground (arith, q.end_of, one.0, two.0))
      ]

  take_over-Inv :
      (r : ℕ) (ts : List ℕ) (new_share : ClientConn)
      → InTable m.heap m.sessions r
      → new_share.id ≢ 0
      → Inv (after_reuse m (take_over m r (record (m.heap r) { live_replaces = ts }) new_share))
  unfolding take_over
  take_over-Inv r ts new_share live n =
      update-Inv m v r _ (rebind-Keeps r ts new_share) _
        λ c x h. rebind-IsRouted r ts new_share c x live n h

  conflict-Inv :
      (r : ℕ) (ts : List ℕ) (until : ℕ)
      → Inv (put m r (record (m.heap r) { live_replaces = ts; conflict_until = until }))
  conflict-Inv r ts until = put-Inv m v r _ (ground arith) refl refl refl

  replace_live-Inv :
      (now r : ℕ) (old new_share : ClientConn)
      → InTable m.heap m.sessions r
      → new_share.id ≢ 0
      → Inv (after_reuse m (replace_live m now r old new_share))
  unfolding replace_live
  replace_live-Inv now r old new_share live n =
      choice_test m (ltb now (m.heap r).conflict_until) _ _ (conflict-Inv r _ _) (
        choice_test m
          (ltb share_conflict_max_replaces
            (length (record_live_replace (m.heap r).live_replaces now)))
          _ _ (conflict-Inv r _ _) (take_over-Inv r _ new_share live n))

  reuse_found-Inv :
      (now r : ℕ) (o : Option ClientConn) (new_share : ClientConn)
      → InTable m.heap m.sessions r
      → new_share.id ≢ 0
      → Inv (after_reuse m (reuse_found m now r o new_share))
  unfolding reuse_found
  reuse_found-Inv now r none new_share live n =
      take_over-Inv r (m.heap r).live_replaces new_share live n
  reuse_found-Inv now r (some old) new_share live n =
      choice_test m (not (old.ptr == new_share.ptr)) (replace_live m now r old new_share) _
        (replace_live-Inv now r old new_share live n)
        (take_over-Inv r (m.heap r).live_replaces new_share live n)

  -- Every outcome of ReuseSessionByClientID keeps the invariant.
  pub reuse_session_by_client_id-Inv :
      (now client_id : ℕ) (new_share : ClientConn)
      → new_share.id ≢ 0
      → Inv (after_reuse m (reuse_session_by_client_id m now client_id new_share))
  unfolding reuse_session_by_client_id
  reuse_session_by_client_id-Inv now client_id new_share n =
      elim (Option-cases (lookup client_id m.by_client_id)) [
        | inl e ↦ rw (e, reuse_session_by_client_id) (absent_test m (client_id == 0) absent v v)
        | inr (r, e) ↦
            rw (e, reuse_session_by_client_id)
              (absent_test m (client_id == 0) _ v (
                absent_test m (ltb (m.heap r).expires_at now || (m.heap r).closed) _ v
                  (reuse_found-Inv now r (m.heap r).share new_share (v.client client_id r e).0 n)))
      ]

pub pair_test {ℓ} :
    {A : Type ℓ} (b : Bool) (x y : SessionManager × A)
    → Inv x.0
    → Inv y.0
    → Inv (let res : SessionManager × A = if b then x else y in res.0)
pair_test true x y v w = v
pair_test false x y v w = w

module _ (m : SessionManager) (v : Inv m) where
  pub mark_share_ready-Inv :
      (session_id expected : ℕ) → Inv (mark_share_ready m session_id expected).0
  unfolding mark_share_ready
  mark_share_ready-Inv session_id expected = elim (Option-cases (lookup session_id m.sessions)) [
    | inl e ↦ rw (e, mark_share_ready) v
    | inr (r, e) ↦
        rw (e, mark_share_ready)
          (pair_test ((m.heap r).closed || not (has_id (m.heap r).share expected)) (m, false)
            (_, true) v
            (put-Inv m v r (record (m.heap r) { share_ready = true }) (ground arith) refl refl
              refl))
  ]

  update_help_addr-Inv :
      (net : Net) (r : ℕ) (o : Option ClientConn) (conn_id public private nat : ℕ)
      → Inv (update_help_addr net m r o conn_id public private nat).0
  unfolding update_help_addr
  update_help_addr-Inv net r none conn_id public private nat = v
  update_help_addr-Inv net r (some help) conn_id public private nat =
      pair_test (help.id == conn_id) (_, _) (m, none)
        (put-Inv m v r _ (ground arith) refl refl refl) v

  update_share_addr-Inv :
      (net : Net) (r : ℕ) (o : Option ClientConn) (conn_id public private nat : ℕ)
      → Inv (update_share_addr net m r o conn_id public private nat).0
  unfolding update_share_addr
  update_share_addr-Inv net r none conn_id public private nat =
      update_help_addr-Inv net r (m.heap r).help conn_id public private nat
  update_share_addr-Inv net r (some share) conn_id public private nat =
      pair_test (share.id == conn_id) (_, _)
        (update_help_addr net m r (m.heap r).help conn_id public private nat)
        (put-Inv m v r _ (ground arith) refl refl refl)
        (update_help_addr-Inv net r (m.heap r).help conn_id public private nat)

  pub update_peer_addr-Inv :
      (net : Net) (conn_id public private nat : ℕ)
      → Inv (update_peer_addr net m conn_id public private nat).0
  unfolding update_peer_addr
  update_peer_addr-Inv net conn_id public private nat =
      elim (Option-cases (lookup conn_id m.by_conn_id)) [
        | inl e ↦ rw (e, update_peer_addr) v
        | inr (r, e) ↦
            rw (e, update_peer_addr)
              (update_share_addr-Inv net r (m.heap r).share conn_id public private nat)
      ]
