-- ===== src/Relay/Session/Invariant/Disconnect.antt =====
-- Disconnecting and the grace period keep the invariant.
use remote_assist_tool.Base.{
  ℕ, ◌+◌, ◌≡◌, refl, Bool, true, false, ◌||◌, none, some, arith, Bool-cases, Option-cases, inl, inr,
  ◌∙◌, ap, [], ◌==◌, if◌then◌else◌,
}
use remote_assist_tool.Base.Dict.{Dict, lookup, delete, lookup-insert, lookup-delete}
use remote_assist_tool.Relay.Session.State.{
  TunnelSession, SessionManager, has_id, is_set, store, put,
}
use remote_assist_tool.Relay.Session.Teardown.{
  extend_expiry, restore_code, grace_after_in_use, grace_if, disconnect_help, disconnect_share,
  disconnect_client,
}
use remote_assist_tool.Relay.Session.Invariant.Defs.{Inv, InTable}
use remote_assist_tool.Relay.Session.Invariant.Update.{Keeps, update-Inv}
use remote_assist_tool.Relay.Session.Invariant.Routing.{store-IsRouted, put-Inv}

choose_Inv : (b : Bool) (x y : SessionManager) → Inv x → Inv y → Inv (if b then x else y)
choose_Inv true x y v w = v
choose_Inv false x y v w = w

-- Another table of codes that suits the sessions.
pub recode-Inv :
    (m : SessionManager) (d : Dict ℕ)
    → Inv m
    → ((c x : ℕ) → lookup c d ≡ some x → InTable m.heap m.sessions x × ((m.heap x).code ≡ c))
    → Inv (record m { by_code = d })
recode-Inv m d v h = record {
  distinct = v.distinct;
  live = v.live;
  code = h;
  client = v.client;
  conn = v.conn;
  counts = v.counts;
}

module _ (m : SessionManager) (v : Inv m) (r : ℕ) (live : InTable m.heap m.sessions r) where
  extended-Inv : (until : ℕ) → Inv (put m r (extend_expiry (m.heap r) until))
  unfolding extend_expiry
  extended-Inv until = put-Inv m v r _ (ground arith) (ground arith) (ground arith) (ground arith)

  grace-code :
      (until c x : ℕ)
      → lookup c (restore_code (lookup (m.heap r).code m.by_code) (m.heap r).code r m.by_code)
        ≡ some x
      → InTable (store m.heap r (extend_expiry (m.heap r) until)) m.sessions x
        × ((store m.heap r (extend_expiry (m.heap r) until) x).code ≡ c)
  unfolding extend_expiry restore_code
  grace-code until c x h =
      ground
        (arith, lookup-insert (m.heap r).code c r m.by_code, (extended-Inv until).code c x, live)

  pub grace_after_in_use-Inv : (now : ℕ) → Inv (grace_after_in_use m r now)
  unfolding grace_after_in_use
  grace_after_in_use-Inv now = choose_Inv (m.reconnect_grace == 0 || (m.heap r).closed) m _ v (
      recode-Inv _ _ (extended-Inv (now + m.reconnect_grace))
        (grace-code (now + m.reconnect_grace)))

  -- What the grace period leaves alone.
  pub grace-keeps :
      (b : Bool) (now : ℕ)
      → let n = grace_if b m r now in
        (n.sessions ≡ m.sessions)
        × (n.by_conn_id ≡ m.by_conn_id)
        × (n.by_client_id ≡ m.by_client_id)
        × ((n.heap r).id ≡ (m.heap r).id)
        × ((n.heap r).share ≡ (m.heap r).share)
        × ((n.heap r).help ≡ (m.heap r).help)
        × ((n.heap r).pending_help_id ≡ (m.heap r).pending_help_id)
        × ((n.heap r).closed ≡ (m.heap r).closed)
        × ((n.heap r).data_plane_ready ≡ (m.heap r).data_plane_ready)
  unfolding grace_after_in_use
  grace-keeps false now = (refl, refl, refl, refl, refl, refl, refl, refl, refl)
  grace-keeps true now = ground arith

module _ (m : SessionManager) (v : Inv m) (r conn_id : ℕ) where
  -- A session that loses the routing entry of one of its ends.
  cut-Inv :
      (t : TunnelSession)
      → Keeps (m.heap r) t
      → t.share ≡ (m.heap r).share
      → t.help ≡ (m.heap r).help
      → t.pending_help_id ≡ (m.heap r).pending_help_id
      → Inv (record m { heap = store m.heap r t; by_conn_id = delete conn_id m.by_conn_id })
  cut-Inv t k hs hh hp = update-Inv m v r t k _ λ c x h.
      let old : lookup c m.by_conn_id ≡ some x =
        ground (arith, lookup-delete conn_id c m.by_conn_id) in
      let q = v.conn c x old in
      store-IsRouted m v r t k c x q λ same. ground (arith, q.end_of, q.settled)

  -- The helper waits for its debounce: no routing entry leads to it.
  wait-Inv :
      lookup conn_id m.by_conn_id ≡ none
      → Inv (put m r (record (m.heap r) { pending_help_id = conn_id; timer_set = true }))
  wait-Inv gone =
      let k : Keeps (m.heap r) (record (m.heap r) { pending_help_id = conn_id; timer_set = true }) =
        ground arith in
      update-Inv m v r _ k m.by_conn_id λ c x h.
        let q = v.conn c x h in store-IsRouted m v r _ k c x q λ same. ground (arith, q.end_of)

  -- The share leaves its seat: no routing entry leads to it.
  leave-Inv :
      lookup conn_id m.by_conn_id ≡ none
      → has_id (m.heap r).share conn_id ≡ true
      → Inv (put m r (record (m.heap r) { share = none; live_replaces = []; conflict_until = 0 }))
  leave-Inv gone sits =
      let k : Keeps (m.heap r)
          (record (m.heap r) { share = none; live_replaces = []; conflict_until = 0 }) =
        ground arith in
      update-Inv m v r _ k m.by_conn_id λ c x h.
        let q = v.conn c x h in
        store-IsRouted m v r _ k c x q λ same. ground (arith, q.end_of, q.settled)

grace_if-Inv :
    (b : Bool) (m : SessionManager) (r now : ℕ)
    → Inv m
    → InTable m.heap m.sessions r
    → Inv (grace_if b m r now)
grace_if-Inv true m r now v live = grace_after_in_use-Inv m v r live now
grace_if-Inv false m r now v live = v

lookup-delete_self : (k : ℕ) (d : Dict ℕ) → lookup k (delete k d) ≡ none
lookup-delete_self k d = ground (arith, lookup-delete k k d)

module _ (m : SessionManager) (v : Inv m) (r conn_id now : ℕ)
    (live : InTable m.heap m.sessions r) where
  disconnect_help-Inv : Inv (disconnect_help m now r conn_id)
  unfolding disconnect_help
  disconnect_help-Inv =
      let t = record (m.heap r) { data_plane_ready = false } in
      let m1 = record m { by_conn_id = delete conn_id m.by_conn_id; heap = store m.heap r t } in
      let v1 : Inv m1 = cut-Inv m v r conn_id t (ground arith) refl refl refl in
      let live1 : InTable m1.heap m.sessions r = ground (arith, live) in
      let b = is_set (m.heap r).share in
      wait-Inv (grace_if b m1 r now) (grace_if-Inv b m1 r now v1 live1) r conn_id (
        ap (lookup conn_id) (grace-keeps m1 v1 r live1 b now).1
        ∙ lookup-delete_self conn_id m.by_conn_id)

  disconnect_share-Inv :
      has_id (m.heap r).share conn_id ≡ true → Inv (disconnect_share m now r conn_id)
  unfolding disconnect_share
  disconnect_share-Inv sits =
      let t = record (m.heap r) { data_plane_ready = false; share_ready = false } in
      let m1 = record m { by_conn_id = delete conn_id m.by_conn_id; heap = store m.heap r t } in
      let v1 : Inv m1 = cut-Inv m v r conn_id t (ground arith) refl refl refl in
      let live1 : InTable m1.heap m.sessions r = ground (arith, live) in
      let b = is_set (m.heap r).help in
      let kept = grace-keeps m1 v1 r live1 b now in
      let same : (m1.heap r).share ≡ (m.heap r).share = ground arith in
      leave-Inv (grace_if b m1 r now) (grace_if-Inv b m1 r now v1 live1) r conn_id
        (ap (lookup conn_id) kept.1 ∙ lookup-delete_self conn_id m.by_conn_id)
        (ap (λ o. has_id o conn_id) (kept.4 ∙ same) ∙ sits)

module _ (m : SessionManager) (v : Inv m) where
  -- Whoever disconnects, the invariant stays.
  pub disconnect_client-Inv : (now conn_id : ℕ) → Inv (disconnect_client m now conn_id).0
  unfolding disconnect_client
  disconnect_client-Inv now conn_id = elim (Option-cases (lookup conn_id m.by_conn_id)) [
    | inl e ↦ rw (e, disconnect_client) v
    | inr (r, e) ↦
        let live = (v.conn conn_id r e).in_table in
        rw (e, disconnect_client)
          (elim (Bool-cases (has_id (m.heap r).help conn_id)) [
            | inl helper ↦ rw helper (disconnect_help-Inv m v r conn_id now live)
            | inr other ↦ rw other (elim (Bool-cases (has_id (m.heap r).share conn_id)) [
              | inl sits ↦ rw sits (disconnect_share-Inv m v r conn_id now live sits)
              | inr stranger ↦ rw stranger v
            ])
          ])
  ]
