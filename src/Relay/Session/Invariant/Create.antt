-- ===== src/Relay/Session/Invariant/Create.antt =====
-- createSession keeps the invariant.
use remote_assist_tool.Base.{
  ℕ, ◌+◌, ◌<◌, ◌≡◌, ◌≢◌, ◌⊎◌, sym, ap, Bool, true, false, not, ◌&&◌, List, [], ◌∷◌, Option, none,
  some, arith, Bool-cases, Option-cases, inl, inr, ◌==◌, ltb, leb, if◌then◌else◌,
}
use remote_assist_tool.Base.Dict.{
  Dict, lookup, insert, size, count_if, lookup-insert, insert-Distinct, count_if-insert,
  count_if_congr,
}
use remote_assist_tool.Relay.Session.State.{
  ClientConn, TunnelSession, SessionManager, Err, has_id, store,
}
use remote_assist_tool.Relay.Session.Create.{
  count_of, draw_session_id, Creation, created, refused, drawing, bind_share, new_session,
  insert_session, create_session,
}
use remote_assist_tool.Relay.Session.Invariant.Defs.{Inv, IsLive, IsRouted, InTable, charged}

-- What insertion needs of the new session.
pub record IsNew (m : SessionManager) (s : TunnelSession) : Type 0 where
  pub free : lookup s.id m.sessions ≡ none
  pub open_ : s.closed ≡ false
  pub payer : s.counted_by_ip ≡ true → s.creator_ip ≢ 0
  pub alone : s.help ≡ none
  pub calm : s.pending_help_id ≡ 0
  pub share_named : has_id s.share 0 ≡ false

lookup-bind_share :
    (o : Option ClientConn) (r c : ℕ) (d : Dict ℕ) {x : ℕ}
    → lookup c (bind_share o r d) ≡ some x
    → ((has_id o c ≡ true) × (x ≡ r)) ⊎ (lookup c d ≡ some x)
lookup-bind_share none r c d h = inr h
lookup-bind_share (some a) r c d h = ground (arith, lookup-insert a.id c r d)

-- The manager after a call of createSession.
abbrev pub after_creation : SessionManager → Creation → SessionManager
after_creation m (created m' r) = m'
after_creation m (refused e) = m
after_creation m drawing = m

-- The drawn ID is free.
pub draw_session_id-free :
    (taken : Dict ℕ) (draws : List ℕ) {i : ℕ}
    → draw_session_id taken draws ≡ some i
    → lookup i taken ≡ none
unfolding draw_session_id
draw_session_id-free taken [] h = absurd (ground arith)
draw_session_id-free taken (d ∷ draws) {i} h = elim (Option-cases (lookup d taken)) [
  | inl e ↦ ground (arith, e)
  | inr (r, e) ↦ draw_session_id-free taken draws (ground (arith, e))
]

module _ (m : SessionManager) (v : Inv m) (s : TunnelSession) (w : IsNew m s) where
  abbrev heap' : ℕ → TunnelSession
  heap' = store m.heap m.next s

  old_below : (k x : ℕ) → lookup k m.sessions ≡ some x → x < m.next
  old_below k x h = (v.live k x h).allocated

  old_heap : (k x : ℕ) → lookup k m.sessions ≡ some x → heap' x ≡ m.heap x
  old_heap k x h = ground (arith, old_below k x h)

  old_InTable :
      (x : ℕ) → InTable m.heap m.sessions x → InTable heap' (insert s.id m.next m.sessions) x
  old_InTable x h =
      rw (old_heap (m.heap x).id x h)
        (ground (arith, lookup-insert s.id (m.heap x).id m.next m.sessions, w.free))

  new_InTable : InTable heap' (insert s.id m.next m.sessions) m.next
  new_InTable = ground (arith, lookup-insert s.id s.id m.next m.sessions)

  insert-IsLive :
      (k x : ℕ)
      → lookup k (insert s.id m.next m.sessions) ≡ some x
      → IsLive (m.next + 1) k x (heap' x)
  insert-IsLive k x h = elim (Bool-cases (s.id == k)) [
    | inl same ↦
        let here : x ≡ m.next = ground (arith, lookup-insert s.id k m.next m.sessions) in
        rw here (ground (arith, w))
    | inr other ↦
        let old : lookup k m.sessions ≡ some x =
          ground (arith, lookup-insert s.id k m.next m.sessions) in
        rw (old_heap k x old) (ground (arith, v.live k x old))
  ]

  insert-conn :
      (c x : ℕ)
      → lookup c (bind_share s.share m.next m.by_conn_id) ≡ some x
      → IsRouted heap' (insert s.id m.next m.sessions) c x
  insert-conn c x h = elim (lookup-bind_share s.share m.next c m.by_conn_id h) [
    | inl (sits, here) ↦ rw here (record {
      in_table = new_InTable;
      end_of = ground (arith, sits);
      named = ground (arith, sits, w.share_named);
      settled = ground (arith, sits, w);
    })
    | inr old ↦
        let q = v.conn c x old in
        let same = old_heap (m.heap x).id x q.in_table in
        record {
          in_table = old_InTable x q.in_table;
          end_of = rw same q.end_of;
          named = q.named;
          settled = rw same q.settled;
        }
  ]

  insert-code :
      (c x : ℕ)
      → lookup c (insert s.code m.next m.by_code) ≡ some x
      → InTable heap' (insert s.id m.next m.sessions) x × ((heap' x).code ≡ c)
  insert-code c x h = elim (Bool-cases (s.code == c)) [
    | inl same ↦
        let here : x ≡ m.next = ground (arith, lookup-insert s.code c m.next m.by_code) in
        rw here (new_InTable, ground arith)
    | inr other ↦
        let old : lookup c m.by_code ≡ some x =
          ground (arith, lookup-insert s.code c m.next m.by_code) in
        let q = v.code c x old in (old_InTable x q.0, rw (old_heap (m.heap x).id x q.0) q.1)
  ]

  insert-client :
      (c x : ℕ)
      → lookup c (
          if not (s.client_id == 0)
          then insert s.client_id m.next m.by_client_id
          else m.by_client_id)
        ≡ some x
      → InTable heap' (insert s.id m.next m.sessions) x × ((heap' x).client_id ≡ c) × (c ≢ 0)
  insert-client c x h = elim (Bool-cases (not (s.client_id == 0) && s.client_id == c)) [
    | inl same ↦
        let here : x ≡ m.next = ground (arith, lookup-insert s.client_id c m.next m.by_client_id) in
        rw here (new_InTable, ground arith, ground arith)
    | inr other ↦
        let old : lookup c m.by_client_id ≡ some x =
          ground (arith, lookup-insert s.client_id c m.next m.by_client_id) in
        let q = v.client c x old in (old_InTable x q.0, rw (old_heap (m.heap x).id x q.0) q.1, q.2)
  ]

  insert-counts :
      (ip : ℕ)
      → count_of (
          lookup ip (
            if s.counted_by_ip
            then insert s.creator_ip
                (count_of (lookup s.creator_ip m.session_count_per_ip) + 1)
                m.session_count_per_ip
            else m.session_count_per_ip))
        ≡ count_if (λ r. charged (heap' r) ip) (insert s.id m.next m.sessions)
  insert-counts ip =
      let same : charged (heap' m.next) ip ≡ charged s ip = ground arith in
      let olds =
        count_if_congr (λ r. charged (m.heap r) ip) (λ r. charged (heap' r) ip) m.sessions
          v.distinct (λ k x h. ap (λ t. charged t ip) (sym (old_heap k x h))) in
      let ins = count_if-insert (λ r. charged (heap' r) ip) s.id m.next m.sessions w.free in
      ground (
        arith,
        same,
        olds,
        ins,
        v.counts ip,
        v.counts s.creator_ip,
        lookup-insert s.creator_ip ip (count_of (lookup s.creator_ip m.session_count_per_ip) + 1)
            m.session_count_per_ip,
      )

  pub insert_session-Inv : Inv (insert_session m m.next s)
  unfolding insert_session
  insert_session-Inv = record {
    distinct = insert-Distinct s.id m.next m.sessions v.distinct;
    live = insert-IsLive;
    code = insert-code;
    client = insert-client;
    conn = insert-conn;
    counts = insert-counts;
  }

refusal_test :
    (m : SessionManager) (b : Bool) (e : Err) (x : Creation)
    → Inv m
    → Inv (after_creation m x)
    → Inv (after_creation m (if b then refused e else x))
refusal_test m true e x v w = v
refusal_test m false e x v w = w

-- Every outcome of createSession keeps the invariant.
pub create_session-Inv :
    (m : SessionManager) (draws : List ℕ) (now code : ℕ) (share : Option ClientConn)
    (ttl client_id share_ip max_per_ip max_total : ℕ) (ready : Bool)
    → Inv m
    → has_id share 0 ≡ false
    → Inv (
        after_creation m
          (create_session m draws now code share ttl client_id share_ip max_per_ip max_total ready))
unfolding create_session
create_session-Inv m draws now code share ttl client_id share_ip max_per_ip max_total ready v n =
    refusal_test m (leb max_total (size m.sessions)) _ _ v (
      refusal_test m
        ((not (share_ip == 0) && ltb 0 max_per_ip)
          && leb max_per_ip (count_of (lookup share_ip m.session_count_per_ip)))
        _ _ v
        (elim (Option-cases (draw_session_id m.sessions draws)) [
          | inl e ↦ rw e v
          | inr (i, e) ↦ rw e (
              insert_session-Inv m v
                (new_session i code share now ttl client_id share_ip max_per_ip ready)
                (let free = draw_session_id-free m.sessions draws e in ground (arith, free)))
        ]))
