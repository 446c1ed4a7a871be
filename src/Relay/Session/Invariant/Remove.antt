-- ===== src/Relay/Session/Invariant/Remove.antt =====
-- Deleting a session keeps the invariant: closing, and the cleanup of expired sessions.
use remote_assist_tool.Base.{
  ℕ, ◌-◌, ◌≡◌, ◌≢◌, Bool, true, false, not, ◌&&◌, [], ◌∷◌, Option, none, some, arith, Option-cases,
  inl, inr, ◌==◌, ltb, if◌then◌else◌,
}
use remote_assist_tool.Base.Dict.{
  Dict, lookup, delete, count_if, lookup-insert, lookup-delete, delete-Distinct, count_if-delete,
  count_if_congr,
}
use remote_assist_tool.Relay.Session.State.{
  ClientConn, TunnelSession, SessionManager, has_id, is_set, store,
}
use remote_assist_tool.Relay.Session.Create.{count_of}
use remote_assist_tool.Relay.Session.Teardown.{
  decrement_session_count, maps_to, delete_own, delete_own_conn, remove_session,
  delete_session_locked, Deleted, close_session, Cleanup, cleanup_entry, cleanup_loop,
  cleanup_expired,
}
use remote_assist_tool.Relay.Session.Invariant.Defs.{Inv, IsLive, IsRouted, InTable, charged}
use remote_assist_tool.Relay.Session.Invariant.Disconnect.{recode-Inv}

pub lookup-delete_own :
    (k r c : ℕ) (d : Dict ℕ) {x : ℕ}
    → lookup c (delete_own k r d) ≡ some x
    → (lookup c d ≡ some x) × ((k ≡ c) → x ≢ r)
lookup-delete_own k r c d h = ground (arith, lookup-delete k c d)

lookup-delete_own_conn :
    (o : Option ClientConn) (r c : ℕ) (d : Dict ℕ) {x : ℕ}
    → lookup c (delete_own_conn o r d) ≡ some x
    → (lookup c d ≡ some x) × (has_id o c ≡ true → x ≢ r)
lookup-delete_own_conn none r c d h = (h, λ e. absurd (ground arith))
lookup-delete_own_conn (some a) r c d {x} h =
    let q = lookup-delete_own a.id r c d {x = x} h in (q.0, λ e. q.1 (ground arith))

count_of-decrement :
    (counts : Dict ℕ) (share_ip ip : ℕ)
    → share_ip ≢ 0
    → count_of (lookup ip (decrement_session_count counts share_ip))
      ≡ (if share_ip == ip then count_of (lookup ip counts) - 1 else count_of (lookup ip counts))
unfolding decrement_session_count
count_of-decrement counts share_ip ip n = ground (
  arith,
  lookup-delete share_ip ip counts,
  lookup-insert share_ip ip (count_of (lookup share_ip counts) - 1) counts,
)

module _ (m : SessionManager) (v : Inv m) (k r : ℕ) (found : lookup k m.sessions ≡ some r) where
  abbrev gone : TunnelSession
  gone = record (m.heap r) {
    closed = true;
    data_plane_ready = false;
    timer_set = false;
    counted_by_ip = false;
  }

  abbrev heap' : ℕ → TunnelSession
  heap' = store m.heap r gone

  -- A session that is still in the table is another one.
  other_ne :
      (x : ℕ) (i : ℕ)
      → lookup i (delete k m.sessions) ≡ some x
      → (x ≢ r) × (lookup i m.sessions ≡ some x)
  other_ne x i h =
      let old : lookup i m.sessions ≡ some x = ground (arith, lookup-delete k i m.sessions) in
      (ground (arith, lookup-delete k i m.sessions, v.live i x old, v.live k r found), old)

  other_InTable :
      (x : ℕ) → x ≢ r → InTable m.heap m.sessions x → InTable heap' (delete k m.sessions) x
  other_InTable x n h = ground (arith, lookup-delete k (m.heap x).id m.sessions, found)

  remove-IsLive : (i x : ℕ) → lookup i (delete k m.sessions) ≡ some x → IsLive m.next i x (heap' x)
  remove-IsLive i x h = let q = other_ne x i h in ground (arith, q.0, v.live i x q.1)

  remove-conn :
      (c x : ℕ)
      → lookup c
          (delete_own_conn (m.heap r).help r (delete_own_conn (m.heap r).share r m.by_conn_id))
        ≡ some x
      → IsRouted heap' (delete k m.sessions) c x
  remove-conn c x h =
      let one =
        lookup-delete_own_conn (m.heap r).help r c (delete_own_conn (m.heap r).share r m.by_conn_id)
          {x = x} h in
      let two = lookup-delete_own_conn (m.heap r).share r c m.by_conn_id {x = x} one.0 in
      let q = v.conn c x two.0 in
      let n : x ≢ r = ground (arith, q.end_of, one.1, two.1) in
      record {
        in_table = other_InTable x n q.in_table;
        end_of = ground (arith, n, q.end_of);
        named = q.named;
        settled = ground (arith, n, q.settled);
      }

  remove-code :
      (c x : ℕ)
      → lookup c (delete_own (m.heap r).code r m.by_code) ≡ some x
      → InTable heap' (delete k m.sessions) x × ((heap' x).code ≡ c)
  remove-code c x h =
      let old = lookup-delete_own (m.heap r).code r c m.by_code {x = x} h in
      let q = v.code c x old.0 in
      let n : x ≢ r = ground (arith, q.1, old.1) in (other_InTable x n q.0, ground (arith, n, q.1))

  remove-client :
      (c x : ℕ)
      → lookup c (
          if not ((m.heap r).client_id == 0)
          then delete_own (m.heap r).client_id r m.by_client_id
          else m.by_client_id)
        ≡ some x
      → InTable heap' (delete k m.sessions) x × ((heap' x).client_id ≡ c) × (c ≢ 0)
  remove-client c x h =
      let own = lookup-delete_own (m.heap r).client_id r c m.by_client_id {x = x} in
      let old : lookup c m.by_client_id ≡ some x =
        ground (arith, lookup-delete (m.heap r).client_id c m.by_client_id) in
      let q = v.client c x old in
      let n : x ≢ r =
        ground (arith, q.1, q.2, lookup-delete (m.heap r).client_id c m.by_client_id) in
      (other_InTable x n q.0, ground (arith, n, q.1), q.2)

  remove-counts :
      (ip : ℕ)
      → count_of (
          lookup ip (
            if (m.heap r).counted_by_ip
            then decrement_session_count m.session_count_per_ip (m.heap r).creator_ip
            else m.session_count_per_ip))
        ≡ count_if (λ x. charged (heap' x) ip) (delete k m.sessions)
  remove-counts ip =
      let olds =
        count_if_congr (λ x. charged (m.heap x) ip) (λ x. charged (heap' x) ip)
          (delete k m.sessions) (delete-Distinct k m.sessions v.distinct)
          (λ i x h. let q = other_ne x i h in ground (arith, q.0)) in
      let del = count_if-delete (λ x. charged (m.heap x) ip) k r m.sessions v.distinct found in
      ground (
        arith,
        olds,
        del,
        v.counts ip,
        v.live k r found,
        count_of-decrement m.session_count_per_ip (m.heap r).creator_ip ip,
      )

  pub remove_session-Inv : Inv (remove_session m k r)
  unfolding remove_session
  remove_session-Inv = record {
    distinct = delete-Distinct k m.sessions v.distinct;
    live = remove-IsLive;
    code = remove-code;
    client = remove-client;
    conn = remove-conn;
    counts = remove-counts;
  }

keep_test :
    (m : SessionManager) (b : Bool) (d : Deleted)
    → Inv m
    → Inv d.after
    → Inv (
        let res : Deleted =
          if b then record { after = m; share = none; help = none; deleted = false } else d in
        res.after)
keep_test m true d v w = v
keep_test m false d v w = w

pub delete_session_locked-Inv :
    (m : SessionManager) (session_id : ℕ) (expected : Option ℕ)
    → Inv m
    → Inv (delete_session_locked m session_id expected).after
unfolding delete_session_locked
delete_session_locked-Inv m session_id expected v =
    elim (Option-cases (lookup session_id m.sessions)) [
      | inl e ↦ rw (e, delete_session_locked) v
      | inr (r, e) ↦
          rw (e, delete_session_locked)
            (keep_test m (not (maps_to expected r)) _ v (remove_session-Inv m v session_id r e))
    ]

pub close_session-Inv :
    (m : SessionManager) (session_id : ℕ) → Inv m → Inv (close_session m session_id).0
unfolding close_session
close_session-Inv m session_id v =
    delete_session_locked-Inv m session_id (lookup session_id m.sessions) v

pub drop_code-Inv :
    (m : SessionManager) (code r : ℕ)
    → Inv m
    → Inv (record m { by_code = delete_own code r m.by_code })
drop_code-Inv m code r v =
    recode-Inv m (delete_own code r m.by_code) v
      λ c x h. v.code c x (lookup-delete_own code r c m.by_code {x = x} h).0

entry_test :
    (b : Bool) (x y : Cleanup)
    → Inv x.after
    → Inv y.after
    → Inv (let res : Cleanup = if b then x else y in res.after)
entry_test true x y v w = v
entry_test false x y v w = w

pub cleanup_entry-Inv :
    (now session_id r : ℕ) (c : Cleanup)
    → Inv c.after
    → Inv (cleanup_entry now session_id r c).after
unfolding cleanup_entry
cleanup_entry-Inv now session_id r c v =
    let m = c.after in
    let s = m.heap r in
    let m1 = record m { by_code = delete_own s.code r m.by_code } in
    let v1 = drop_code-Inv m s.code r v in
    let w = delete_session_locked-Inv m1 session_id (some r) v1 in
    let d = delete_session_locked m1 session_id (some r) in
    entry_test (not (ltb s.expires_at now)) c _ v (
      entry_test (is_set s.share && is_set s.help) (record c { after = m1 }) _ v1
        (entry_test d.deleted _ (record c { after = d.after }) w w))

cleanup_loop-Inv :
    (now : ℕ) (order : Dict ℕ) (c : Cleanup) → Inv c.after → Inv (cleanup_loop now order c).after
unfolding cleanup_loop
cleanup_loop-Inv now [] c v = v
cleanup_loop-Inv now ((session_id, r) ∷ rest) c v =
    cleanup_loop-Inv now rest (cleanup_entry now session_id r c)
      (cleanup_entry-Inv now session_id r c v)

-- The cleanup keeps the invariant in whatever order it visits the table.
pub cleanup_expired-Inv :
    (m : SessionManager) (now : ℕ) (order : Dict ℕ)
    → Inv m
    → Inv (cleanup_expired m now order).after
unfolding cleanup_expired
cleanup_expired-Inv m now order v = cleanup_loop-Inv now order _ v
