-- ===== src/Relay/Session/Teardown.antt =====
-- internal/relay/session.go: closing, disconnecting, the grace period and the cleanup.
use remote_assist_tool.Base.{
  ℕ, ◌+◌, ◌-◌, Bool, true, false, not, ◌&&◌, ◌||◌, List, [], ◌∷◌, ◌++◌, Option, none, some, ltb,
  leb, ◌==◌, if◌then◌else◌,
}
use remote_assist_tool.Base.Dict.{Dict, lookup, insert, delete}
use remote_assist_tool.Relay.Session.State.{
  ClientConn, TunnelSession, SessionManager, store, put, has_id, is_set,
}

-- On the map alone: the caller holds the lock.
unfoldable pub decrement_session_count : Dict ℕ → ℕ → Dict ℕ
decrement_session_count counts share_ip =
    if share_ip == 0 then counts else elim (lookup share_ip counts) [
      | none ↦ counts
      | some cur ↦ if leb cur 1 then delete share_ip counts else insert share_ip (cur - 1) counts
    ]

-- `m[k] == r`: a missing key gives nil, which is no session.
abbrev pub maps_to : Option ℕ → ℕ → Bool
maps_to none r = false
maps_to (some x) r = x == r

-- `if d[k] == r { delete(d, k) }`
abbrev pub delete_own : ℕ → ℕ → Dict ℕ → Dict ℕ
delete_own k r d = if maps_to (lookup k d) r then delete k d else d

abbrev pub delete_own_conn : Option ClientConn → ℕ → Dict ℕ → Dict ℕ
delete_own_conn none r d = d
delete_own_conn (some c) r d = delete_own c.id r d

unfoldable pub remove_session : SessionManager → ℕ → ℕ → SessionManager
remove_session m session_id r =
    let s = m.heap r in
    record m {
      heap = store m.heap r (record s {
        closed = true;
        data_plane_ready = false;
        timer_set = false;
        counted_by_ip = false;
      });
      by_conn_id = delete_own_conn s.help r (delete_own_conn s.share r m.by_conn_id);
      sessions = delete session_id m.sessions;
      by_code = delete_own s.code r m.by_code;
      by_client_id =
          if not (s.client_id == 0)
          then delete_own s.client_id r m.by_client_id
          else m.by_client_id;
      session_count_per_ip =
          if s.counted_by_ip
          then decrement_session_count m.session_count_per_ip s.creator_ip
          else m.session_count_per_ip;
    }

pub record Deleted : Type 0 where
  pub after : SessionManager
  pub share : Option ClientConn
  pub help : Option ClientConn
  pub deleted : Bool

-- `expected` is a pointer that may be nil.
unfoldable pub delete_session_locked : SessionManager → ℕ → Option ℕ → Deleted
unfolding remove_session
delete_session_locked m session_id expected = elim (lookup session_id m.sessions) [
  | none ↦ record { after = m; share = none; help = none; deleted = false }
  | some r ↦
      if not (maps_to expected r)
      then record { after = m; share = none; help = none; deleted = false }
      else record {
        after = remove_session m session_id r;
        share = (m.heap r).share;
        help = (m.heap r).help;
        deleted = true;
      }
]

abbrev pub conns : Option ClientConn → List ClientConn
conns none = []
conns (some c) = c ∷ []

-- With the connections that the caller then closes.
unfoldable pub close_session : SessionManager → ℕ → SessionManager × List ClientConn
unfolding delete_session_locked
close_session m session_id =
    let d = delete_session_locked m session_id (lookup session_id m.sessions) in
    (d.after, conns d.share ++ conns d.help)

-- The expiry becomes max(old, until).
unfoldable pub extend_expiry : TunnelSession → ℕ → TunnelSession
extend_expiry s until = if ltb s.expires_at until then record s { expires_at = until } else s

-- The mapping of a code is restored only if the code is free.
unfoldable pub restore_code : Option ℕ → ℕ → ℕ → Dict ℕ → Dict ℕ
restore_code none code r by_code = insert code r by_code
restore_code (some x) code r by_code = by_code

unfoldable pub grace_after_in_use : SessionManager → ℕ → ℕ → SessionManager
unfolding extend_expiry restore_code
grace_after_in_use m r now =
    let s = m.heap r in
    if m.reconnect_grace == 0 || s.closed then m else record m {
      heap = store m.heap r (extend_expiry s (now + m.reconnect_grace));
      by_code = restore_code (lookup s.code m.by_code) s.code r m.by_code;
    }

pub record DisconnectResult : Type 0 where
  pub peer_to_notify : Option ClientConn
  pub session_id : ℕ
  pub was_share : Bool
  pub reset_data_plane : Bool

abbrev pub grace_if : Bool → SessionManager → ℕ → ℕ → SessionManager
grace_if b m r now = if b then grace_after_in_use m r now else m

-- The branch of a helper: it keeps its seat until the debounce timer fires.
unfoldable pub disconnect_help : SessionManager → ℕ → ℕ → ℕ → SessionManager
unfolding grace_after_in_use
disconnect_help m now r conn_id =
    let m1 = record m {
      by_conn_id = delete conn_id m.by_conn_id;
      heap = store m.heap r (record (m.heap r) { data_plane_ready = false });
    } in
    let m2 = grace_if (is_set (m.heap r).share) m1 r now in
    put m2 r (record (m2.heap r) { pending_help_id = conn_id; timer_set = true })

-- The branch of the share.
unfoldable pub disconnect_share : SessionManager → ℕ → ℕ → ℕ → SessionManager
unfolding grace_after_in_use
disconnect_share m now r conn_id =
    let m1 = record m {
      by_conn_id = delete conn_id m.by_conn_id;
      heap = store m.heap r (record (m.heap r) { data_plane_ready = false; share_ready = false });
    } in
    let m2 = grace_if (is_set (m.heap r).help) m1 r now in
    put m2 r (record (m2.heap r) { share = none; live_replaces = []; conflict_until = 0 })

unfoldable pub disconnect_client : SessionManager → ℕ → ℕ → SessionManager × Option DisconnectResult
unfolding disconnect_help disconnect_share
disconnect_client m now conn_id = elim (lookup conn_id m.by_conn_id) [
  | none ↦ (m, none)
  | some r ↦
      if has_id (m.heap r).help conn_id
      then (
        disconnect_help m now r conn_id,
        some (record {
          peer_to_notify = none;
          session_id = (m.heap r).id;
          was_share = false;
          reset_data_plane = true;
        }),
      )
      else if has_id (m.heap r).share conn_id
      then (
        disconnect_share m now r conn_id,
        some (record {
          peer_to_notify = (m.heap r).help;
          session_id = (m.heap r).id;
          was_share = true;
          reset_data_plane = true;
        }),
      )
      else (m, none)
]

-- The callback of the debounce timer of session `r`, with the share that it notifies. It may run
-- after `Stop`: the timer may have fired already and wait for the lock.
unfoldable pub help_debounce_fires : SessionManager → ℕ → SessionManager × Option ClientConn
help_debounce_fires m r =
    if has_id (m.heap r).help (m.heap r).pending_help_id
    then (put m r (record (m.heap r) { help = none; pending_help_id = 0 }), (m.heap r).share)
    else (m, none)

pub record Cleanup : Type 0 where
  pub after : SessionManager
  pub expired : List ℕ
  pub to_close : List ClientConn

-- One round of the loop over `sm.sessions`.
unfoldable pub cleanup_entry : ℕ → ℕ → ℕ → Cleanup → Cleanup
unfolding delete_session_locked
cleanup_entry now session_id r c =
    let m = c.after in
    let s = m.heap r in
    let m1 = record m { by_code = delete_own s.code r m.by_code } in
    let d = delete_session_locked m1 session_id (some r) in
    if not (ltb s.expires_at now)
    then c
    else if is_set s.share && is_set s.help
    then record c { after = m1 }
    else if d.deleted
    then record {
      after = d.after;
      expired = c.expired ++ session_id ∷ [];
      to_close = c.to_close ++ (conns d.share ++ conns d.help);
    }
    else record c { after = d.after }

unfoldable pub cleanup_loop : ℕ → Dict ℕ → Cleanup → Cleanup
cleanup_loop now [] c = c
cleanup_loop now ((session_id, r) ∷ rest) c =
    cleanup_loop now rest (cleanup_entry now session_id r c)

-- Go visits a map in an arbitrary order; `order` is that order. Only the entry that is visited is
-- deleted in a round.
unfoldable pub cleanup_expired : SessionManager → ℕ → Dict ℕ → Cleanup
unfolding cleanup_loop cleanup_entry
cleanup_expired m now order =
    cleanup_loop now order (record { after = m; expired = []; to_close = [] })
