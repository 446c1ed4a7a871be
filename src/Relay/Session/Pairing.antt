-- ===== src/Relay/Session/Pairing.antt =====
-- internal/relay/session.go: JoinSession, RollbackJoin, the data plane and FindPeer.
use remote_assist_tool.Base.{
  ℕ, Bool, true, false, not, ◌&&◌, ◌||◌, Option, none, some, ltb, ◌==◌, if◌then◌else◌,
}
use remote_assist_tool.Base.Dict.{lookup, insert, delete}
use remote_assist_tool.Relay.Session.State.{
  ClientConn, TunnelSession, SessionManager, session_not_found, code_expired, code_invalid,
  session_has_helper, Result, ok, err, store, put, has_id, is_set,
}
use remote_assist_tool.Relay.Session.Reuse.{unbind}

pub record JoinSessionResult : Type 0 where
  pub session_id : ℕ
  pub share : ClientConn
  pub share_id : ℕ
  pub share_version : ℕ
  pub share_host : ℕ

-- The assignments of a successful join.
unfoldable pub seat_help : TunnelSession → ClientConn → TunnelSession
seat_help s help = record s {
  timer_set = false;
  pending_help_id = if s.timer_set then 0 else s.pending_help_id;
  help = some help;
  help_public_addr = 0;
  help_private_addr = 0;
  help_nat_type = 0;
  data_plane_ready = false;
}

-- The session table after a successful join.
unfoldable pub joined_manager : SessionManager → ℕ → ClientConn → SessionManager
unfolding seat_help
joined_manager m r help = record m {
  heap = store m.heap r (seat_help (m.heap r) help);
  by_conn_id = insert help.id r (unbind (m.heap r).help m.by_conn_id);
}

unfoldable pub joined_result : TunnelSession → ClientConn → JoinSessionResult
joined_result s share = record {
  session_id = s.id;
  share = share;
  share_id = share.id;
  share_version = share.version;
  share_host = share.host;
}

-- The last check of JoinSession and all that follows it.
unfoldable pub join_share :
    SessionManager
    → ℕ
    → Option ClientConn
    → ClientConn
    → Result (SessionManager × JoinSessionResult)
unfolding joined_manager joined_result
join_share m r none help = err session_not_found
join_share m r (some share) help =
    if not (m.heap r).share_ready
    then err session_not_found
    else ok (joined_manager m r help, joined_result (m.heap r) share)

unfoldable pub join_session :
    SessionManager → ℕ → ℕ → ClientConn → Result (SessionManager × JoinSessionResult)
unfolding join_share
join_session m now code help = elim (lookup code m.by_code) [
  | none ↦ err code_invalid
  | some r ↦
      if ltb (m.heap r).expires_at now
      then err code_expired
      else if (m.heap r).closed
      then err session_not_found
      else if is_set (m.heap r).help && (m.heap r).pending_help_id == 0
      then err session_has_helper
      else join_share m r (m.heap r).share help
]

unfoldable pub rollback_join : SessionManager → ℕ → ℕ → SessionManager
rollback_join m session_id help_id = elim (lookup session_id m.sessions) [
  | none ↦ m
  | some r ↦
      if has_id (m.heap r).help help_id
      then record m {
        heap = store m.heap r (record (m.heap r) { help = none; data_plane_ready = false });
        by_conn_id = delete help_id m.by_conn_id;
      }
      else m
]

unfoldable pub activate_data_plane : SessionManager → ℕ → ℕ → ℕ → SessionManager × Bool
activate_data_plane m session_id share_id help_id = elim (lookup session_id m.sessions) [
  | none ↦ (m, false)
  | some r ↦
      if (m.heap r).closed
      then (m, false)
      else if not (has_id (m.heap r).share share_id) || not (has_id (m.heap r).help help_id)
      then (m, false)
      else if not ((m.heap r).pending_help_id == 0)
      then (m, false)
      else (put m r (record (m.heap r) { data_plane_ready = true }), true)
]

unfoldable pub session_is_active : TunnelSession → Bool
session_is_active s =
    not s.closed
    && (is_set s.share
        && (s.share_ready && (is_set s.help && (s.pending_help_id == 0 && s.data_plane_ready))))

unfoldable pub is_active_data_session : SessionManager → ℕ → Bool
unfolding session_is_active
is_active_data_session m session_id = elim (lookup session_id m.sessions) [
  | none ↦ false
  | some r ↦ session_is_active (m.heap r)
]

unfoldable pub peer_in : TunnelSession → ℕ → Option ClientConn
peer_in s conn_id =
    if has_id s.share conn_id then s.help else if has_id s.help conn_id then s.share else none

unfoldable pub find_peer : SessionManager → ℕ → Option ClientConn
unfolding peer_in
find_peer m conn_id = elim (lookup conn_id m.by_conn_id) [
  | none ↦ none
  | some r ↦ peer_in (m.heap r) conn_id
]
