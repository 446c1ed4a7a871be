-- ===== src/Relay/Session/Reuse.antt =====
-- internal/relay/session.go: ReuseSessionByClientID, recordLiveReplace, MarkShareReady.
use remote_assist_tool.Base.{
  ℕ, ◌+◌, ◌-◌, Bool, true, false, not, ◌||◌, List, [], ◌∷◌, ◌++◌, Option, none, some, ltb, ◌==◌,
  if◌then◌else◌, length, drop,
}
use remote_assist_tool.Base.Dict.{Dict, lookup, insert, delete}
use remote_assist_tool.Relay.Session.State.{
  ClientConn, TunnelSession, SessionManager, store, put, has_id,
}

abbrev pub share_conflict_max_replaces : ℕ
share_conflict_max_replaces = 3

-- time.Minute and 10 * time.Minute, in nanoseconds
abbrev pub share_conflict_window : ℕ
share_conflict_window = 60_000_000_000

abbrev pub share_conflict_cooldown : ℕ
share_conflict_cooldown = 600_000_000_000

-- The loop over `times`: `t.After(now.Add(-window))`.
unfoldable pub keep_recent : List ℕ → ℕ → List ℕ
keep_recent [] now = []
keep_recent (t ∷ times) now =
    if ltb now (t + share_conflict_window) then t ∷ keep_recent times now else keep_recent times now

unfoldable pub record_live_replace : List ℕ → ℕ → List ℕ
record_live_replace times now =
    let kept = keep_recent times now ++ now ∷ [] in
    drop (length kept - (share_conflict_max_replaces + 1)) kept

pub data Reuse : Type 0 where
  absent : Reuse  -- (nil, false)
  conflict : SessionManager → ℕ → ℕ → ℕ → Reuse  -- SessionID, OnlineVersion, OnlineHost
  -- SessionID, Code, ExpiresAt, OldShare, OldHelp
  reused : SessionManager → ℕ → ℕ → ℕ → Option ClientConn → Option ClientConn → Reuse

abbrev pub unbind : Option ClientConn → Dict ℕ → Dict ℕ
unbind none d = d
unbind (some c) d = delete c.id d

-- The assignments of a successful reuse.
unfoldable pub rebind_session : TunnelSession → ClientConn → TunnelSession
rebind_session s new_share = record s {
  timer_set = false;
  help = none;
  pending_help_id = 0;
  share = some new_share;
  share_public_addr = 0;
  share_private_addr = 0;
  share_nat_type = 0;
  help_public_addr = 0;
  help_private_addr = 0;
  help_nat_type = 0;
  share_ready = false;
  data_plane_ready = false;
}

-- The session table after a successful reuse.
unfoldable pub taken_over : SessionManager → ℕ → TunnelSession → ClientConn → SessionManager
unfolding rebind_session
taken_over m r s new_share = record m {
  heap = store m.heap r (rebind_session s new_share);
  by_conn_id = insert new_share.id r (unbind s.help (unbind s.share m.by_conn_id));
}

unfoldable pub take_over : SessionManager → ℕ → TunnelSession → ClientConn → Reuse
unfolding taken_over
take_over m r s new_share =
    reused (taken_over m r s new_share) s.id s.code s.expires_at s.share s.help

-- What happens when the session has the share `old` and another connection registers.
unfoldable pub replace_live : SessionManager → ℕ → ℕ → ClientConn → ClientConn → Reuse
unfolding take_over
replace_live m now r old new_share =
    let s = m.heap r in
    let times = record_live_replace s.live_replaces now in
    if ltb now s.conflict_until
    then conflict (put m r (record s { conflict_until = now + share_conflict_cooldown })) s.id
        old.version old.host
    else if ltb share_conflict_max_replaces (length times)
    then conflict
        (put m r (record s { live_replaces = []; conflict_until = now + share_conflict_cooldown }))
        s.id old.version old.host
    else take_over m r (record s { live_replaces = times }) new_share

unfoldable pub reuse_found : SessionManager → ℕ → ℕ → Option ClientConn → ClientConn → Reuse
unfolding replace_live take_over
reuse_found m now r none new_share = take_over m r (m.heap r) new_share
reuse_found m now r (some old) new_share =
    if not (old.ptr == new_share.ptr)
    then replace_live m now r old new_share
    else take_over m r (m.heap r) new_share

unfoldable pub reuse_session_by_client_id : SessionManager → ℕ → ℕ → ClientConn → Reuse
unfolding reuse_found
reuse_session_by_client_id m now client_id new_share =
    if client_id == 0 then absent else elim (lookup client_id m.by_client_id) [
      | none ↦ absent
      | some r ↦
          if ltb (m.heap r).expires_at now || (m.heap r).closed
          then absent
          else reuse_found m now r (m.heap r).share new_share
    ]

unfoldable pub mark_share_ready : SessionManager → ℕ → ℕ → SessionManager × Bool
mark_share_ready m session_id expected = elim (lookup session_id m.sessions) [
  | none ↦ (m, false)
  | some r ↦
      if (m.heap r).closed || not (has_id (m.heap r).share expected)
      then (m, false)
      else (put m r (record (m.heap r) { share_ready = true }), true)
]
