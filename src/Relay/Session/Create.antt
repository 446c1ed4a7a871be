-- ===== src/Relay/Session/Create.antt =====
-- internal/relay/session.go: createSession and the two lookups of a session.
use remote_assist_tool.Base.{
  ℕ, ◌+◌, Bool, not, ◌&&◌, ◌||◌, List, [], ◌∷◌, Option, none, some, ltb, leb, ◌==◌, if◌then◌else◌,
}
use remote_assist_tool.Base.Dict.{Dict, lookup, insert, size}
use remote_assist_tool.Relay.Session.State.{
  ClientConn, TunnelSession, SessionManager, Err, session_not_found, code_expired, code_invalid,
  max_total_sessions, max_sessions_per_ip, Result, ok, err, blank, store,
}

-- `sm.sessionCountPerIP[ip]`, 0 for a missing key.
abbrev pub count_of : Option ℕ → ℕ
count_of none = 0
count_of (some n) = n

-- The loop that draws a session ID until one is free. The random draws are the list; `none` if it
-- runs out first.
unfoldable pub draw_session_id : Dict ℕ → List ℕ → Option ℕ
draw_session_id taken [] = none
draw_session_id taken (i ∷ draws) =
    let rest = draw_session_id taken draws in
    elim (lookup i taken) [ none ↦ some i | some r ↦ rest ]

pub data Creation : Type 0 where
  created : SessionManager → ℕ → Creation
  refused : Err → Creation
  drawing : Creation

-- `if share != nil { sm.byConnID[share.ID] = session }`
abbrev pub bind_share : Option ClientConn → ℕ → Dict ℕ → Dict ℕ
bind_share none r d = d
bind_share (some c) r d = insert c.id r d

unfoldable pub new_session : ℕ → ℕ → Option ClientConn → ℕ → ℕ → ℕ → ℕ → ℕ → Bool → TunnelSession
new_session session_id code share now ttl client_id share_ip max_per_ip ready = record blank {
  id = session_id;
  code = code;
  share = share;
  created_at = now;
  expires_at = now + ttl;
  client_id = client_id;
  creator_ip = share_ip;
  counted_by_ip = not (share_ip == 0) && ltb 0 max_per_ip;
  share_ready = ready;
}

unfoldable pub insert_session : SessionManager → ℕ → TunnelSession → SessionManager
insert_session m r s = record m {
  heap = store m.heap r s;
  next = r + 1;
  sessions = insert s.id r m.sessions;
  by_code = insert s.code r m.by_code;
  by_client_id =
      if not (s.client_id == 0) then insert s.client_id r m.by_client_id else m.by_client_id;
  by_conn_id = bind_share s.share r m.by_conn_id;
  session_count_per_ip =
      if s.counted_by_ip
      then insert s.creator_ip (count_of (lookup s.creator_ip m.session_count_per_ip) + 1)
          m.session_count_per_ip
      else m.session_count_per_ip;
}

-- `draws` is what the calls of generateSessionID return. The limits are `int`s; a negative one is
-- as 0 here.
unfoldable pub create_session :
    SessionManager → List ℕ → ℕ → ℕ → Option ClientConn → ℕ → ℕ → ℕ → ℕ → ℕ → Bool → Creation
unfolding new_session insert_session
create_session m draws now code share ttl client_id share_ip max_per_ip max_total ready =
    if leb max_total (size m.sessions)
    then refused max_total_sessions
    else if (not (share_ip == 0) && ltb 0 max_per_ip)
        && leb max_per_ip (count_of (lookup share_ip m.session_count_per_ip))
    then refused max_sessions_per_ip
    else elim (draw_session_id m.sessions draws) [
      | none ↦ drawing
      | some i ↦
          created
            (insert_session m m.next
              (new_session i code share now ttl client_id share_ip max_per_ip ready))
            m.next
    ]

unfoldable pub get_session_by_code : SessionManager → ℕ → ℕ → Result ℕ
get_session_by_code m now code = elim (lookup code m.by_code) [
  | none ↦ err code_invalid
  | some r ↦
      if ltb (m.heap r).expires_at now
      then err code_expired
      else if (m.heap r).closed
      then err session_not_found
      else ok r
]

unfoldable pub get_session_by_client_id : SessionManager → ℕ → ℕ → Option ℕ
get_session_by_client_id m now client_id =
    if client_id == 0 then none else elim (lookup client_id m.by_client_id) [
      | none ↦ none
      | some r ↦ if ltb (m.heap r).expires_at now || (m.heap r).closed then none else some r
    ]
