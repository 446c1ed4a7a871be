-- ===== src/Relay/Session/Conflict.antt =====
-- Two processes that register one client ID (internal/relay/session.go: recordLiveReplace and the
-- conflict check of ReuseSessionByClientID).
use remote_assist_tool.Base.{
  ℕ, zero, suc, ◌+◌, ◌-◌, ◌≤◌, ◌<◌, ◌≡◌, ◌≢◌, ◌⊎◌, false, List, [], ◌∷◌, ◌++◌, none, some, arith,
  Bool-cases, inl, inr, ltb, if◌then◌else◌, length, drop, length-append, length-drop,
}
use remote_assist_tool.Base.Dict.{lookup, lookup-insert}
use remote_assist_tool.Relay.Session.State.{ClientConn, TunnelSession, SessionManager, put}
use remote_assist_tool.Relay.Session.Reuse.{
  keep_recent, record_live_replace, share_conflict_max_replaces, share_conflict_window,
  share_conflict_cooldown, conflict, reused, reuse_session_by_client_id, taken_over, unbind,
}

-- Every recorded time lies within the window.
abbrev pub AllRecent : List ℕ → ℕ → Type 0
AllRecent [] now = Unit
AllRecent (t ∷ ts) now = (now < t + share_conflict_window) × AllRecent ts now

keep_recent-AllRecent : (ts : List ℕ) (now : ℕ) → AllRecent (keep_recent ts now) now
unfolding keep_recent
keep_recent-AllRecent [] now = tt
keep_recent-AllRecent (t ∷ ts) now = ground (arith, keep_recent-AllRecent ts now)

AllRecent-append :
    (xs ys : List ℕ) (now : ℕ) → AllRecent xs now → AllRecent ys now → AllRecent (xs ++ ys) now
AllRecent-append [] ys now h k = k
AllRecent-append (x ∷ xs) ys now h k = (h.0, AllRecent-append xs ys now h.1 k)

AllRecent-drop : (n : ℕ) (xs : List ℕ) (now : ℕ) → AllRecent xs now → AllRecent (drop n xs) now
AllRecent-drop zero xs now h = h
AllRecent-drop (suc n) [] now h = tt
AllRecent-drop (suc n) (x ∷ xs) now h = AllRecent-drop n xs now h.1

length-record :
    (ts : List ℕ) (now : ℕ)
    → length (record_live_replace ts now)
      ≡ (if ltb (length (keep_recent ts now)) 3 then length (keep_recent ts now) + 1 else 4)
unfolding record_live_replace
length-record ts now = ground (
  arith,
  length-drop (length (keep_recent ts now ++ now ∷ []) - 4) (keep_recent ts now ++ now ∷ []),
  length-append (keep_recent ts now) (now ∷ []),
)

-- The record of replacements never grows past four entries, and holds nothing older than the window.
pub record_live_replace_bounds :
    (ts : List ℕ) (now : ℕ)
    → (length (record_live_replace ts now) ≤ share_conflict_max_replaces + 1)
      × AllRecent (record_live_replace ts now) now
unfolding record_live_replace
record_live_replace_bounds ts now = (
  ground (arith, length-record ts now),
  AllRecent-drop (length (keep_recent ts now ++ now ∷ []) - 4) (keep_recent ts now ++ now ∷ []) now
      (AllRecent-append (keep_recent ts now) (now ∷ []) now (keep_recent-AllRecent ts now)
        (omega arith, tt)),
)

-- Another process with this client ID sits in the session that the ID leads to.
pub record IsRival (m : SessionManager) (now client_id r : ℕ) (old new_share : ClientConn)
    : Type 0 where
  pub named : client_id ≢ 0
  pub found : lookup client_id m.by_client_id ≡ some r
  pub fresh : now ≤ (m.heap r).expires_at
  pub open_ : (m.heap r).closed ≡ false
  pub sits : (m.heap r).share ≡ some old
  pub other : old.ptr ≢ new_share.ptr

-- The cooldown runs, or three replacements fall into the window already.
abbrev pub IsStorm : TunnelSession → ℕ → Type 0
IsStorm s now = (now < s.conflict_until) ⊎ (3 ≤ length (keep_recent s.live_replaces now))

-- The session keeps both ends and every index; only the record of conflicts changes, and the
-- cooldown starts anew.
pub record IsRefusal (m n : SessionManager) (now r : ℕ) : Type 0 where
  pub share : (n.heap r).share ≡ (m.heap r).share
  pub help : (n.heap r).help ≡ (m.heap r).help
  pub ready : (n.heap r).share_ready ≡ (m.heap r).share_ready
  pub data_plane : (n.heap r).data_plane_ready ≡ (m.heap r).data_plane_ready
  pub routes : n.by_conn_id ≡ m.by_conn_id
  pub cooldown : (n.heap r).conflict_until ≡ now + share_conflict_cooldown

-- The session as a refusal leaves it.
refused_session : TunnelSession → ℕ → TunnelSession
refused_session s now = record s {
  live_replaces = if ltb now s.conflict_until then s.live_replaces else [];
  conflict_until = now + share_conflict_cooldown;
}

module _ (m : SessionManager) (now client_id r : ℕ) (old new_share : ClientConn) where
  cooldown_refuses :
      IsRival m now client_id r old new_share
      → now < (m.heap r).conflict_until
      → reuse_session_by_client_id m now client_id new_share
        ≡ conflict (put m r (refused_session (m.heap r) now)) (m.heap r).id old.version old.host
  unfolding reuse_session_by_client_id refused_session
  cooldown_refuses rival storm = ground (arith, rival, storm)

  third_refuses :
      IsRival m now client_id r old new_share
      → (m.heap r).conflict_until ≤ now
      → 3 ≤ length (keep_recent (m.heap r).live_replaces now)
      → reuse_session_by_client_id m now client_id new_share
        ≡ conflict (put m r (refused_session (m.heap r) now)) (m.heap r).id old.version old.host
  unfolding reuse_session_by_client_id refused_session
  third_refuses rival over many =
      ground (arith, rival, over, many, length-record (m.heap r).live_replaces now)

  -- Another process brings the client ID of a session that is neither expired nor closed and whose
  -- share is online. While the cooldown runs, or when three replacements fall into the last minute
  -- already, it is told of a conflict: the online share and its helper stay as they are, and the
  -- cooldown starts anew.
  pub storm_refused :
      IsRival m now client_id r old new_share
      → IsStorm (m.heap r) now
      → (n : SessionManager) × (reuse_session_by_client_id m now client_id new_share
          ≡ conflict n (m.heap r).id old.version old.host)
        × IsRefusal m n now r
  unfolding refused_session
  storm_refused rival storm = (
    put m r (refused_session (m.heap r) now),
    elim (Bool-cases (ltb now (m.heap r).conflict_until)) [
      | inl runs ↦ cooldown_refuses rival (ground (arith, runs))
      | inr over ↦ third_refuses rival (ground (arith, over)) (ground (arith, over, storm))
    ],
    ground arith,
  )

  -- Another process brings the client ID of a session that is neither expired nor closed and whose
  -- share is online. When the cooldown is over and fewer than three replacements fall into the
  -- last minute, it takes the session over with its ID, code and expiry, both the old share and
  -- the old helper are handed back for closing, and the seat of the helper and the data plane are
  -- as in a new session.
  pub calm_taken_over :
      IsRival m now client_id r old new_share
      → (m.heap r).conflict_until ≤ now
      → length (keep_recent (m.heap r).live_replaces now) < 3
      → (n : SessionManager) × (reuse_session_by_client_id m now client_id new_share
          ≡ reused n (m.heap r).id (m.heap r).code (m.heap r).expires_at (some old) (m.heap r).help)
        × ((n.heap r).share ≡ some new_share)
        × ((n.heap r).help ≡ none)
        × ((n.heap r).share_ready ≡ false)
        × ((n.heap r).data_plane_ready ≡ false)
        × (lookup new_share.id n.by_conn_id ≡ some r)
  unfolding reuse_session_by_client_id
  calm_taken_over rival over few =
      let s = record (m.heap r) {
        live_replaces = record_live_replace (m.heap r).live_replaces now;
      } in
      (
        taken_over m r s new_share,
        ground (arith, rival, over, few, length-record (m.heap r).live_replaces now),
        ground arith,
        ground arith,
        ground arith,
        ground arith,
        ground (
          arith,
          lookup-insert new_share.id new_share.id r
              (unbind (m.heap r).help (unbind (m.heap r).share m.by_conn_id)),
        ),
      )
