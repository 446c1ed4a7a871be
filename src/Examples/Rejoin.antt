-- ===== src/Examples/Rejoin.antt =====
-- Disconnections, returns, conflicts and the cleanup, at concrete sessions.
use remote_assist_tool.Base.{ℕ, ◌≤◌, ◌≡◌, ◌↔◌, inr, refl, true, [], ◌∷◌, none, some, arith}
use remote_assist_tool.Base.Dict.{lookup, size, insert, delete}
use remote_assist_tool.Relay.Session.State.{SessionManager, new_session_manager, ok}
use remote_assist_tool.Relay.Session.Create.{create_session, draw_session_id}
use remote_assist_tool.Relay.Session.Pairing.{
  join_session, joined_manager, joined_result, JoinSessionResult,
}
use remote_assist_tool.Relay.Session.Reuse.{
  reuse_session_by_client_id, reused, conflict, keep_recent,
}
use remote_assist_tool.Relay.Session.Teardown.{
  disconnect_client, help_debounce_fires, cleanup_expired,
}
use remote_assist_tool.Relay.Session.Step.{step, run}
use remote_assist_tool.Relay.Session.Join.{IsJoined}
use remote_assist_tool.Relay.Session.Rejoin.{rejoin_within_grace, reuse_within_grace}
use remote_assist_tool.Relay.Session.Conflict.{IsRival, IsRefusal, storm_refused}
use remote_assist_tool.Relay.Session.Cleanup.Entry.{survives}
use remote_assist_tool.Relay.Session.Cleanup.{cleanup_expired_keeps}
use remote_assist_tool.Examples.Session.{
  share_conn, help_conn, late_conn, waiting_manager, paired_manager, waiting-Inv, paired-Inv,
}

rejoin_within_grace_example :
    ((n : SessionManager) × (res : JoinSessionResult) × (join_session
          (disconnect_client paired_manager 110 12).0
          150
          42
          late_conn
        ≡ ok (n, res))
      × IsJoined (disconnect_client paired_manager 110 12).0 n res 0 share_conn late_conn)
    × ((n : SessionManager) × (res : JoinSessionResult) × (join_session
            (help_debounce_fires (disconnect_client paired_manager 110 12).0 0).0
            150
            42
            late_conn
          ≡ ok (n, res))
        × IsJoined
            (help_debounce_fires (disconnect_client paired_manager 110 12).0 0).0
            n
            res
            0
            share_conn
            late_conn)
unfolding lookup run step create_session size new_session_manager draw_session_id insert delete
    join_session joined_manager joined_result
rejoin_within_grace_example =
    rejoin_within_grace paired_manager paired-Inv 110 12 0 share_conn 150 late_conn refl refl refl
      refl (inr refl) (ground arith) (ground arith)

reuse_within_grace_example :
    (n : SessionManager) × (until : ℕ) × (reuse_session_by_client_id
        (disconnect_client paired_manager 110 11).0
        150
        9
        late_conn
      ≡ reused n 7 42 until none (some help_conn))
    × ((n.heap 0).share ≡ some late_conn)
    × ((n.heap 0).help ≡ none)
    × (150 ≤ until)
unfolding lookup run step create_session size new_session_manager draw_session_id insert delete
    join_session joined_manager joined_result
reuse_within_grace_example =
    reuse_within_grace paired_manager paired-Inv 110 11 0 9 150 help_conn late_conn refl refl refl
      refl (ground arith) (ground arith)

rival : IsRival paired_manager 110 9 0 share_conn late_conn
unfolding lookup run step create_session size new_session_manager draw_session_id insert delete
    join_session joined_manager joined_result
rival = record {
  named = λ e. ground (arith, e);
  found = refl;
  fresh = ground arith;
  open_ = refl;
  sits = refl;
  other = λ e. ground (arith, e);
}

-- Three replacements within a minute already.
abbrev stormy : SessionManager
stormy = record paired_manager {
  heap = λ r. record (paired_manager.heap r) { live_replaces = 101 ∷ 102 ∷ 103 ∷ [] };
}

stormy-IsRival : IsRival stormy 110 9 0 share_conn late_conn
unfolding lookup run step create_session size new_session_manager draw_session_id insert delete
    join_session joined_manager joined_result
stormy-IsRival = record {
  named = λ e. ground (arith, e);
  found = refl;
  fresh = ground arith;
  open_ = refl;
  sits = refl;
  other = λ e. ground (arith, e);
}

storm_refused_run :
    (n : SessionManager) × (reuse_session_by_client_id stormy 110 9 late_conn ≡ conflict n 7 1 1)
    × IsRefusal stormy n 110 0
unfolding lookup run step create_session size new_session_manager draw_session_id insert delete
    join_session joined_manager joined_result keep_recent
storm_refused_run =
    storm_refused stormy 110 9 0 share_conn late_conn stormy-IsRival (inr (ground arith))

cleanup_expired_keeps_example :
    (lookup 7 (cleanup_expired waiting_manager 2000 waiting_manager.sessions).after.sessions
      ≡ some 0)
    ↔ ((lookup 7 waiting_manager.sessions ≡ some 0)
        × (survives (waiting_manager.heap 0) 2000 ≡ true))
cleanup_expired_keeps_example =
    cleanup_expired_keeps waiting_manager waiting-Inv 2000 waiting_manager.sessions
      waiting-Inv.distinct (λ k. refl) 7 0
