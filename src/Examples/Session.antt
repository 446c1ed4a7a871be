-- ===== src/Examples/Session.antt =====
-- A share registers, a helper joins, and the data plane is activated.
use remote_assist_tool.Base.{ℕ, ◌≤◌, ◌≡◌, inl, refl, true, List, [], ◌∷◌, some, arith}
use remote_assist_tool.Base.Dict.{lookup, size, count_if, insert, delete}
use remote_assist_tool.Relay.Session.State.{ClientConn, SessionManager, new_session_manager, ok}
use remote_assist_tool.Relay.Session.Create.{
  create_session, draw_session_id, count_of, get_session_by_code,
}
use remote_assist_tool.Relay.Session.Pairing.{
  join_session, joined_manager, joined_result, activate_data_plane, is_active_data_session,
  JoinSessionResult,
}
use remote_assist_tool.Relay.Session.Addresses.{Net}
use remote_assist_tool.Relay.Session.Invariant.Defs.{Inv, charged}
use remote_assist_tool.Relay.Session.Step.{
  NewSession, Call, creates, joins, activates, step, run, run-Inv,
}
use remote_assist_tool.Relay.Session.Limits.{run_limits}
use remote_assist_tool.Relay.Session.DataPlane.{IsOpening, data_plane_opens}
use remote_assist_tool.Relay.Session.Join.{
  IsJoinable, IsJoined, join_session_succeeds, join_session_only,
}

abbrev pub test_net : Net
test_net = record { split_host_port = λ a. some a; parse_ip = λ h. some h }

abbrev pub share_conn : ClientConn
share_conn = record { ptr = 1; id = 11; version = 1; host = 1; remote_addr = 5 }

abbrev pub help_conn : ClientConn
help_conn = record { ptr = 2; id = 12; version = 1; host = 2; remote_addr = 6 }

abbrev pub late_conn : ClientConn
late_conn = record { ptr = 3; id = 13; version = 1; host = 3; remote_addr = 7 }

abbrev pub registration : NewSession
registration = record {
  draws = 7 ∷ [];
  code = 42;
  share = share_conn;
  ttl = 1000;
  client_id = 9;
  share_ip = 5;
  max_per_ip = 10;
  max_total = 5000;
  ready = true;
}

abbrev pub registered : List (ℕ × Call)
registered = (100, creates registration) ∷ []

abbrev pub paired : List (ℕ × Call)
paired = (100, creates registration) ∷ (101, joins 42 help_conn) ∷ []

-- The manager in which the share waits, and the one in which it has a helper.
abbrev pub waiting_manager : SessionManager
waiting_manager = run test_net (new_session_manager 60) registered

abbrev pub paired_manager : SessionManager
paired_manager = run test_net (new_session_manager 60) paired

pub waiting-Inv : Inv waiting_manager
waiting-Inv = run-Inv test_net 60 registered ((λ e. ground (arith, e)), tt)

pub paired-Inv : Inv paired_manager
paired-Inv = run-Inv test_net 60 paired ((λ e. ground (arith, e)), ((λ e. ground (arith, e)), tt))

run-Inv_example : Inv (run test_net (new_session_manager 60) paired)
run-Inv_example =
    run-Inv test_net 60 paired ((λ e. ground (arith, e)), ((λ e. ground (arith, e)), tt))

data_plane_opens_example :
    (share_id : ℕ) × (help_id : ℕ) × (r : ℕ) × IsOpening paired_manager 7
      (activates 7 11 12)
      share_id
      help_id
      r
unfolding lookup run step create_session size new_session_manager draw_session_id insert delete
    join_session joined_manager activate_data_plane is_active_data_session get_session_by_code
    joined_result
data_plane_opens_example =
    data_plane_opens test_net 60 paired (102, activates 7 11 12) 7
      ((λ e. ground (arith, e)), ((λ e. ground (arith, e)), tt)) refl refl

waiting-IsJoinable : IsJoinable waiting_manager 101 42 0 share_conn
unfolding lookup run step create_session size new_session_manager draw_session_id insert delete
    join_session joined_manager activate_data_plane is_active_data_session get_session_by_code
    joined_result
waiting-IsJoinable = record {
  found = refl;
  fresh = ground arith;
  open_ = refl;
  room = inl refl;
  hosted = refl;
  answered = refl;
}

run_limits_example :
    (size paired_manager.sessions ≤ 5000)
    × (count_if (λ r. charged (paired_manager.heap r) 5) paired_manager.sessions ≤ 10)
    × (count_of (lookup 5 paired_manager.session_count_per_ip)
        ≡ count_if (λ r. charged (paired_manager.heap r) 5) paired_manager.sessions)
run_limits_example =
    run_limits 10 5000 (ground arith) test_net 60 paired 5
      ((λ e. ground (arith, e)), ((λ e. ground (arith, e)), tt)) ((refl, refl), (tt, tt))

join_session_succeeds_example :
    (n : SessionManager) × (res : JoinSessionResult) × (join_session waiting_manager 101 42
        help_conn
      ≡ ok (n, res))
    × IsJoined waiting_manager n res 0 share_conn help_conn
join_session_succeeds_example =
    join_session_succeeds waiting_manager waiting-Inv 101 42 help_conn 0 share_conn
      waiting-IsJoinable

join_session_only_example :
    (r : ℕ) × (share : ClientConn) × IsJoinable waiting_manager 101 42 r share
    × IsJoined waiting_manager
        (joined_manager waiting_manager 0 help_conn)
        (joined_result (waiting_manager.heap 0) share_conn)
        r
        share
        help_conn
unfolding lookup run step create_session size new_session_manager draw_session_id insert delete
    join_session joined_manager activate_data_plane is_active_data_session get_session_by_code
    joined_result
join_session_only_example =
    join_session_only waiting_manager waiting-Inv 101 42 help_conn
      (joined_manager waiting_manager 0 help_conn)
      (joined_result (waiting_manager.heap 0) share_conn) refl
