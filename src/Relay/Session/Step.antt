-- ===== src/Relay/Session/Step.antt =====
-- The calls of the session manager (internal/relay/session.go) as the steps of a state machine. The
-- mutex makes the calls of the connections' goroutines and of the timers a sequence.
use remote_assist_tool.Base.{ℕ, ◌≢◌, refl, Bool, List, [], ◌∷◌, some, arith}
use remote_assist_tool.Base.Dict.{Dict, lookup, count_if}
use remote_assist_tool.Relay.Session.State.{
  ClientConn, SessionManager, new_session_manager, after_result,
}
use remote_assist_tool.Relay.Session.Create.{create_session}
use remote_assist_tool.Relay.Session.Reuse.{reuse_session_by_client_id, mark_share_ready}
use remote_assist_tool.Relay.Session.Pairing.{join_session, rollback_join, activate_data_plane}
use remote_assist_tool.Relay.Session.Addresses.{Net, update_peer_addr}
use remote_assist_tool.Relay.Session.Teardown.{
  disconnect_client, help_debounce_fires, cleanup_expired, close_session,
}
use remote_assist_tool.Relay.Session.Invariant.Defs.{Inv}
use remote_assist_tool.Relay.Session.Invariant.Create.{after_creation, create_session-Inv}
use remote_assist_tool.Relay.Session.Invariant.Reuse.{
  after_reuse, reuse_session_by_client_id-Inv, mark_share_ready-Inv, update_peer_addr-Inv,
}
use remote_assist_tool.Relay.Session.Invariant.Pairing.{
  join_session-Inv, rollback_join-Inv, activate_data_plane-Inv, help_debounce_fires-Inv,
}
use remote_assist_tool.Relay.Session.Invariant.Disconnect.{disconnect_client-Inv}
use remote_assist_tool.Relay.Session.Invariant.Remove.{cleanup_expired-Inv, close_session-Inv}

pub record NewSession : Type 0 where
  pub draws : List ℕ
  pub code : ℕ
  pub share : ClientConn
  pub ttl : ℕ
  pub client_id : ℕ
  pub share_ip : ℕ
  pub max_per_ip : ℕ
  pub max_total : ℕ
  pub ready : Bool

pub data Call : Type 0 where
  creates : NewSession → Call
  reuses : ℕ → ClientConn → Call
  marks_ready : ℕ → ℕ → Call
  joins : ℕ → ClientConn → Call
  rolls_back : ℕ → ℕ → Call
  activates : ℕ → ℕ → ℕ → Call
  disconnects : ℕ → Call
  debounce_fires : ℕ → Call
  advertises : ℕ → ℕ → ℕ → ℕ → Call
  cleans_up : Dict ℕ → Call
  closes : ℕ → Call

unfoldable pub step : Net → SessionManager → ℕ × Call → SessionManager
step net m (now, creates a) = after_creation m (
    create_session m a.draws now a.code (some a.share) a.ttl a.client_id a.share_ip a.max_per_ip
      a.max_total a.ready)
step net m (now, reuses client_id share) =
    after_reuse m (reuse_session_by_client_id m now client_id share)
step net m (now, marks_ready session_id share_id) = (mark_share_ready m session_id share_id).0
step net m (now, joins code help) = after_result m (join_session m now code help)
step net m (now, rolls_back session_id help_id) = rollback_join m session_id help_id
step net m (now, activates session_id share_id help_id) =
    (activate_data_plane m session_id share_id help_id).0
step net m (now, disconnects conn_id) = (disconnect_client m now conn_id).0
step net m (now, debounce_fires r) = (help_debounce_fires m r).0
step net m (now, advertises conn_id public private nat) =
    (update_peer_addr net m conn_id public private nat).0
step net m (now, cleans_up order) = (cleanup_expired m now order).after
step net m (now, closes session_id) = (close_session m session_id).0

unfoldable pub run : Net → SessionManager → List (ℕ × Call) → SessionManager
run net m [] = m
run net m (c ∷ cs) = run net (step net m c) cs

-- A connection that is handed to the manager has an ID (generateClientID never gives "").
abbrev pub IsNamed : Call → Type 0
IsNamed (creates a) = a.share.id ≢ 0
IsNamed (reuses client_id share) = share.id ≢ 0
IsNamed (joins code help) = help.id ≢ 0
IsNamed _ = Unit

abbrev pub AllNamed : List (ℕ × Call) → Type 0
AllNamed [] = Unit
AllNamed (c ∷ cs) = IsNamed c.1 × AllNamed cs

-- Every call keeps the indexes well formed.
pub step-Inv :
    (net : Net) (m : SessionManager) (c : ℕ × Call) → IsNamed c.1 → Inv m → Inv (step net m c)
unfolding step
step-Inv net m (now, creates a) n v =
    create_session-Inv m a.draws now a.code (some a.share) a.ttl a.client_id a.share_ip a.max_per_ip
      a.max_total a.ready v (ground arith)
step-Inv net m (now, reuses client_id share) n v =
    reuse_session_by_client_id-Inv m v now client_id share n
step-Inv net m (now, marks_ready session_id share_id) n v =
    mark_share_ready-Inv m v session_id share_id
step-Inv net m (now, joins code help) n v = join_session-Inv m v now code help n
step-Inv net m (now, rolls_back session_id help_id) n v = rollback_join-Inv m v session_id help_id
step-Inv net m (now, activates session_id share_id help_id) n v =
    activate_data_plane-Inv m v session_id share_id help_id
step-Inv net m (now, disconnects conn_id) n v = disconnect_client-Inv m v now conn_id
step-Inv net m (now, debounce_fires r) n v = help_debounce_fires-Inv m v r
step-Inv net m (now, advertises conn_id public private nat) n v =
    update_peer_addr-Inv m v net conn_id public private nat
step-Inv net m (now, cleans_up order) n v = cleanup_expired-Inv m now order v
step-Inv net m (now, closes session_id) n v = close_session-Inv m session_id v

run_from-Inv :
    (net : Net) (m : SessionManager) (cs : List (ℕ × Call))
    → AllNamed cs
    → Inv m
    → Inv (run net m cs)
unfolding run
run_from-Inv net m [] n v = v
run_from-Inv net m (c ∷ cs) n v = run_from-Inv net (step net m c) cs n.1 (step-Inv net m c n.0 v)

new-Inv : (grace : ℕ) → Inv (new_session_manager grace)
unfolding new_session_manager lookup count_if
new-Inv grace = record {
  distinct = tt;
  live = λ k r h. absurd (ground arith);
  code = λ c r h. absurd (ground arith);
  client = λ c r h. absurd (ground arith);
  conn = λ c r h. absurd (ground arith);
  counts = λ ip. refl;
}

-- Whatever calls a new manager receives, in whatever order, its indexes are well formed.
pub run-Inv :
    (net : Net) (grace : ℕ) (cs : List (ℕ × Call))
    → AllNamed cs
    → Inv (run net (new_session_manager grace) cs)
run-Inv net grace cs n = run_from-Inv net _ cs n (new-Inv grace)
