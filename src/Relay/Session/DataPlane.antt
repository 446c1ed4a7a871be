-- ===== src/Relay/Session/DataPlane.antt =====
-- When the UDP data plane of a session admits packets (internal/relay/session.go).
pub mod Calm
use remote_assist_tool.Base.{
  ℕ, zero, suc, ◌+◌, ◌≡◌, ◌≢◌, refl, sym, ◌∙◌, ap, Bool, true, false, not, ◌&&◌, ◌||◌, List, [],
  ◌∷◌, ◌++◌, Option, none, some, arith, Bool-cases, Option-cases, inl, inr, ◌==◌, ltb, leb,
  if◌then◌else◌,
}
use remote_assist_tool.Base.Dict.{Dict, lookup, insert, delete, size, lookup-insert, lookup-delete}
use remote_assist_tool.Relay.Session.State.{
  ClientConn, TunnelSession, SessionManager, Err, new_session_manager, has_id, is_set, store, put,
  after_result, Result, ok, err,
}
use remote_assist_tool.Relay.Session.Create.{
  draw_session_id, Creation, new_session, insert_session, create_session,
}
use remote_assist_tool.Relay.Session.Reuse.{
  reuse_session_by_client_id, mark_share_ready, take_over, rebind_session, replace_live,
  reuse_found, Reuse,
}
use remote_assist_tool.Relay.Session.Pairing.{
  join_session, rollback_join, activate_data_plane, session_is_active, is_active_data_session,
  seat_help, join_share,
}
use remote_assist_tool.Relay.Session.Addresses.{Net, update_peer_addr}
use remote_assist_tool.Relay.Session.Limits.Shrink.{
  Untouched, join-Untouched, reuse-Untouched, mark-Untouched, rollback-Untouched,
  activate-Untouched, fires-Untouched, advertise-Untouched, disconnect-Untouched,
}
use remote_assist_tool.Relay.Session.Teardown.{
  disconnect_client, help_debounce_fires, cleanup_expired, close_session, decrement_session_count,
  remove_session, delete_session_locked, maps_to, delete_own, cleanup_entry, cleanup_loop, Cleanup,
  grace_after_in_use,
}
use remote_assist_tool.Relay.Session.Invariant.Create.{after_creation, draw_session_id-free}
use remote_assist_tool.Relay.Session.Invariant.Reuse.{after_reuse}
use remote_assist_tool.Relay.Session.Invariant.Defs.{Inv, IsLive}
use remote_assist_tool.Relay.Session.DataPlane.Calm.{
  IsAnswered, AllAnswered, Calms, Quiets, Untouched-Quiets, join-calm, reuse-calm, mark-calm,
  rollback-calm, fires-calm, advertise-calm, disconnect-calm, delete-Quiets, loop-Quiets,
  create-Quiets,
}
use remote_assist_tool.Relay.Session.Step.{
  NewSession, Call, creates, reuses, marks_ready, joins, rolls_back, activates, disconnects,
  debounce_fires, advertises, cleans_up, closes, step, run, AllNamed, run-Inv,
}

abbrev is_activation : Call → Bool
is_activation (activates i s h) = true
is_activation _ = false

-- Which sessions admit data after a call: all but ActivateDataPlane only take the right away.
step-Quiets :
    (net : Net) (m : SessionManager) (c : ℕ × Call)
    → AllAnswered m
    → is_activation c.1 ≡ false
    → Quiets m (step net m c)
unfolding step
step-Quiets net m (now, creates a) q n =
    create-Quiets m a.draws now a.code (some a.share) a.ttl a.client_id a.share_ip a.max_per_ip
      a.max_total a.ready
step-Quiets net m (now, reuses c share) q n =
    Untouched-Quiets m _ (reuse-calm m now c share) (reuse-Untouched m now c share)
step-Quiets net m (now, marks_ready i s) q n =
    Untouched-Quiets m _ (mark-calm m i s) (mark-Untouched m i s)
step-Quiets net m (now, joins code help) q n =
    Untouched-Quiets m _ (join-calm m now code help) (join-Untouched m now code help)
step-Quiets net m (now, rolls_back i h) q n =
    Untouched-Quiets m _ (rollback-calm m i h) (rollback-Untouched m i h)
step-Quiets net m (now, activates i s h) q n = absurd (ground (arith, n))
step-Quiets net m (now, disconnects c) q n =
    Untouched-Quiets m _ (disconnect-calm m now c) (disconnect-Untouched m now c)
step-Quiets net m (now, debounce_fires r) q n =
    Untouched-Quiets m _ (fires-calm m r) (fires-Untouched m r)
step-Quiets net m (now, advertises c public private nat) q n =
    Untouched-Quiets m _ (advertise-calm m net c public private nat)
      (advertise-Untouched net m c public private nat)
step-Quiets net m (now, cleans_up order) q n = unfold cleanup_expired in loop-Quiets now order _ q
step-Quiets net m (now, closes i) q n =
    unfold close_session in delete-Quiets m i (lookup i m.sessions)

activate-IsAnswered :
    (m : SessionManager) (i s h r : ℕ)
    → IsAnswered (m.heap r)
    → IsAnswered ((activate_data_plane m i s h).0.heap r)
unfolding activate_data_plane
activate-IsAnswered m i s h r = ground arith

step-AllAnswered :
    (net : Net) (m : SessionManager) (c : ℕ × Call) → AllAnswered m → AllAnswered (step net m c)
unfolding step
step-AllAnswered net m (now, activates i s h) q = λ r. activate-IsAnswered m i s h r (q r)
step-AllAnswered net m (now, c) q = λ r. ((step-Quiets net m (now, c) q refl).calm r).answered (q r)

run-AllAnswered :
    (net : Net) (m : SessionManager) (cs : List (ℕ × Call))
    → AllAnswered m
    → AllAnswered (run net m cs)
unfolding run
run-AllAnswered net m [] q = q
run-AllAnswered net m (c ∷ cs) q =
    run-AllAnswered net (step net m c) cs (step-AllAnswered net m c q)

new-AllAnswered : (grace : ℕ) → AllAnswered (new_session_manager grace)
unfolding new_session_manager
new-AllAnswered grace = λ r e f. absurd (ground (arith, e))

-- Why a session begins to admit data.
pub record IsOpening (m : SessionManager) (i : ℕ) (c : Call) (share_id help_id r : ℕ) : Type 0 where
  pub call : c ≡ activates i share_id help_id
  pub found : lookup i m.sessions ≡ some r
  pub share_sits : has_id (m.heap r).share share_id ≡ true
  pub help_sits : has_id (m.heap r).help help_id ≡ true
  pub none_pending : (m.heap r).pending_help_id ≡ 0
  pub answered : (m.heap r).share_ready ≡ true
  pub open_ : (m.heap r).closed ≡ false

opening :
    (m : SessionManager) (i j s h r x : ℕ)
    → Inv m
    → AllAnswered m
    → lookup j m.sessions ≡ some r
    → lookup i m.sessions ≡ some x
    → is_active_data_session m i ≡ false
    → is_active_data_session (activate_data_plane m j s h).0 i ≡ true
    → IsOpening m i (activates j s h) s h r
unfolding is_active_data_session activate_data_plane
opening m i j s h r x v q e f before after =
    let here : x ≡ r = ground (arith, e, f, before, after) in
    let same : i ≡ j = ground (arith, here, v.live i x f, v.live j r e) in
    ground (arith, e, f, here, same, before, after, q r)

activation :
    (m : SessionManager) (i j s h : ℕ)
    → Inv m
    → AllAnswered m
    → is_active_data_session m i ≡ false
    → is_active_data_session (activate_data_plane m j s h).0 i ≡ true
    → (r : ℕ) × IsOpening m i (activates j s h) s h r
unfolding is_active_data_session activate_data_plane
activation m i j s h v q before after = elim (Option-cases (lookup j m.sessions)) [
  | inl e ↦ absurd (ground (arith, e, before, after))
  | inr (r, e) ↦ elim (Option-cases (lookup i m.sessions)) [
    | inl f ↦ absurd (ground (arith, e, f, before, after))
    | inr (x, f) ↦ (r, opening m i j s h r x v q e f before after)
  ]
]

quiet_stays :
    (m n : SessionManager) (i : ℕ)
    → AllAnswered m
    → Quiets m n
    → is_active_data_session m i ≡ false
    → ¬ (is_active_data_session n i ≡ true)
unfolding is_active_data_session
quiet_stays m n i q h before after = elim (Option-cases (lookup i n.sessions)) [
  | inl e ↦ ground (arith, e, after)
  | inr (r, e) ↦ ground (arith, e, before, after, h.table i r e, (h.calm r).quiet (q r))
]

step_opens :
    (net : Net) (m : SessionManager) (c : ℕ × Call) (i : ℕ)
    → Inv m
    → AllAnswered m
    → is_active_data_session m i ≡ false
    → is_active_data_session (step net m c) i ≡ true
    → (share_id : ℕ) × (help_id : ℕ) × (r : ℕ) × IsOpening m i c.1 share_id help_id r
unfolding step
step_opens net m (now, activates j s h) i v q before after =
    let (r, opens) = activation m i j s h v q before after in (s, h, r, opens)
step_opens net m (now, c) i v q before after =
    absurd (quiet_stays m _ i q (step-Quiets net m (now, c) q refl) before after)

-- A session that does not admit data before a call and does after it: the call is
-- ActivateDataPlane for this session, with the IDs of the share and of the helper that sit in it,
-- while no helper's disconnection is pending, the share has been answered and the session is open.
-- This holds after any history of a manager that was started empty.
pub data_plane_opens :
    (net : Net) (grace : ℕ) (cs : List (ℕ × Call)) (c : ℕ × Call) (i : ℕ)
    → AllNamed cs
    → is_active_data_session (run net (new_session_manager grace) cs) i ≡ false
    → is_active_data_session (step net (run net (new_session_manager grace) cs) c) i ≡ true
    → (share_id : ℕ) × (help_id : ℕ) × (r : ℕ) × IsOpening
        (run net (new_session_manager grace) cs)
        i
        c.1
        share_id
        help_id
        r
data_plane_opens net grace cs c i n before after =
    step_opens net _ c i (run-Inv net grace cs n) (run-AllAnswered net _ cs (new-AllAnswered grace))
      before after
