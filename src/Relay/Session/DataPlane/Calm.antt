-- ===== src/Relay/Session/DataPlane/Calm.antt =====
-- No call but ActivateDataPlane lets a session admit data (internal/relay/session.go).
use remote_assist_tool.Base.{
  ℕ, ◌≡◌, Bool, true, false, not, ◌&&◌, List, [], ◌∷◌, Option, some, arith, Bool-cases,
  Option-cases, inl, inr, ltb, if◌then◌else◌,
}
use remote_assist_tool.Base.Dict.{Dict, lookup, lookup-insert, lookup-delete}
use remote_assist_tool.Relay.Session.State.{
  ClientConn, TunnelSession, SessionManager, is_set, after_result,
}
use remote_assist_tool.Relay.Session.Create.{draw_session_id, create_session}
use remote_assist_tool.Relay.Session.Reuse.{reuse_session_by_client_id, mark_share_ready}
use remote_assist_tool.Relay.Session.Pairing.{join_session, rollback_join, session_is_active}
use remote_assist_tool.Relay.Session.Addresses.{Net, update_peer_addr}
use remote_assist_tool.Relay.Session.Limits.Shrink.{Untouched}
use remote_assist_tool.Relay.Session.Teardown.{
  disconnect_client, help_debounce_fires, remove_session, delete_session_locked, maps_to,
  delete_own, cleanup_entry, cleanup_loop, Cleanup,
}
use remote_assist_tool.Relay.Session.Invariant.Create.{after_creation}
use remote_assist_tool.Relay.Session.Invariant.Reuse.{after_reuse}

-- While a session has both ends, its share has been answered.
abbrev pub IsAnswered : TunnelSession → Type 0
IsAnswered s = is_set s.share ≡ true → is_set s.help ≡ true → s.share_ready ≡ true

-- What one call does to a session: both ends imply an answered share as before, and no session
-- starts to admit data.
pub record Calms (s t : TunnelSession) : Type 0 where
  pub answered : IsAnswered s → IsAnswered t
  pub quiet : IsAnswered s → session_is_active t ≡ true → session_is_active s ≡ true

-- What one call does to all sessions, and to the table of sessions.
pub record Quiets (m n : SessionManager) : Type 0 where
  pub calm : (r : ℕ) → Calms (m.heap r) (n.heap r)
  pub table :
      (i r : ℕ)
      → lookup i n.sessions ≡ some r
      → session_is_active (n.heap r) ≡ true
      → lookup i m.sessions ≡ some r

pub Quiets-refl : (m : SessionManager) → Quiets m m
Quiets-refl m = record {
  calm = λ r. record { answered = λ h. h; quiet = λ h e. e };
  table = λ i r h e. h;
}

Quiets-trans :
    (a b c : SessionManager)
    → ((r : ℕ) → IsAnswered (a.heap r))
    → Quiets a b
    → Quiets b c
    → Quiets a c
Quiets-trans a b c answered h k = record {
  calm = λ r. record {
    answered = λ x. (k.calm r).answered ((h.calm r).answered x);
    quiet = λ x e. (h.calm r).quiet x ((k.calm r).quiet ((h.calm r).answered x) e);
  };
  table = λ i r f e.
      h.table i r (k.table i r f e) ((k.calm r).quiet ((h.calm r).answered (answered r)) e);
}

pub Untouched-Quiets :
    (m n : SessionManager) → ((r : ℕ) → Calms (m.heap r) (n.heap r)) → Untouched m n → Quiets m n
Untouched-Quiets m n h u = record { calm = h; table = λ i r f e. ground (arith, u.0, f) }

module _ (m : SessionManager) where
  pub join-calm :
      (now code : ℕ) (help : ClientConn) (r : ℕ)
      → Calms (m.heap r) ((after_result m (join_session m now code help)).heap r)
  unfolding join_session session_is_active
  join-calm now code help r = ground arith

  pub reuse-calm :
      (now c : ℕ) (share : ClientConn) (r : ℕ)
      → Calms (m.heap r) ((after_reuse m (reuse_session_by_client_id m now c share)).heap r)
  unfolding reuse_session_by_client_id session_is_active
  reuse-calm now c share r = ground arith

  pub mark-calm : (i s : ℕ) (r : ℕ) → Calms (m.heap r) ((mark_share_ready m i s).0.heap r)
  unfolding mark_share_ready session_is_active
  mark-calm i s r = ground arith

  pub rollback-calm : (i s : ℕ) (r : ℕ) → Calms (m.heap r) ((rollback_join m i s).heap r)
  unfolding rollback_join session_is_active
  rollback-calm i s r = ground arith

  pub fires-calm : (x : ℕ) (r : ℕ) → Calms (m.heap r) ((help_debounce_fires m x).0.heap r)
  unfolding help_debounce_fires session_is_active
  fires-calm x r = ground arith

  pub advertise-calm :
      (net : Net) (c public private nat : ℕ) (r : ℕ)
      → Calms (m.heap r) ((update_peer_addr net m c public private nat).0.heap r)
  unfolding update_peer_addr session_is_active
  advertise-calm net c public private nat r = ground arith

  pub disconnect-calm :
      (now c : ℕ) (r : ℕ) → Calms (m.heap r) ((disconnect_client m now c).0.heap r)
  unfolding disconnect_client session_is_active
  disconnect-calm now c r = ground arith

  remove-Quiets : (i r : ℕ) → Quiets m (remove_session m i r)
  unfolding remove_session session_is_active
  remove-Quiets i r = record {
    calm = λ x. ground arith;
    table = λ j x f e. ground (arith, lookup-delete i j m.sessions, f);
  }

  pub delete-Quiets : (i : ℕ) (o : Option ℕ) → Quiets m (delete_session_locked m i o).after
  unfolding delete_session_locked
  delete-Quiets i o = elim (Option-cases (lookup i m.sessions)) [
    | inl e ↦ rw (e, delete_session_locked) (Quiets-refl m)
    | inr (r, e) ↦
        rw (e, delete_session_locked)
          (elim (Bool-cases (not (maps_to o r))) [
            | inl b ↦ rw b (Quiets-refl m)
            | inr b ↦ rw b (remove-Quiets i r)
          ])
  ]

recode-Quiets :
    (m n : SessionManager) (d : Dict ℕ) → Quiets (record m { by_code = d }) n → Quiets m n
recode-Quiets m n d h = record { calm = h.calm; table = h.table }

entry_test :
    (m : SessionManager) (b : Bool) (x y : Cleanup)
    → Quiets m x.after
    → Quiets m y.after
    → Quiets m (let res : Cleanup = if b then x else y in res.after)
entry_test m true x y v w = v
entry_test m false x y v w = w

entry-Quiets : (now i r : ℕ) (c : Cleanup) → Quiets c.after (cleanup_entry now i r c).after
unfolding cleanup_entry
entry-Quiets now i r c =
    let m = c.after in
    let s = m.heap r in
    let m1 = record m { by_code = delete_own s.code r m.by_code } in
    let d = delete_session_locked m1 i (some r) in
    let w : Quiets m d.after = recode-Quiets m d.after _ (delete-Quiets m1 i (some r)) in
    entry_test m (not (ltb s.expires_at now)) c _ (Quiets-refl m) (
      entry_test m (is_set s.share && is_set s.help) (record c { after = m1 }) _
        (recode-Quiets m m1 _ (Quiets-refl m1))
        (entry_test m d.deleted _ (record c { after = d.after }) w w))

abbrev pub AllAnswered : SessionManager → Type 0
AllAnswered m = (r : ℕ) → IsAnswered (m.heap r)

pub loop-Quiets :
    (now : ℕ) (order : Dict ℕ) (c : Cleanup)
    → AllAnswered c.after
    → Quiets c.after (cleanup_loop now order c).after
unfolding cleanup_loop
loop-Quiets now [] c a = Quiets-refl c.after
loop-Quiets now ((i, r) ∷ rest) c a =
    let one = entry-Quiets now i r c in
    Quiets-trans _ _ _ a one
      (loop-Quiets now rest (cleanup_entry now i r c) (λ x. (one.calm x).answered (a x)))

pub create-Quiets :
    (m : SessionManager) (draws : List ℕ) (now code : ℕ) (share : Option ClientConn)
    (ttl client_id share_ip max_per_ip max_total : ℕ) (ready : Bool)
    → Quiets m (
        after_creation m
          (create_session m draws now code share ttl client_id share_ip max_per_ip max_total ready))
unfolding create_session session_is_active
create-Quiets m draws now code share ttl client_id share_ip max_per_ip max_total ready = record {
  calm = λ r. ground arith;
  table = λ i r f e. elim (Option-cases (draw_session_id m.sessions draws)) [
    | inl none_left ↦ ground (arith, none_left, f)
    | inr (d, drawn) ↦ ground (arith, drawn, f, e, lookup-insert d i m.next m.sessions)
  ];
}
