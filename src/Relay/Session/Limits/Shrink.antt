-- ===== src/Relay/Session/Limits/Shrink.antt =====
-- No call but createSession adds a session or raises a quota count (internal/relay/session.go).
use remote_assist_tool.Base.{
  ℕ, ◌-◌, ◌≤◌, ◌≡◌, refl, Bool, true, false, not, ◌&&◌, [], ◌∷◌, Option, some, arith, Bool-cases,
  Option-cases, inl, inr, ltb, if◌then◌else◌,
}
use remote_assist_tool.Base.Dict.{Dict, lookup, size, lookup-insert, lookup-delete, size-delete_le}
use remote_assist_tool.Relay.Session.State.{ClientConn, SessionManager, is_set, after_result}
use remote_assist_tool.Relay.Session.Create.{count_of}
use remote_assist_tool.Relay.Session.Addresses.{Net}
use remote_assist_tool.Relay.Session.Reuse.{reuse_session_by_client_id, mark_share_ready}
use remote_assist_tool.Relay.Session.Pairing.{join_session, rollback_join, activate_data_plane}
use remote_assist_tool.Relay.Session.Addresses.{update_peer_addr}
use remote_assist_tool.Relay.Session.Teardown.{
  disconnect_client, help_debounce_fires, cleanup_expired, close_session, decrement_session_count,
  remove_session, delete_session_locked, maps_to, delete_own, cleanup_entry, cleanup_loop, Cleanup,
}
use remote_assist_tool.Relay.Session.Invariant.Reuse.{after_reuse}

pub record Shrinks (m n : SessionManager) : Type 0 where
  pub fewer : size n.sessions ≤ size m.sessions
  pub cheaper :
      (ip : ℕ)
      → count_of (lookup ip n.session_count_per_ip) ≤ count_of (lookup ip m.session_count_per_ip)

abbrev pub Untouched : SessionManager → SessionManager → Type 0
Untouched m n = (n.sessions ≡ m.sessions) × (n.session_count_per_ip ≡ m.session_count_per_ip)

pub Untouched-Shrinks : (m n : SessionManager) → Untouched m n → Shrinks m n
Untouched-Shrinks m n (e, f) = record {
  fewer = rw e (omega arith);
  cheaper = λ ip. rw f (omega arith);
}

Shrinks-trans : (a b c : SessionManager) → Shrinks a b → Shrinks b c → Shrinks a c
Shrinks-trans a b c h k = record {
  fewer = omega arith;
  cheaper = λ ip. omega (arith, h.cheaper ip, k.cheaper ip);
}

pub join-Untouched :
    (m : SessionManager) (now code : ℕ) (help : ClientConn)
    → Untouched m (after_result m (join_session m now code help))
unfolding join_session
join-Untouched m now code help = ground arith

pub reuse-Untouched :
    (m : SessionManager) (now client_id : ℕ) (share : ClientConn)
    → Untouched m (after_reuse m (reuse_session_by_client_id m now client_id share))
unfolding reuse_session_by_client_id
reuse-Untouched m now client_id share = ground arith

pub mark-Untouched : (m : SessionManager) (i s : ℕ) → Untouched m (mark_share_ready m i s).0
unfolding mark_share_ready
mark-Untouched m i s = ground arith

pub rollback-Untouched : (m : SessionManager) (i h : ℕ) → Untouched m (rollback_join m i h)
unfolding rollback_join
rollback-Untouched m i h = ground arith

pub activate-Untouched :
    (m : SessionManager) (i s h : ℕ) → Untouched m (activate_data_plane m i s h).0
unfolding activate_data_plane
activate-Untouched m i s h = ground arith

pub fires-Untouched : (m : SessionManager) (r : ℕ) → Untouched m (help_debounce_fires m r).0
unfolding help_debounce_fires
fires-Untouched m r = ground arith

pub advertise-Untouched :
    (net : Net) (m : SessionManager) (c public private nat : ℕ)
    → Untouched m (update_peer_addr net m c public private nat).0
unfolding update_peer_addr
advertise-Untouched net m c public private nat = ground arith

pub disconnect-Untouched :
    (m : SessionManager) (now c : ℕ) → Untouched m (disconnect_client m now c).0
unfolding disconnect_client
disconnect-Untouched m now c = ground arith

decrement-le :
    (counts : Dict ℕ) (a ip : ℕ)
    → count_of (lookup ip (decrement_session_count counts a)) ≤ count_of (lookup ip counts)
unfolding decrement_session_count
decrement-le counts a ip =
    ground
      (arith, lookup-delete a ip counts, lookup-insert a ip (count_of (lookup a counts) - 1) counts)

remove-Shrinks : (m : SessionManager) (i r : ℕ) → Shrinks m (remove_session m i r)
unfolding remove_session
remove-Shrinks m i r = record {
  fewer = size-delete_le i m.sessions;
  cheaper = λ ip. ground (arith, decrement-le m.session_count_per_ip (m.heap r).creator_ip ip);
}

pub delete-Shrinks :
    (m : SessionManager) (i : ℕ) (o : Option ℕ) → Shrinks m (delete_session_locked m i o).after
unfolding delete_session_locked
delete-Shrinks m i o = elim (Option-cases (lookup i m.sessions)) [
  | inl e ↦ rw (e, delete_session_locked) (Untouched-Shrinks m m (refl, refl))
  | inr (r, e) ↦
      rw (e, delete_session_locked)
        (elim (Bool-cases (not (maps_to o r))) [
          | inl b ↦ rw b (Untouched-Shrinks m m (refl, refl))
          | inr b ↦ rw b (remove-Shrinks m i r)
        ])
]

pub close-Shrinks : (m : SessionManager) (i : ℕ) → Shrinks m (close_session m i).0
unfolding close_session
close-Shrinks m i = delete-Shrinks m i (lookup i m.sessions)

recode-Shrinks :
    (m n : SessionManager) (d : Dict ℕ) → Shrinks (record m { by_code = d }) n → Shrinks m n
recode-Shrinks m n d h = record { fewer = h.fewer; cheaper = h.cheaper }

entry_test :
    (m : SessionManager) (b : Bool) (x y : Cleanup)
    → Shrinks m x.after
    → Shrinks m y.after
    → Shrinks m (let res : Cleanup = if b then x else y in res.after)
entry_test m true x y v w = v
entry_test m false x y v w = w

entry-Shrinks : (now i r : ℕ) (c : Cleanup) → Shrinks c.after (cleanup_entry now i r c).after
unfolding cleanup_entry
entry-Shrinks now i r c =
    let m = c.after in
    let s = m.heap r in
    let m1 = record m { by_code = delete_own s.code r m.by_code } in
    let d = delete_session_locked m1 i (some r) in
    let w : Shrinks m d.after = recode-Shrinks m d.after _ (delete-Shrinks m1 i (some r)) in
    entry_test m (not (ltb s.expires_at now)) c _ (Untouched-Shrinks m m (refl, refl)) (
      entry_test m (is_set s.share && is_set s.help) (record c { after = m1 }) _
        (Untouched-Shrinks m m1 (refl, refl))
        (entry_test m d.deleted _ (record c { after = d.after }) w w))

loop-Shrinks :
    (now : ℕ) (order : Dict ℕ) (c : Cleanup) → Shrinks c.after (cleanup_loop now order c).after
unfolding cleanup_loop
loop-Shrinks now [] c = Untouched-Shrinks c.after c.after (refl, refl)
loop-Shrinks now ((i, r) ∷ rest) c =
    Shrinks-trans _ _ _ (entry-Shrinks now i r c) (loop-Shrinks now rest (cleanup_entry now i r c))

pub cleanup-Shrinks :
    (m : SessionManager) (now : ℕ) (order : Dict ℕ) → Shrinks m (cleanup_expired m now order).after
unfolding cleanup_expired
cleanup-Shrinks m now order = loop-Shrinks now order _
