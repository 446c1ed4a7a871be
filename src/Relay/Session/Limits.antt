-- ===== src/Relay/Session/Limits.antt =====
-- The limits of createSession (internal/relay/session.go) hold for every history of calls.
pub mod Shrink
use remote_assist_tool.Base.{
  ℕ, zero, suc, ◌+◌, ◌-◌, ◌≤◌, ◌<◌, ◌≡◌, ◌≢◌, refl, sym, ◌∙◌, Bool, true, false, not, ◌&&◌, ◌||◌,
  List, [], ◌∷◌, ◌++◌, Option, none, some, arith, Bool-cases, Option-cases, inl, inr, ◌==◌, ltb,
  leb, if◌then◌else◌,
}
use remote_assist_tool.Base.Dict.{
  Dict, lookup, insert, delete, size, count_if, lookup-insert, lookup-delete, size-insert_le,
  size-delete_le,
}
use remote_assist_tool.Relay.Session.State.{
  ClientConn, TunnelSession, SessionManager, Err, new_session_manager, has_id, is_set, store,
  after_result, Result, ok, err,
}
use remote_assist_tool.Relay.Session.Create.{
  count_of, draw_session_id, Creation, created, refused, drawing, new_session, insert_session,
  create_session,
}
use remote_assist_tool.Relay.Session.Invariant.Create.{after_creation}
use remote_assist_tool.Relay.Session.Invariant.Defs.{Inv, charged}
use remote_assist_tool.Relay.Session.Step.{
  NewSession, Call, creates, reuses, marks_ready, joins, rolls_back, activates, disconnects,
  debounce_fires, advertises, cleans_up, closes, step, run, AllNamed, run-Inv,
}
use remote_assist_tool.Relay.Session.Addresses.{Net}
use remote_assist_tool.Relay.Session.Reuse.{reuse_session_by_client_id, mark_share_ready}
use remote_assist_tool.Relay.Session.Pairing.{join_session, rollback_join, activate_data_plane}
use remote_assist_tool.Relay.Session.Addresses.{update_peer_addr}
use remote_assist_tool.Relay.Session.Teardown.{
  disconnect_client, help_debounce_fires, cleanup_expired, close_session, decrement_session_count,
  remove_session, delete_session_locked, maps_to, cleanup_entry, cleanup_loop, Cleanup,
}
use remote_assist_tool.Relay.Session.Limits.Shrink.{
  Shrinks, Untouched-Shrinks, join-Untouched, reuse-Untouched, mark-Untouched, rollback-Untouched,
  activate-Untouched, fires-Untouched, advertise-Untouched, disconnect-Untouched, close-Shrinks,
  cleanup-Shrinks,
}

-- At most `total` sessions, and at most `per_ip` charged to an address.
pub record IsWithin (per_ip total : ℕ) (m : SessionManager) : Type 0 where
  pub all : size m.sessions ≤ total
  pub each : (ip : ℕ) → count_of (lookup ip m.session_count_per_ip) ≤ per_ip

module _ (per_ip total : ℕ) (positive : 0 < per_ip) (m : SessionManager)
    (w : IsWithin per_ip total m) where
  insert-IsWithin :
      (s : TunnelSession)
      → size m.sessions < total
      → (s.counted_by_ip ≡ true → count_of (lookup s.creator_ip m.session_count_per_ip) < per_ip)
      → IsWithin per_ip total (insert_session m m.next s)
  unfolding insert_session
  insert-IsWithin s room quota = record {
    all = omega (arith, size-insert_le s.id m.next m.sessions);
    each = λ ip. ground (
      arith,
      quota,
      w.each ip,
      lookup-insert s.creator_ip ip (count_of (lookup s.creator_ip m.session_count_per_ip) + 1)
          m.session_count_per_ip,
    );
  }

  refusal_test :
      (b : Bool) (e : Err) (x : Creation)
      → (b ≡ false → IsWithin per_ip total (after_creation m x))
      → IsWithin per_ip total (after_creation m (if b then refused e else x))
  refusal_test true e x v = w
  refusal_test false e x v = v refl

  create-IsWithin :
      (draws : List ℕ) (now code : ℕ) (share : Option ClientConn) (ttl client_id share_ip : ℕ)
      (ready : Bool)
      → IsWithin per_ip total (
          after_creation m
            (create_session m draws now code share ttl client_id share_ip per_ip total ready))
  unfolding create_session
  create-IsWithin draws now code share ttl client_id share_ip ready =
      refusal_test (leb total (size m.sessions)) _ _ λ room.
        refusal_test
          ((not (share_ip == 0) && ltb 0 per_ip)
            && leb per_ip (count_of (lookup share_ip m.session_count_per_ip)))
          _ _
          λ quota. elim (Option-cases (draw_session_id m.sessions draws)) [
            | inl e ↦ rw e w
            | inr (i, e) ↦ rw e (
                insert-IsWithin (new_session i code share now ttl client_id share_ip per_ip ready)
                  (ground arith) (ground arith))
          ]

  shrink-IsWithin : (n : SessionManager) → Shrinks m n → IsWithin per_ip total n
  shrink-IsWithin n h = record {
    all = omega (arith, w.all, h.fewer);
    each = λ ip. omega (arith, w.each ip, h.cheaper ip);
  }

-- A creation is asked for with these limits, as the server does with its configuration.
abbrev pub IsConfigured : ℕ → ℕ → Call → Type 0
IsConfigured per_ip total (creates a) = (a.max_per_ip ≡ per_ip) × (a.max_total ≡ total)
IsConfigured per_ip total _ = Unit

abbrev pub AllConfigured : ℕ → ℕ → List (ℕ × Call) → Type 0
AllConfigured per_ip total [] = Unit
AllConfigured per_ip total (c ∷ cs) = IsConfigured per_ip total c.1 × AllConfigured per_ip total cs

module _ (per_ip total : ℕ) (positive : 0 < per_ip) (net : Net) where
  step-IsWithin :
      (m : SessionManager) (c : ℕ × Call)
      → IsConfigured per_ip total c.1
      → IsWithin per_ip total m
      → IsWithin per_ip total (step net m c)
  unfolding step
  step-IsWithin m (now, creates a) (e, f) w =
      rw (e, f)
        (create-IsWithin per_ip total positive m w a.draws now a.code (some a.share) a.ttl
          a.client_id a.share_ip a.ready)
  step-IsWithin m (now, reuses client_id share) q w =
      shrink-IsWithin per_ip total positive m w _
        (Untouched-Shrinks m _ (reuse-Untouched m now client_id share))
  step-IsWithin m (now, marks_ready i s) q w =
      shrink-IsWithin per_ip total positive m w _ (Untouched-Shrinks m _ (mark-Untouched m i s))
  step-IsWithin m (now, joins code help) q w =
      shrink-IsWithin per_ip total positive m w _
        (Untouched-Shrinks m _ (join-Untouched m now code help))
  step-IsWithin m (now, rolls_back i h) q w =
      shrink-IsWithin per_ip total positive m w _ (Untouched-Shrinks m _ (rollback-Untouched m i h))
  step-IsWithin m (now, activates i s h) q w =
      shrink-IsWithin per_ip total positive m w _
        (Untouched-Shrinks m _ (activate-Untouched m i s h))
  step-IsWithin m (now, disconnects c) q w =
      shrink-IsWithin per_ip total positive m w _
        (Untouched-Shrinks m _ (disconnect-Untouched m now c))
  step-IsWithin m (now, debounce_fires r) q w =
      shrink-IsWithin per_ip total positive m w _ (Untouched-Shrinks m _ (fires-Untouched m r))
  step-IsWithin m (now, advertises c public private nat) q w =
      shrink-IsWithin per_ip total positive m w _
        (Untouched-Shrinks m _ (advertise-Untouched net m c public private nat))
  step-IsWithin m (now, cleans_up order) q w =
      shrink-IsWithin per_ip total positive m w _ (cleanup-Shrinks m now order)
  step-IsWithin m (now, closes i) q w =
      shrink-IsWithin per_ip total positive m w _ (close-Shrinks m i)

  run_from-IsWithin :
      (m : SessionManager) (cs : List (ℕ × Call))
      → AllConfigured per_ip total cs
      → IsWithin per_ip total m
      → IsWithin per_ip total (run net m cs)
  unfolding run
  run_from-IsWithin m [] q w = w
  run_from-IsWithin m (c ∷ cs) q w =
      run_from-IsWithin (step net m c) cs q.1 (step-IsWithin m c q.0 w)

  new-IsWithin : (grace : ℕ) → IsWithin per_ip total (new_session_manager grace)
  unfolding new_session_manager lookup size
  new-IsWithin grace = record { all = omega arith; each = λ ip. omega arith }

  -- A manager that is started empty and asked for every creation with the same limits never holds
  -- more than `total` sessions, nor more than `per_ip` sessions charged to one address.
  pub run_limits :
      (grace : ℕ) (cs : List (ℕ × Call)) (ip : ℕ)
      → AllNamed cs
      → AllConfigured per_ip total cs
      → let m = run net (new_session_manager grace) cs in
        (size m.sessions ≤ total)
        × (count_if (λ r. charged (m.heap r) ip) m.sessions ≤ per_ip)
        × (count_of (lookup ip m.session_count_per_ip)
            ≡ count_if (λ r. charged (m.heap r) ip) m.sessions)
  run_limits grace cs ip n q =
      let w = run_from-IsWithin (new_session_manager grace) cs q (new-IsWithin grace) in
      let v = run-Inv net grace cs n in (w.all, omega (arith, w.each ip, v.counts ip), v.counts ip)
