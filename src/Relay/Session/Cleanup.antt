-- ===== src/Relay/Session/Cleanup.antt =====
-- What CleanupExpired removes and what it keeps (internal/relay/session.go).
pub mod Entry
use remote_assist_tool.Base.{
  ℕ, ◌≤◌, ◌<◌, ◌≡◌, ◌≢◌, ◌⊎◌, refl, sym, ◌∙◌, subst, ◌↔◌, Bool, true, false, not, ◌&&◌, ◌||◌, [],
  ◌∷◌, none, some, arith, Bool-cases, inl, inr, ◌==◌, ltb, if◌then◌else◌,
}
use remote_assist_tool.Base.Dict.{Dict, lookup, delete, Distinct, lookup-delete}
use remote_assist_tool.Relay.Session.State.{TunnelSession, SessionManager, is_set}
use remote_assist_tool.Relay.Session.Teardown.{
  Cleanup, cleanup_entry, cleanup_loop, cleanup_expired,
}
use remote_assist_tool.Relay.Session.Invariant.Defs.{Inv}
use remote_assist_tool.Relay.Session.Invariant.Remove.{cleanup_entry-Inv, cleanup_expired-Inv}
use remote_assist_tool.Relay.Session.Cleanup.Entry.{
  survives, Uncoded, entry_table, entry_heap, entry_heap_self, entry_codes, entry_uncodes,
}

-- A visited session survives, and a code leads to it only if it has not expired.
abbrev Settled : ℕ → SessionManager → ℕ → Type 0
Settled now m r =
    (survives (m.heap r) now ≡ true)
    × ((c : ℕ) → lookup c m.by_code ≡ some r → now ≤ (m.heap r).expires_at)

-- What the loop has still to visit is in the table, and whatever it has visited is settled.
record Progress (now : ℕ) (m : SessionManager) (rest : Dict ℕ) (n : SessionManager) : Type 0 where
  pub ahead : (k r : ℕ) → lookup k rest ≡ some r → lookup k n.sessions ≡ some r
  pub behind : (k r : ℕ) → lookup k n.sessions ≡ some r → (lookup k rest ≡ some r) ⊎ Settled now n r
  pub subset : (k r : ℕ) → lookup k n.sessions ≡ some r → lookup k m.sessions ≡ some r
  pub same : (k r : ℕ) → lookup k n.sessions ≡ some r → n.heap r ≡ m.heap r
  pub kept :
      (k r : ℕ)
      → lookup k m.sessions ≡ some r
      → survives (m.heap r) now ≡ true
      → lookup k n.sessions ≡ some r

module _ (now k r : ℕ) (rest : Dict ℕ) (m : SessionManager) (c : Cleanup) (v : Inv c.after)
    (absent : lookup k rest ≡ none) (p : Progress now m ((k, r) ∷ rest) c.after) where
  entry_found : lookup k c.after.sessions ≡ some r
  unfolding lookup
  entry_found = p.ahead k r (ground arith)

  entry_other :
      (i x : ℕ)
      → (k == i) ≡ false
      → lookup i (cleanup_entry now k r c).after.sessions ≡ some x
      → (lookup i c.after.sessions ≡ some x)
        × ((cleanup_entry now k r c).after.heap x ≡ c.after.heap x)
  entry_other i x n h =
      let old : lookup i c.after.sessions ≡ some x =
        ground (arith, entry_table now k r c v entry_found i, h, n) in
      let apart : x ≢ r = ground (arith, v.live i x old, v.live k r entry_found, n) in
      (old, entry_heap now k r c v entry_found x apart)

  entry_self :
      (x : ℕ)
      → lookup k (cleanup_entry now k r c).after.sessions ≡ some x
      → (x ≡ r)
        × (survives (c.after.heap r) now ≡ true)
        × ((cleanup_entry now k r c).after.heap r ≡ c.after.heap r)
  entry_self x h =
      let table = entry_table now k r c v entry_found k in
      let alive : survives (c.after.heap r) now ≡ true = ground (arith, table, h) in
      (ground (arith, table, h), alive, entry_heap_self now k r c v entry_found alive)

  at_self :
      (i x : ℕ)
      → k ≡ i
      → lookup i (cleanup_entry now k r c).after.sessions ≡ some x
      → lookup k (cleanup_entry now k r c).after.sessions ≡ some x
  at_self i x here h =
      subst (λ j. lookup j (cleanup_entry now k r c).after.sessions ≡ some x) (sym here) h

  entry_same :
      (i x : ℕ)
      → lookup i (cleanup_entry now k r c).after.sessions ≡ some x
      → (lookup i c.after.sessions ≡ some x)
        × ((cleanup_entry now k r c).after.heap x ≡ c.after.heap x)
  entry_same i x h = elim (Bool-cases (k == i)) [
    | inl same ↦
        let here : k ≡ i = ground (arith, same) in
        let e = entry_self x (at_self i x here h) in
        (ground (arith, entry_found, here, e.0), rw e.0 e.2)
    | inr n ↦ entry_other i x n h
  ]

  entry_settled :
      (c' : ℕ)
      → survives (c.after.heap r) now ≡ true
      → lookup c' (cleanup_entry now k r c).after.by_code ≡ some r
      → now ≤ (c.after.heap r).expires_at
  entry_settled c' alive h = elim (Bool-cases (ltb (c.after.heap r).expires_at now)) [
    | inl late ↦ absurd (entry_uncodes now k r c v entry_found (ground (arith, late)) c' h)
    | inr soon ↦ ground (arith, soon)
  ]

  entry_behind :
      (i x : ℕ)
      → lookup i (cleanup_entry now k r c).after.sessions ≡ some x
      → (lookup i rest ≡ some x) ⊎ Settled now (cleanup_entry now k r c).after x
  unfolding lookup
  entry_behind i x h = elim (Bool-cases (k == i)) [
    | inl same ↦
        let here : k ≡ i = ground (arith, same) in
        let e = entry_self x (at_self i x here h) in
        inr (rw e.0 (rw e.2 (e.1, λ c' g. entry_settled c' e.1 g)))
    | inr n ↦
        let e = entry_other i x n h in
        elim (p.behind i x e.0) [
          | inl ahead ↦ inl (ground (arith, ahead, n))
          | inr (alive, coded) ↦
              inr (rw e.1 (alive, λ c' g. coded c' (entry_codes now k r c v entry_found c' x g)))
        ]
  ]

  entry-Progress : Progress now m rest (cleanup_entry now k r c).after
  unfolding lookup
  entry-Progress = record {
    ahead = λ i x h. ground (arith, entry_table now k r c v entry_found i, p.ahead i x, h, absent);
    behind = entry_behind;
    subset = λ i x h. p.subset i x (entry_same i x h).0;
    same = λ i x h. (entry_same i x h).1 ∙ p.same i x (entry_same i x h).0;
    kept = λ i x h s. ground (
      arith,
      entry_table now k r c v entry_found i,
      p.kept i x h s,
      p.same k r entry_found,
      entry_found,
      s,
    );
  }

loop-Progress :
    (now : ℕ) (rest : Dict ℕ) (m : SessionManager) (c : Cleanup)
    → Inv c.after
    → Distinct rest
    → Progress now m rest c.after
    → Progress now m [] (cleanup_loop now rest c).after
unfolding cleanup_loop
loop-Progress now [] m c v d p = p
loop-Progress now ((k, r) ∷ rest) m c v d p =
    loop-Progress now rest m (cleanup_entry now k r c) (cleanup_entry-Inv now k r c v) d.1
      (entry-Progress now k r rest m c v d.0 p)

module _ (m : SessionManager) (v : Inv m) (now : ℕ) (order : Dict ℕ) (d : Distinct order)
    (all : (k : ℕ) → lookup k order ≡ lookup k m.sessions) where
  cleanup_start : Progress now m order m
  cleanup_start = record {
    ahead = λ k r h. sym (all k) ∙ h;
    behind = λ k r h. inl (all k ∙ h);
    subset = λ k r h. h;
    same = λ k r h. refl;
    kept = λ k r h s. h;
  }

  cleanup_end : Progress now m [] (cleanup_expired m now order).after
  unfolding cleanup_expired
  cleanup_end =
      loop-Progress now order m (record { after = m; expired = []; to_close = [] }) v d
        cleanup_start

  cleanup-Settled :
      (k r : ℕ)
      → lookup k (cleanup_expired m now order).after.sessions ≡ some r
      → Settled now (cleanup_expired m now order).after r
  unfolding lookup
  cleanup-Settled k r h = elim (cleanup_end.behind k r h) [
    | inl e ↦ absurd (ground (arith, e))
    | inr s ↦ s
  ]

  -- In whatever order CleanupExpired visits the sessions, it keeps exactly those that have not
  -- expired or that both a share and a helper use.
  pub cleanup_expired_keeps :
      (k r : ℕ)
      → (lookup k (cleanup_expired m now order).after.sessions ≡ some r)
        ↔ ((lookup k m.sessions ≡ some r) × (survives (m.heap r) now ≡ true))
  cleanup_expired_keeps k r = (
    λ h. (
      cleanup_end.subset k r h,
      subst (λ s. survives s now ≡ true) (cleanup_end.same k r h) (cleanup-Settled k r h).0,
    ),
    λ p. cleanup_end.kept k r p.0 p.1,
  )

  -- After CleanupExpired a code leads only to sessions that have not expired.
  pub cleanup_expired_codes :
      (c r : ℕ)
      → lookup c (cleanup_expired m now order).after.by_code ≡ some r
      → now ≤ ((cleanup_expired m now order).after.heap r).expires_at
  cleanup_expired_codes c r h =
      let n-Inv = cleanup_expired-Inv m now order v in
      (cleanup-Settled _ r (n-Inv.code c r h).0).1 c h
