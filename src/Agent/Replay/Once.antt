-- ===== src/Agent/Replay/Once.antt =====
-- Sequences of calls at the window of internal/agent/replay.go, and the last ID of all.
use remote_assist_tool.Base.{
  ℕ, zero, suc, ◌+◌, ◌≤◌, ◌<◌, ◌≡◌, arith, Bool, true, none, some, ◌==◌, ◌&&◌, if◌then◌else◌, List,
  [], ◌∷◌,
}
use remote_assist_tool.Agent.Replay.{ReplayGuard, uint64, reset, clear_bit, clear_loop, accept}
use remote_assist_tool.Agent.Replay.Refinement.{
  contains, Represents, accept_refines, reset-Represents,
}

-- Every ID has a successor in a uint64.
unfoldable pub AllSmall : List ℕ → Type 0
AllSmall [] = Unit
AllSmall (id ∷ ids) = (id + 1 < 18446744073709551616) × AllSmall ids

-- How often the guard accepts `x` while it is asked about the IDs in turn.
unfoldable pub times_accepted : ℕ → ReplayGuard → List ℕ → ℕ → ℕ
unfolding accept
times_accepted fuel g [] x = 0
times_accepted fuel g (id ∷ ids) x = elim (accept fuel g id) [
  | none ↦ 0
  | some (h, ok) ↦ (if ok && id == x then 1 else 0) + times_accepted fuel h ids x
]

times_accepted-seen :
    (fuel : ℕ)
    → 1024 ≤ fuel
    → (g : ReplayGuard) (seen ids : List ℕ) (x : ℕ) → Represents g seen
    → AllSmall ids
    → times_accepted fuel g ids x + (if contains x seen then 1 else 0) ≤ 1
unfolding times_accepted AllSmall contains
times_accepted-seen fuel enough g seen [] x v s = ground arith
times_accepted-seen fuel enough g seen (id ∷ ids) x v s =
    let (h, e, w) = accept_refines fuel enough g seen v id s.0 in
    let rest = times_accepted-seen fuel enough h _ ids x w s.1 in
    rw (e, times_accepted) (ground (arith, rest))

-- After a reset every ID is accepted at most once, in whatever order and however often IDs below
-- 2^64 - 1 come.
pub times_accepted-reset :
    (g : ReplayGuard) (ids : List ℕ) (x : ℕ)
    → AllSmall ids
    → times_accepted 1024 (reset g) ids x ≤ 1
unfolding contains
times_accepted-reset g ids x s =
    ground
      (arith, times_accepted-seen 1024 (ground arith) (reset g) [] ids x (reset-Represents g) s)

clear_loop-diverges :
    (fuel v : ℕ) (bits : ℕ → ℕ → Bool)
    → v ≤ 18446744073709551615
    → clear_loop fuel v 18446744073709551615 bits ≡ none
unfolding clear_loop
clear_loop-diverges zero v bits h = ground arith
clear_loop-diverges (suc fuel) v bits h =
    ground (arith, h, clear_loop-diverges fuel (uint64 (v + 1)) (clear_bit bits v))

-- The one ID without a successor: when the window has to move on to 2^64 - 1 by fewer than 1024
-- steps, the loop that clears the slots does not end, whatever the fuel, since its counter wraps
-- around and never exceeds the ID.
pub accept_last_diverges :
    (fuel : ℕ) (g : ReplayGuard)
    → g.started ≡ true
    → g.highest < 18446744073709551615
    → 18446744073709551615 < g.highest + 1024
    → accept fuel g 18446744073709551615 ≡ none
unfolding accept
accept_last_diverges fuel g s h k =
    ground (arith, s, h, k, clear_loop-diverges fuel (uint64 (g.highest + 1)) g.bits)
