-- ===== src/Mcp/Stream/Gaps.antt =====
-- internal/mcp/bridge.go: the loop of observe, and the set of the missing numbers.
use remote_assist_tool.Base.{
  ℕ, zero, suc, ◌+◌, ◌-◌, ◌%◌, ◌≤◌, ◌≡◌, refl, ◌∙◌, arith, Bool, true, false, ◌&&◌, some, ltb, leb,
  if◌then◌else◌, Bool-cases, inl, inr, if_true, if_false,
}
use remote_assist_tool.Base.Dict.{Dict, lookup, insert, delete, size, lookup-insert, size-insert_le}
use remote_assist_tool.Mcp.Stream.{max_tracked_gaps, StreamRecv, gap_loop, observe}

-- One more turn of the loop, and the turn that gives up.
gap_loop-more :
    (left h : ℕ) (m : Dict Bool) (o : ℕ)
    → leb max_tracked_gaps (size m) ≡ false
    → gap_loop (suc left) h m o ≡ gap_loop left (h + 1) (insert h true m) o
unfolding gap_loop
gap_loop-more left h m o e =
    if_false (leb max_tracked_gaps (size m)) (m, o + suc left)
      (gap_loop left (h + 1) (insert h true m) o) e

gap_loop-full :
    (left h : ℕ) (m : Dict Bool) (o : ℕ)
    → leb max_tracked_gaps (size m) ≡ true
    → gap_loop (suc left) h m o ≡ (m, o + suc left)
unfolding gap_loop
gap_loop-full left h m o e =
    if_true (leb max_tracked_gaps (size m)) (m, o + suc left)
      (gap_loop left (h + 1) (insert h true m) o) e

pub gap_loop-overflow : (left h : ℕ) (m : Dict Bool) (o : ℕ) → o ≤ (gap_loop left h m o).1
unfolding gap_loop
gap_loop-overflow zero h m o = omega arith
gap_loop-overflow (suc left) h m o = elim (Bool-cases (leb max_tracked_gaps (size m))) [
  | inl full ↦ rw (gap_loop-full left h m o full) (omega arith)
  | inr room ↦
      rw (gap_loop-more left h m o room) (gap_loop-overflow left (h + 1) (insert h true m) o)
]

-- Without an overflow, exactly the numbers that were passed over are added.
pub gap_loop-lookup :
    (left h : ℕ) (m : Dict Bool) (o y : ℕ)
    → (gap_loop left h m o).1 ≡ 0
    → lookup y (gap_loop left h m o).0
      ≡ (if leb h y && ltb y (h + left) then some true else lookup y m)
unfolding gap_loop
gap_loop-lookup zero h m o y e = ground arith
gap_loop-lookup (suc left) h m o y e = elim (Bool-cases (leb max_tracked_gaps (size m))) [
  | inl full ↦ absurd (ground (arith, e, gap_loop-full left h m o full))
  | inr room ↦
      let same = gap_loop-more left h m o room in
      rw same (
        gap_loop-lookup left (h + 1) (insert h true m) o y (ground (arith, e, same))
        ∙ ground (arith, lookup-insert h y true m))
]

-- There is room for the numbers below max_tracked_gaps.
pub gap_loop-room :
    (left h : ℕ) (m : Dict Bool) (o : ℕ)
    → size m ≤ h
    → h + left ≤ max_tracked_gaps
    → ((gap_loop left h m o).1 ≡ o) × (size (gap_loop left h m o).0 ≤ h + left)
unfolding gap_loop
gap_loop-room zero h m o s b = (refl, omega arith)
gap_loop-room (suc left) h m o s b = rw (gap_loop-more left h m o (ground (arith, s, b))) (
    let rest =
      gap_loop-room left (h + 1) (insert h true m) o (ground (arith, s, size-insert_le h true m))
        (ground (arith, b)) in
    (rest.0, ground (arith, rest.1)))

-- What observe leaves.
module _ (s : StreamRecv) (seq : ℕ) where
  pub observe-late :
      ltb seq s.next ≡ true → observe s seq ≡ record s { missing = delete seq s.missing }
  unfolding observe gap_loop
  observe-late late = rw late refl

  pub observe-ahead :
      ltb seq s.next ≡ false
      → observe s seq ≡ record s {
        missing = (gap_loop (seq - s.next) s.next s.missing s.overflow).0;
        overflow = (gap_loop (seq - s.next) s.next s.missing s.overflow).1;
        next = (seq + 1) % 4294967296;
      }
  unfolding observe
  observe-ahead ahead = rw ahead refl
