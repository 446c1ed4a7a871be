-- ===== src/Agent/Truncate/Budget.antt =====
-- The length of what internal/agent/tools/truncate.go returns.
use remote_assist_tool.Base.{
  ℕ, zero, suc, ◌+◌, ◌-◌, ◌*◌, ◌/◌, ◌%◌, ◌≤◌, ◌<◌, arith, [], ◌∷◌, ◌++◌, length, take, drop,
  length-append, length-take, length-drop, leb, Bool-cases, inl, inr,
}
use remote_assist_tool.Agent.Truncate.{
  Bytes, down_loop, align_down, up_loop, align_up, truncate_head, digits, marker, marker_before,
  marker_after, head_cut, tail_cut, truncate_middle,
}

down_loop-le : (s : Bytes) (i : ℕ) → down_loop s i ≤ i
unfolding down_loop
down_loop-le s zero = ground arith
down_loop-le s (suc i) = ground (arith, down_loop-le s i)

pub align_down-le : (s : Bytes) (i : ℕ) → align_down s i ≤ i
unfolding align_down
align_down-le s i = ground (arith, down_loop-le s i)

up_loop-bounds :
    (left : ℕ) (s : Bytes) (i : ℕ) → (i ≤ up_loop left s i) × (up_loop left s i ≤ i + left)
unfolding up_loop
up_loop-bounds zero s i = ground arith
up_loop-bounds (suc left) s i = ground (arith, up_loop-bounds left s (i + 1))

pub align_up-ge : (s : Bytes) (i : ℕ) → i ≤ length s → i ≤ align_up s i
unfolding align_up
align_up-ge s zero h = ground arith
align_up-ge s (suc i) h = ground (arith, h, up_loop-bounds (length s - suc i) s (suc i))

unfoldable ten : ℕ → ℕ
ten zero = 1
ten (suc k) = 10 * ten k

length-digits : (k fuel n : ℕ) → n < ten (suc k) → length (digits fuel n) ≤ suc k
unfolding digits ten
length-digits k zero n h = ground arith
length-digits zero (suc fuel) n h = ground (arith, h)
length-digits (suc k) (suc fuel) n h = ground (
  arith,
  h,
  length-digits k fuel (n / 10),
  length-append (digits fuel (n / 10)) ((48 + n % 10) ∷ []),
)

length-marker : (n : ℕ) → n < 10000000000000000 → length (marker n) ≤ 96
unfolding marker ten
length-marker n h = ground (
  arith,
  length-digits 15 19 n h,
  length-append marker_before (digits 19 n ++ marker_after),
  length-append (digits 19 n) marker_after,
)

length-truncate_head : (s : Bytes) (max : ℕ) → length (truncate_head s max) ≤ max
unfolding truncate_head
length-truncate_head s max = ground (arith, align_down-le s max, length-take (align_down s max) s)

pub align_up-le : (s : Bytes) (i : ℕ) → i ≤ length s → align_up s i ≤ length s
unfolding align_up
align_up-le s zero h = ground arith
align_up-le s (suc i) h = ground (arith, h, up_loop-bounds (length s - suc i) s (suc i))

-- The part in front, the marker and the part at the end.
length-parts :
    (s : Bytes) (max : ℕ)
    → length s < 10000000000000000
    → 96 < max
    → length (
        take (head_cut s max) s
        ++ (marker (tail_cut s max - head_cut s max) ++ drop (tail_cut s max) s))
      ≤ max
unfolding head_cut tail_cut
length-parts s max h m =
    let budget = max - 96 in
    let at = length s - (budget - budget / 2) in
    let head = align_down s (budget / 2) in
    let tail = align_up s at in
    let head_le = align_down-le s (budget / 2) in
    let tail_le = align_up-le s at (ground arith) in
    let tail_ge = align_up-ge s at (ground arith) in
    let mark = length-marker (tail - head) (ground (arith, h, tail_le)) in
    omega (
      arith,
      m,
      head_le,
      tail_ge,
      mark,
      length-take head s,
      length-drop tail s,
      length-append (take head s) (marker (tail - head) ++ drop tail s),
      length-append (marker (tail - head)) (drop tail s),
    )

-- What TruncateMiddle returns for a text shorter than 10^16 bytes is never longer than the budget,
-- marker included.
pub length-truncate_middle :
    (s : Bytes) (max : ℕ) → length s < 10000000000000000 → length (truncate_middle s max).0 ≤ max
unfolding truncate_middle
length-truncate_middle s max h = elim (Bool-cases (leb (length s) max)) [
  | inl fits ↦ rw (fits, truncate_middle) (ground (arith, fits))
  | inr long ↦ elim (Bool-cases (leb max 96)) [
    | inl small ↦
        rw (long, truncate_middle)
          (rw small (ground (arith, down_loop-le s max, length-take (down_loop s max) s)))
    | inr large ↦
        rw (long, truncate_middle) (rw large (length-parts s max h (ground (arith, large))))
  ]
]
