-- ===== src/Agent/Truncate/Boundary.antt =====
-- Where internal/agent/tools/truncate.go cuts.
use remote_assist_tool.Base.{
  ℕ, zero, suc, ◌+◌, ◌-◌, ◌/◌, ◌≤◌, ◌<◌, ◌≡◌, ◌⊎◌, arith, refl, true, false, [], ◌∷◌, ◌++◌, length,
  take, drop, get_or, leb, Bool-cases, inl, inr, sym, leb→le, if_true,
}
use mathlib.Core.List.{append-nil}
use remote_assist_tool.Agent.Truncate.{
  Bytes, rune_start, down_loop, align_down, up_loop, align_up, truncate_head, marker, head_cut,
  tail_cut, truncate_middle,
}
use remote_assist_tool.Agent.Truncate.Budget.{align_down-le, align_up-le, align_up-ge}

-- An end of the text, or the first byte of a character.
abbrev pub IsBoundary : Bytes → ℕ → Type 0
IsBoundary s i = (i ≡ 0) ⊎ (i ≡ length s) ⊎ (rune_start (get_or s i 0) ≡ true)

down_loop-IsBoundary : (s : Bytes) (i : ℕ) → IsBoundary s (down_loop s i)
unfolding down_loop
down_loop-IsBoundary s zero = inl refl
down_loop-IsBoundary s (suc i) = elim (Bool-cases (rune_start (get_or s (suc i) 0))) [
  | inl hit ↦ rw (hit, down_loop) (inr (inr hit))
  | inr miss ↦ rw (miss, down_loop) (down_loop-IsBoundary s i)
]

align_down-IsBoundary : (s : Bytes) (i : ℕ) → IsBoundary s (align_down s i)
unfolding align_down
align_down-IsBoundary s i = elim (Bool-cases (leb (length s) i)) [
  | inl hit ↦ rw (hit, align_down) (inr (inl refl))
  | inr miss ↦ rw (miss, align_down) (down_loop-IsBoundary s i)
]

-- The loop has enough rounds to reach the end of the text.
up_loop-IsBoundary :
    (left : ℕ) (s : Bytes) (i : ℕ) → i + left ≡ length s → IsBoundary s (up_loop left s i)
unfolding up_loop
up_loop-IsBoundary zero s i h = inr (inl (ground (arith, h)))
up_loop-IsBoundary (suc left) s i h = elim (Bool-cases (rune_start (get_or s i 0))) [
  | inl hit ↦ rw (hit, up_loop) (inr (inr hit))
  | inr miss ↦ rw (miss, up_loop) (up_loop-IsBoundary left s (i + 1) (ground (arith, h)))
]

align_up-IsBoundary : (s : Bytes) (i : ℕ) → IsBoundary s (align_up s i)
unfolding align_up
align_up-IsBoundary s zero = inl refl
align_up-IsBoundary s (suc i) = elim (Bool-cases (leb (length s) (suc i))) [
  | inl hit ↦ rw (hit, align_up) (inr (inl refl))
  | inr miss ↦
      rw (miss, align_up) (up_loop-IsBoundary (length s - suc i) s (suc i) (ground (arith, miss)))
]

drop-length : (s : Bytes) → drop (length s) s ≡ []
drop-length [] = refl
drop-length (b ∷ s) = drop-length s

-- A text cut in front has nothing left of its end.
take-append-nothing : (i : ℕ) (s : Bytes) → take i s ≡ take i s ++ ([] ++ drop (length s) s)
take-append-nothing i s = rw (drop-length s) (sym (append-nil (take i s)))

-- What a truncation leaves of a text that is too long: a part in front and a part at the end, both
-- cut at boundaries of characters, with nothing but the marker for the bytes between them, which
-- says how many they are; or only a part in front.
pub record IsCut (s : Bytes) (out : Bytes) : Type 0 where
  pub front : ℕ
  pub back : ℕ
  pub between : Bytes
  pub shape : out ≡ take front s ++ (between ++ drop back s)
  pub marked : (between ≡ marker (back - front)) ⊎ (between ≡ []) × (back ≡ length s)
  pub in_order : front ≤ back
  pub inside : back ≤ length s
  pub front_cut : IsBoundary s front
  pub back_cut : IsBoundary s back

in_front : (s : Bytes) (max : ℕ) → leb (length s) max ≡ false → align_down s max ≤ length s
in_front s max long = ground (arith, long, align_down-le s max)

head_cut-le-tail_cut :
    (s : Bytes) (max : ℕ)
    → 96 < max
    → max < length s
    → (head_cut s max ≤ tail_cut s max) × (tail_cut s max ≤ length s)
unfolding head_cut tail_cut
head_cut-le-tail_cut s max m long =
    let budget = max - 96 in
    let at = length s - (budget - budget / 2) in
    let below : at ≤ length s = ground arith in
    let head_le = align_down-le s (budget / 2) in
    let tail_le = align_up-le s at below in
    let tail_ge = align_up-ge s at below in (omega (arith, head_le, tail_ge, long, m), tail_le)

-- TruncateMiddle returns a text within the budget as it is and says that it is not cut. Of any other
-- text it says that it is cut, and returns a part in front and a part at the end, cut at ends of
-- the text or first bytes of characters, with the marker that counts the bytes between them, or
-- only a part in front.
pub truncate_middle_cuts :
    (s : Bytes) (max : ℕ)
    → (length s ≤ max) × (truncate_middle s max ≡ (s, false))
      ⊎ ((truncate_middle s max).1 ≡ true) × IsCut s (truncate_middle s max).0
unfolding truncate_middle truncate_head head_cut tail_cut
truncate_middle_cuts s max = elim (Bool-cases (leb (length s) max)) [
  | inl fits ↦ inl (leb→le (length s) max fits, if_true (leb (length s) max) _ _ fits)
  | inr long ↦ elim (Bool-cases (leb max 96)) [
    | inl small ↦ inr (
      ground (arith, long, small),
      record {
        front = align_down s max;
        back = length s;
        between = [];
        shape = rw (long, truncate_middle) (rw small (take-append-nothing (down_loop s max) s));
        marked = inr (refl, refl);
        in_order = in_front s max long;
        inside = omega arith;
        front_cut = align_down-IsBoundary s max;
        back_cut = inr (inl refl);
      },
    )
    | inr large ↦
        let order = head_cut-le-tail_cut s max (ground (arith, large)) (ground (arith, long)) in
        inr (
          ground (arith, long, large),
          record {
            front = head_cut s max;
            back = tail_cut s max;
            between = marker (tail_cut s max - head_cut s max);
            shape = rw (long, truncate_middle) (rw large refl);
            marked = inl refl;
            in_order = order.0;
            inside = order.1;
            front_cut = align_down-IsBoundary s ((max - 96) / 2);
            back_cut = align_up-IsBoundary s (length s - (max - 96 - (max - 96) / 2));
          },
        )
  ]
]
