-- ===== src/Agent/Replay/Refinement.antt =====
-- The window of internal/agent/replay.go against the set of the IDs that it has accepted.
use remote_assist_tool.Base.{
  ℕ, zero, suc, ◌+◌, ◌-◌, ◌%◌, ◌≤◌, ◌<◌, ◌≡◌, ◌⊎◌, inl, inr, refl, ◌∙◌, sym, arith, Bool, true,
  false, not, ◌&&◌, ◌||◌, some, ltb, leb, ◌==◌, if◌then◌else◌, List, [], ◌∷◌, Bool-cases,
}
use remote_assist_tool.Agent.Replay.{
  ReplayGuard, uint64, no_bits, reset, slot, set_bit, clear_bit, is_set_bit, clear_loop, accept,
}

unfoldable pub contains : ℕ → List ℕ → Bool
contains x [] = false
contains x (y ∷ ys) = (y == x) || contains x ys

is_set-set :
    (bits : ℕ → ℕ → Bool) (x y : ℕ)
    → is_set_bit (set_bit bits x) y ≡ (is_set_bit bits y || (y % 1024 == x % 1024))
unfolding is_set_bit set_bit slot
is_set-set bits x y = ground arith

is_set-clear :
    (bits : ℕ → ℕ → Bool) (x y : ℕ)
    → is_set_bit (clear_bit bits x) y ≡ (is_set_bit bits y && not (y % 1024 == x % 1024))
unfolding is_set_bit clear_bit slot
is_set-clear bits x y = ground arith

is_set-none : (y : ℕ) → is_set_bit no_bits y ≡ false
unfolding is_set_bit
is_set-none y = refl

-- The words after the slots of `n` IDs from `v` on are cleared.
unfoldable cleared : ℕ → ℕ → (ℕ → ℕ → Bool) → ℕ → ℕ → Bool
cleared zero v bits = bits
cleared (suc n) v bits = cleared n (v + 1) (clear_bit bits v)

clear_loop-cleared :
    (fuel v id : ℕ) (bits : ℕ → ℕ → Bool)
    → id + 1 < 18446744073709551616
    → v ≤ id + 1
    → id + 1 - v < fuel
    → clear_loop fuel v id bits ≡ some (cleared (id + 1 - v) v bits)
unfolding clear_loop cleared
clear_loop-cleared zero v id bits s h f = absurd (ground (arith, f))
clear_loop-cleared (suc fuel) v id bits s h f = elim (Bool-cases (leb v id)) [
  | inl more ↦
      let left : id + 1 - v ≡ suc (id + 1 - (v + 1)) = ground (arith, more) in
      let small : uint64 (v + 1) ≡ v + 1 = ground (arith, more, s) in
      let rest =
        clear_loop-cleared fuel (v + 1) id (clear_bit bits v) s (ground (arith, more))
          (ground (arith, f, left)) in
      rw (more, left, small) rest
  | inr done ↦ let none_left : id + 1 - v ≡ 0 = ground (arith, done) in rw (done, none_left) refl
]

cleared-inside :
    (n v y : ℕ) (bits : ℕ → ℕ → Bool)
    → (v ≤ y) × (y < v + n) ⊎ (is_set_bit bits y ≡ false)
    → is_set_bit (cleared n v bits) y ≡ false
unfolding cleared
cleared-inside zero v y bits h = ground (arith, h)
cleared-inside (suc n) v y bits h =
    cleared-inside n (v + 1) y (clear_bit bits v) (ground (arith, h, is_set-clear bits v y))

cleared-outside :
    (n v y : ℕ) (bits : ℕ → ℕ → Bool)
    → y < v
    → v + n ≤ y + 1024
    → is_set_bit (cleared n v bits) y ≡ is_set_bit bits y
unfolding cleared
cleared-outside zero v y bits h k = refl
cleared-outside (suc n) v y bits h k =
    cleared-outside n (v + 1) y (clear_bit bits v) (ground (arith, h)) (ground (arith, k))
    ∙ ground (arith, is_set-clear bits v y, h, k)

-- The guard stands for the set of the IDs that it has accepted.
pub record Represents (g : ReplayGuard) (seen : List ℕ) : Type 0 where
  pub unused :
      (y : ℕ) → (g.started ≡ true) ⊎ (contains y seen ≡ false) × (is_set_bit g.bits y ≡ false)
  pub below : (y : ℕ) → (contains y seen ≡ false) ⊎ (y ≤ g.highest)
  pub window :
      (y : ℕ) → y ≤ g.highest → g.highest < y + 1024 → is_set_bit g.bits y ≡ contains y seen

-- The ID is new, and not too old to tell.
abbrev pub is_fresh : ReplayGuard → List ℕ → ℕ → Bool
is_fresh g seen id = not (contains id seen) && (not g.started || ltb g.highest (id + 1024))

-- The bits when the window has moved on to `id`.
abbrev moved : ReplayGuard → ℕ → ℕ → ℕ → Bool
moved g id =
    if leb 1024 (id - g.highest)
    then no_bits
    else cleared (id + 1 - (g.highest + 1)) (g.highest + 1) g.bits

-- The guard after the call.
abbrev accepted : ReplayGuard → ℕ → ReplayGuard × Bool
accepted g id =
    if not g.started
    then (record { started = true; highest = id; bits = set_bit g.bits id }, true)
    else if ltb g.highest id
    then (record { started = true; highest = id; bits = set_bit (moved g id) id }, true)
    else if leb 1024 (g.highest - id)
    then (g, false)
    else if is_set_bit g.bits id
    then (g, false)
    else (record g { bits = set_bit g.bits id }, true)

module _ (fuel : ℕ) (enough : 1024 ≤ fuel) (g : ReplayGuard) (seen : List ℕ) (v : Represents g seen)
    (id : ℕ) (small : id + 1 < 18446744073709551616) where
  accept-accepted : accept fuel g id ≡ some (accepted g id)
  unfolding accept
  accept-accepted =
      ground (arith, small, enough, clear_loop-cleared fuel (g.highest + 1) id g.bits small)

  moved-old :
      (y : ℕ)
      → g.highest < id
      → y ≤ id
      → id < y + 1024
      → is_set_bit (moved g id) y ≡ contains y seen
  moved-old y far h k = elim (Bool-cases (leb 1024 (id - g.highest))) [
    | inl jump ↦ ground (arith, jump, far, h, k, is_set-none y, v.below y)
    | inr step ↦ ground (
      arith,
      step,
      far,
      h,
      k,
      v.below y,
      v.window y,
      cleared-inside (id + 1 - (g.highest + 1)) (g.highest + 1) y g.bits,
      cleared-outside (id + 1 - (g.highest + 1)) (g.highest + 1) y g.bits,
    )
  ]

  accepted-fresh : (accepted g id).1 ≡ is_fresh g seen id
  accepted-fresh = ground (arith, v.unused id, v.below id, v.window id)

  accepted-below :
      (y : ℕ)
      → (contains y (if (accepted g id).1 then id ∷ seen else seen) ≡ false)
        ⊎ (y ≤ (accepted g id).0.highest)
  unfolding contains
  accepted-below y = ground (arith, v.unused y, v.below y)

  accepted-window :
      (y : ℕ)
      → y ≤ (accepted g id).0.highest
      → (accepted g id).0.highest < y + 1024
      → is_set_bit (accepted g id).0.bits y
        ≡ contains y (if (accepted g id).1 then id ∷ seen else seen)
  unfolding contains
  accepted-window y h k = ground (
    arith,
    h,
    k,
    v.unused y,
    v.below y,
    v.window y,
    moved-old y,
    is_set-set g.bits id y,
    is_set-set (moved g id) id y,
  )

  accepted-Represents : Represents (accepted g id).0 (if (accepted g id).1 then id ∷ seen else seen)
  unfolding contains
  accepted-Represents = record {
    unused = λ y. ground (arith, v.unused y);
    below = accepted-below;
    window = accepted-window;
  }

  -- Whatever the guard has accepted so far, it accepts an ID below 2^64 - 1 exactly when it has not
  -- accepted it before and the ID is within 1024 of the highest one, and the result stands for the
  -- set with that ID. The loop ends within 1024 rounds.
  pub accept_refines :
      (h : ReplayGuard) × (accept fuel g id ≡ some (h, is_fresh g seen id))
      × Represents h (if is_fresh g seen id then id ∷ seen else seen)
  accept_refines = (
    (accepted g id).0,
    ground (arith, accept-accepted, accepted-fresh),
    rw (sym accepted-fresh) accepted-Represents,
  )

-- A guard that has just been reset stands for the empty set.
pub reset-Represents : (g : ReplayGuard) → Represents (reset g) []
unfolding reset contains
reset-Represents g = record {
  unused = λ y. ground (arith, is_set-none y);
  below = λ y. ground arith;
  window = λ y h k. is_set-none y;
}
