-- ===== src/Agent/Replay.antt =====
-- internal/agent/replay.go: the sliding window against replayed calls. A word of `bits` is used bit
-- by bit, so it is the function from a position to its bit, and the mask `1 << k` is the position k.
pub mod Refinement
pub mod Once
use remote_assist_tool.Base.{
  ℕ, zero, suc, ◌+◌, ◌-◌, ◌%◌, ◌/◌, ◌^◌, Bool, true, false, not, ◌&&◌, ◌||◌, Option, none, some,
  ltb, leb, ◌==◌, if◌then◌else◌,
}

abbrev pub replay_window_bits : ℕ
replay_window_bits = 1024

-- A uint64 wraps around.
abbrev pub uint64 : ℕ → ℕ
uint64 n = n % 18446744073709551616

pub record ReplayGuard : Type 0 where
  pub started : Bool
  pub highest : ℕ
  pub bits : ℕ → ℕ → Bool

abbrev pub no_bits : ℕ → ℕ → Bool
no_bits w k = false

unfoldable pub reset : ReplayGuard → ReplayGuard
reset g = record { started = false; highest = 0; bits = no_bits }

unfoldable pub slot : ℕ → ℕ × ℕ
slot id = let pos = id % replay_window_bits in (pos / 64, pos % 64)

unfoldable pub set_bit : (ℕ → ℕ → Bool) → ℕ → ℕ → ℕ → Bool
unfolding slot
set_bit bits id w k = bits w k || (w == (slot id).0 && k == (slot id).1)

unfoldable pub clear_bit : (ℕ → ℕ → Bool) → ℕ → ℕ → ℕ → Bool
unfolding slot
clear_bit bits id w k = bits w k && not (w == (slot id).0 && k == (slot id).1)

unfoldable pub is_set_bit : (ℕ → ℕ → Bool) → ℕ → Bool
unfolding slot
is_set_bit bits id = bits (slot id).0 (slot id).1

-- `for v := ...; v <= id; v++ { g.clear(v) }`, which ends when `v` exceeds `id` within the fuel.
unfoldable pub clear_loop : ℕ → ℕ → ℕ → (ℕ → ℕ → Bool) → Option (ℕ → ℕ → Bool)
unfolding clear_bit
clear_loop zero v id bits = none
clear_loop (suc fuel) v id bits =
    let rest = clear_loop fuel (uint64 (v + 1)) id (clear_bit bits v) in
    if leb v id then rest else some bits

abbrev pub accept_new : ReplayGuard → ℕ → Option (ℕ → ℕ → Bool) → Option (ReplayGuard × Bool)
accept_new g id none = none
accept_new g id (some bits) =
    some (record { started = true; highest = id; bits = set_bit bits id }, true)

-- `none` when the loop has not ended within the fuel.
unfoldable pub accept : ℕ → ReplayGuard → ℕ → Option (ReplayGuard × Bool)
unfolding set_bit is_set_bit clear_loop
accept fuel g id =
    if not g.started
    then some (record { started = true; highest = id; bits = set_bit g.bits id }, true)
    else if ltb g.highest id
    then accept_new g id (
        if leb replay_window_bits (id - g.highest)
        then some no_bits
        else clear_loop fuel (uint64 (g.highest + 1)) id g.bits)
    else if leb replay_window_bits (g.highest - id)
    then some (g, false)
    else if is_set_bit g.bits id
    then some (g, false)
    else some (record g { bits = set_bit g.bits id }, true)
