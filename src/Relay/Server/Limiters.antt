-- ===== src/Relay/Server/Limiters.antt =====
-- internal/relay/server.go: the limiters in front of the handlers, and the tool channel, which waits
-- instead of dropping a frame.
use remote_assist_tool.Base.{
  ℕ, zero, suc, ◌+◌, ◌*◌, ◌/◌, Bool, true, false, not, Option, none, some, ltb, if◌then◌else◌,
}
use remote_assist_tool.Ratelimit.Bucket.{Bucket, allow_n}
use remote_assist_tool.Ratelimit.Keyed.{KeyedLimiter, keyed_allow_n}
use remote_assist_tool.P2p.Udp.Relay.{scaled}

pub data Verdict : Type 0 where
  passed over_own over_global : Verdict

pub record Gated : Type 0 where
  pub own : KeyedLimiter
  pub global : Bucket
  pub verdict : Verdict

-- First the limiter of the key, unless it is left out, then the one for all; a message that the first
-- refuses costs the second nothing.
unfoldable pub gate : Bool → KeyedLimiter → Bucket → ℕ → ℕ → Gated
unfolding keyed_allow_n allow_n
gate skip own global now key =
    let (own', own_ok) = if skip then (own, true) else keyed_allow_n own now key (scaled 1) in
    if not own_ok
    then record { own = own'; global = global; verdict = over_own }
    else (let (global', ok) = allow_n global now (scaled 1) in
        record { own = own'; global = global'; verdict = if ok then passed else over_global })

abbrev pub tool_min_frame_cost_kib : ℕ
tool_min_frame_cost_kib = 16

-- toolThrottleMaxWait and toolThrottleStep, in nanoseconds
abbrev pub tool_throttle_max_wait : ℕ
tool_throttle_max_wait = 2_000_000_000

abbrev pub tool_throttle_step : ℕ
tool_throttle_step = 20_000_000

unfoldable pub tool_cost : ℕ → ℕ
tool_cost payload_bytes =
    let cost = (payload_bytes + 1023) / 1024 in
    if ltb cost tool_min_frame_cost_kib then tool_min_frame_cost_kib else cost

pub record Waiting : Type 0 where
  pub own : KeyedLimiter
  pub global : Bucket
  pub per_conn_paid : Bool
  pub accepted : Bool

-- One round up to its test: the own bucket until it has paid, then the global one.
unfoldable pub tool_round : ℕ → ℕ → ℕ → Waiting → Waiting
unfolding keyed_allow_n allow_n
tool_round now key cost w =
    let (own, paid) =
      if w.per_conn_paid then (w.own, true) else keyed_allow_n w.own now key (scaled cost) in
    let (global, ok) = if paid then allow_n w.global now (scaled cost) else (w.global, false) in
    record { own = own; global = global; per_conn_paid = paid; accepted = ok }

-- `clock i` is what the round `i` reads. A result is the state at the return; `none` stands for a
-- loop that has not ended.
unfoldable pub tool_loop : ℕ → (ℕ → ℕ) → ℕ → ℕ → ℕ → ℕ → Waiting → Option Waiting
tool_loop zero clock i deadline key cost w = none
tool_loop (suc fuel) clock i deadline key cost w =
    let w' = tool_round (clock i) key cost w in
    let rest = tool_loop fuel clock (i + 1) deadline key cost w' in
    if w'.accepted then some w' else if not (ltb (clock i) deadline) then some w' else rest

-- A sleep takes its time at least.
abbrev pub throttle_clock : ℕ → (ℕ → ℕ) → ℕ → ℕ
throttle_clock now late i = now + i * tool_throttle_step + late i

abbrev pub tool_rounds : ℕ
tool_rounds = 101

unfoldable pub allow_tool_message : KeyedLimiter → Bucket → ℕ → (ℕ → ℕ) → ℕ → ℕ → Option Waiting
unfolding tool_loop tool_cost
allow_tool_message own global now late key payload_bytes =
    tool_loop tool_rounds (throttle_clock now late) 0 (now + tool_throttle_max_wait) key
      (tool_cost payload_bytes)
      (record { own = own; global = global; per_conn_paid = false; accepted = false })
