-- ===== src/Ratelimit/Bucket.antt =====
-- internal/ratelimit/ratelimit.go: Bucket. The code counts tokens with float64; the model counts a
-- fixed fraction of a token exactly, and `rate` in such fractions for each nanosecond. `now` is the
-- reading of the injected clock, in nanoseconds; it may run backwards.
use remote_assist_tool.Base.{
  ℕ, ◌+◌, ◌-◌, ◌*◌, ◌≤◌, ◌<◌, ◌≡◌, Bool, true, false, List, [], ◌∷◌, arith, ltb, leb, ap, ◌∙◌,
  Bool-cases, inl, inr, if◌then◌else◌,
}
use native.Mathlib.Nat.{add-mul, mul-le-mul_right}

pub record Bucket : Type 0 where
  pub rate : ℕ
  pub burst : ℕ
  pub tokens : ℕ
  pub last : ℕ

unfoldable pub new_bucket : ℕ → ℕ → ℕ → Bucket
new_bucket rate burst now = record { rate = rate; burst = burst; tokens = burst; last = now }

-- `x` capped by `cap`.
abbrev pub capped : ℕ → ℕ → ℕ
capped x cap = if ltb cap x then cap else x

unfoldable pub refill : Bucket → ℕ → Bucket
refill b now =
    if ltb b.last now
    then record b { tokens = capped (b.tokens + (now - b.last) * b.rate) b.burst; last = now }
    else b

unfoldable pub allow_n : Bucket → ℕ → ℕ → Bucket × Bool
unfolding refill
allow_n b now n =
    let c = refill b now in
    if leb n c.tokens then (record c { tokens = c.tokens - n }, true) else (c, false)

-- What a run of calls `AllowN(n)`, each at its time, has granted in total.
abbrev pub granted_by : Bool → ℕ → ℕ
granted_by ok n = if ok then n else 0

unfoldable pub after : Bucket → List (ℕ × ℕ) → Bucket
after b [] = b
after b ((now, n) ∷ calls) = after (allow_n b now n).0 calls

unfoldable pub granted : Bucket → List (ℕ × ℕ) → ℕ
granted b [] = 0
granted b ((now, n) ∷ calls) = granted_by (allow_n b now n).1 n + granted (allow_n b now n).0 calls

-- Every call is made by `until`.
unfoldable pub Before : ℕ → List (ℕ × ℕ) → Type 0
Before until [] = Unit
Before until ((now, n) ∷ calls) = (now ≤ until) × Before until calls

-- No call makes the bucket hold more than its burst.
pub tokens_le : (b : Bucket) (now n : ℕ) → b.tokens ≤ b.burst → (allow_n b now n).0.tokens ≤ b.burst
unfolding allow_n
tokens_le b now n h = ground (arith, h)

-- A refill gives no more than the time that it takes into account.
refill-tokens :
    (b : Bucket) (now : ℕ)
    → (refill b now).tokens + b.last * b.rate ≤ b.tokens + (refill b now).last * b.rate
unfolding refill
refill-tokens b now = elim (Bool-cases (ltb b.last now)) [
  | inl later ↦
      let d = now - b.last in
      let split : now ≡ b.last + (now - b.last) = ground (arith, later) in
      let scaled : now * b.rate ≡ b.last * b.rate + (now - b.last) * b.rate =
        ap (λ x. x * b.rate) split ∙ add-mul b.last (now - b.last) b.rate in
      ground (arith, later, scaled)
  | inr e ↦ ground (arith, e)
]

allow-tokens :
    (b : Bucket) (now n : ℕ)
    → granted_by (allow_n b now n).1 n + (allow_n b now n).0.tokens + b.last * b.rate
      ≤ b.tokens + (allow_n b now n).0.last * b.rate
unfolding allow_n
allow-tokens b now n = ground (arith, refill-tokens b now)

allow-rate : (b : Bucket) (now n : ℕ) → (allow_n b now n).0.rate ≡ b.rate
unfolding allow_n refill
allow-rate b now n = ground arith

run-tokens :
    (b : Bucket) (calls : List (ℕ × ℕ))
    → granted b calls + (after b calls).tokens + b.last * b.rate
      ≤ b.tokens + (after b calls).last * b.rate
unfolding granted after
run-tokens b [] = ground arith
run-tokens b ((now, n) ∷ calls) =
    let c = (allow_n b now n).0 in
    ground (
      arith,
      allow-tokens b now n,
      run-tokens (allow_n b now n).0 calls,
      ap (λ x. (allow_n b now n).0.last * x) (allow-rate b now n),
      ap (λ x. (after b ((now, n) ∷ calls)).last * x) (allow-rate b now n),
    )

last-le :
    (b : Bucket) (until : ℕ) (calls : List (ℕ × ℕ))
    → Before until calls
    → b.last ≤ until
    → (after b calls).last ≤ until
unfolding after Before allow_n refill
last-le b until [] h l = l
last-le b until ((now, n) ∷ calls) h l =
    last-le (allow_n b now n).0 until calls h.1 (ground (arith, l, h.0))

-- Whatever the calls and the clock readings are up to a time, a new bucket has granted by then at
-- most its burst and what its rate gives in the time since it was made.
pub granted_le :
    (rate burst start until : ℕ) (calls : List (ℕ × ℕ))
    → start ≤ until
    → Before until calls
    → granted (new_bucket rate burst start) calls ≤ burst + (until - start) * rate
unfolding new_bucket
granted_le rate burst start until calls h t =
    let b = new_bucket rate burst start in
    let scaled = add-mul start (until - start) rate in
    let sum : start + (until - start) ≡ until = ground (arith, h) in
    let end_le : (after b calls).last * rate ≤ until * rate =
      mul-le-mul_right rate (last-le b until calls t h) in
    ground (arith, run-tokens b calls, end_le, scaled, ap (λ x. x * rate) sum)

-- A call for no more than the burst is granted when the time since the last refill is enough to
-- fill the bucket.
pub allow_n_when_full :
    (b : Bucket) (now n : ℕ)
    → n ≤ b.burst
    → b.last < now
    → b.burst ≤ b.tokens + (now - b.last) * b.rate
    → (allow_n b now n).1 ≡ true
unfolding allow_n refill
allow_n_when_full b now n h later full = ground (arith, h, later, full)
