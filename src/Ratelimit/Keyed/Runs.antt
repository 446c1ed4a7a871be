-- ===== src/Ratelimit/Keyed/Runs.antt =====
-- Every sequence of calls of KeyedLimiter (internal/ratelimit/ratelimit.go).
use remote_assist_tool.Base.{
  ℕ, ◌-◌, ◌≤◌, ◌≡◌, refl, ap, ◌∙◌, arith, Bool, true, false, List, [], ◌∷◌, none, some, ltb, ◌==◌,
  if◌then◌else◌, Bool-cases, Option-cases, inl, inr,
}
use remote_assist_tool.Base.Dict.{lookup, size}
use remote_assist_tool.Ratelimit.Bucket.{Bucket, allow_n}
use remote_assist_tool.Ratelimit.Keyed.{
  KeyedBucket, KeyedLimiter, new_keyed_limiter, back, write, acquire, refill_keyed, take_tokens,
  keyed_allow_n,
}
use remote_assist_tool.Ratelimit.Keyed.Linked.{Linked, listed}
use remote_assist_tool.Ratelimit.Keyed.Refines.{as_bucket, owed, acquire_owed, take-Bucket}

-- The key of no bucket has changed.
same_keys :
    (k : KeyedLimiter) (p q : ℕ) (b : KeyedBucket)
    → b.key ≡ (k.heap p).key
    → (write k.heap p b q).key ≡ (k.heap q).key
same_keys k p q b own = elim (Bool-cases (q == p)) [
  | inl same ↦
      let here : q ≡ p = ground (arith, same) in
      ground (arith, same, own, ap (λ x. (k.heap x).key) here)
  | inr apart ↦ ground (arith, apart)
]

spend-Linked :
    (k : KeyedLimiter) (p : ℕ) (b : KeyedBucket)
    → Linked k
    → b.key ≡ (k.heap p).key
    → b.tokens ≤ k.burst
    → Linked (record k { heap = write k.heap p b })
spend-Linked k p b v own full = record {
  distinct = v.distinct;
  link = λ j q f.
      let w = v.link j q f in
      elim (Bool-cases (q == p)) [
        | inl same ↦
            let here : q ≡ p = ground (arith, same) in
            record {
              own_key = ground (arith, same, own, w.own_key, ap (λ x. (k.heap x).key) here);
              in_list = w.in_list;
              allocated = w.allocated;
              capped_ = ground (arith, same, full);
            }
        | inr apart ↦ record {
          own_key = ground (arith, apart, w.own_key);
          in_list = w.in_list;
          allocated = w.allocated;
          capped_ = ground (arith, apart, w.capped_);
        }
      ];
  unlink = λ q f. ap (λ i. lookup i k.buckets) (same_keys k p q b own) ∙ v.unlink q f;
  room = v.room;
}

branch :
    (b : Bool) (x y : KeyedLimiter × Bool) → Linked x.0 → Linked y.0 → Linked (if b then x else y).0
branch true x y v w = v
branch false x y v w = w

take-Linked :
    (k : KeyedLimiter) (p now n : ℕ)
    → Linked k
    → (k.heap p).tokens ≤ k.burst
    → Linked (take_tokens k p now n).0
unfolding take_tokens refill_keyed
take-Linked k p now n v full =
    let b = refill_keyed k (record (k.heap p) { last_seen = now }) now in
    let own : b.key ≡ (k.heap p).key = ground arith in
    let capped_ : b.tokens ≤ k.burst = ground (arith, full) in
    branch (ltb b.tokens n) (record k { heap = write k.heap p b }, false)
      (record k { heap = write k.heap p (record b { tokens = b.tokens - n }) }, true)
      (spend-Linked k p b v own capped_)
      (spend-Linked k p (record b { tokens = b.tokens - n }) v own (ground (arith, capped_)))

acquire-none : (k : KeyedLimiter) (now key : ℕ) → owed k now key ≡ none → acquire k now key ≡ none
unfolding acquire owed
acquire-none k now key e = elim (Option-cases (lookup key k.buckets)) [
  | inr (p, f) ↦ absurd (ground (arith, f, e))
  | inl new ↦ elim (Option-cases (back k.lru)) [
    | inl f ↦ ground (arith, new, f, e)
    | inr (c, f) ↦ absurd (ground (arith, new, f, e))
  ]
]

owed_known :
    (k : KeyedLimiter) (now key p : ℕ)
    → lookup key k.buckets ≡ some p
    → owed k now key ≡ some (as_bucket k p)
unfolding owed
owed_known k now key p e = ground (arith, e)

kept_buckets :
    (k : KeyedLimiter) (p now n key : ℕ)
    → lookup key k.buckets ≡ some p
    → lookup key (take_tokens k p now n).0.buckets ≡ some p
unfolding take_tokens
kept_buckets k p now n key e = ground (arith, e)

-- In a limiter whose map and list agree, a call for a key to which a bucket is owed (its own, a
-- fresh one, or the one that it inherits when the table is full) is answered as a call of that
-- Bucket, and leaves the key what that Bucket has left.
pub keyed_allow_n_refines :
    (k : KeyedLimiter) (now key n later : ℕ) (b : Bucket)
    → Linked k
    → owed k now key ≡ some b
    → ((keyed_allow_n k now key n).1 ≡ (allow_n b now n).1)
      × (owed (keyed_allow_n k now key n).0 later key ≡ some (allow_n b now n).0)
unfolding keyed_allow_n
keyed_allow_n_refines k now key n later b v o =
    let (k1, p, e, a) = acquire_owed k v now key b o in
    let (x, y) = take-Bucket k1 p now n in
    rw (e, keyed_allow_n)
      (
        x ∙ ap (λ c. (allow_n c now n).1) a.balance,
        owed_known _ later key p (kept_buckets k1 p now n key a.at_key)
            ∙ ap some (y ∙ ap (λ c. (allow_n c now n).0) a.balance),
      )

keyed-Linked : (k : KeyedLimiter) (now key n : ℕ) → Linked k → Linked (keyed_allow_n k now key n).0
unfolding keyed_allow_n
keyed-Linked k now key n v = elim (Option-cases (owed k now key)) [
  | inl o ↦ rw (acquire-none k now key o, keyed_allow_n) v
  | inr (b, o) ↦
      let (k1, p, e, a) = acquire_owed k v now key b o in
      rw (e, keyed_allow_n) (take-Linked k1 p now n a.linked (a.linked.link key p a.at_key).capped_)
]

unfoldable pub keyed_run : KeyedLimiter → List (ℕ × ℕ × ℕ) → KeyedLimiter
keyed_run k [] = k
keyed_run k ((now, key, n) ∷ calls) = keyed_run (keyed_allow_n k now key n).0 calls

run-Linked : (k : KeyedLimiter) (calls : List (ℕ × ℕ × ℕ)) → Linked k → Linked (keyed_run k calls)
unfolding keyed_run
run-Linked k [] v = v
run-Linked k ((now, key, n) ∷ calls) v =
    run-Linked (keyed_allow_n k now key n).0 calls (keyed-Linked k now key n v)

new-Linked : (rate burst max idle : ℕ) → Linked (new_keyed_limiter rate burst max idle)
unfolding new_keyed_limiter lookup size listed
new-Linked rate burst max idle = record {
  distinct = tt;
  link = λ i p f. absurd (ground (arith, f));
  unlink = λ p f. absurd (ground (arith, f));
  room = ground arith;
}

keyed-max_keys :
    (k : KeyedLimiter) (now key n : ℕ)
    → Linked k
    → (keyed_allow_n k now key n).0.max_keys ≡ k.max_keys
unfolding keyed_allow_n take_tokens
keyed-max_keys k now key n v = elim (Option-cases (owed k now key)) [
  | inl o ↦ ground (arith, acquire-none k now key o)
  | inr (b, o) ↦ let (k1, p, e, a) = acquire_owed k v now key b o in ground (arith, e, a.same_keys)
]

run-max_keys :
    (k : KeyedLimiter) (calls : List (ℕ × ℕ × ℕ))
    → Linked k
    → (keyed_run k calls).max_keys ≡ k.max_keys
unfolding keyed_run
run-max_keys k [] v = refl
run-max_keys k ((now, key, n) ∷ calls) v =
    run-max_keys (keyed_allow_n k now key n).0 calls (keyed-Linked k now key n v)
    ∙ keyed-max_keys k now key n v

-- Whatever keys a new limiter is asked about, it never holds more than its maximum of them, the map
-- and the list hold the same buckets, and no bucket holds more than the burst.
pub keyed_run-Linked :
    (rate burst max idle : ℕ) (calls : List (ℕ × ℕ × ℕ))
    → (size (keyed_run (new_keyed_limiter rate burst max idle) calls).buckets ≤ max)
      × Linked (keyed_run (new_keyed_limiter rate burst max idle) calls)
unfolding new_keyed_limiter
keyed_run-Linked rate burst max idle calls =
    let k = new_keyed_limiter rate burst max idle in
    let v = new-Linked rate burst max idle in
    let w = run-Linked k calls v in (ground (arith, w.room, run-max_keys k calls v), w)
