-- ===== src/Ratelimit/Keyed.antt =====
-- internal/ratelimit/ratelimit.go: KeyedLimiter. A `*keyedBucket` is an index of the heap. The list
-- has the pointers, the one used last in front; a bucket is in it at most once, so that the element
-- that a bucket points to is where its pointer stands. `key` 0 is the empty text.
pub mod Linked
pub mod Refines
pub mod Runs
use remote_assist_tool.Base.{
  ℕ, ◌+◌, ◌-◌, ◌*◌, Bool, true, false, not, List, [], ◌∷◌, Option, none, some, ltb, leb, ◌==◌,
  if◌then◌else◌,
}
use remote_assist_tool.Base.Dict.{Dict, lookup, insert, delete, size}
use remote_assist_tool.Ratelimit.Bucket.{capped}

pub record KeyedBucket : Type 0 where
  pub key : ℕ
  pub tokens : ℕ
  pub last_refill : ℕ
  pub last_seen : ℕ

pub record KeyedLimiter : Type 0 where
  pub heap : ℕ → KeyedBucket
  pub next : ℕ  -- the first address that no bucket has
  pub buckets : Dict ℕ
  pub lru : List ℕ
  pub rate : ℕ
  pub burst : ℕ
  pub max_keys : ℕ
  pub idle_expiry : ℕ

unfoldable pub new_keyed_limiter : ℕ → ℕ → ℕ → ℕ → KeyedLimiter
new_keyed_limiter rate burst max_keys idle_expiry = record {
  heap = λ p. record { key = 0; tokens = 0; last_refill = 0; last_seen = 0 };
  next = 0;
  buckets = [];
  lru = [];
  rate = rate;
  burst = burst;
  max_keys = max_keys;
  idle_expiry = idle_expiry;
}

-- list.Remove
unfoldable pub remove : ℕ → List ℕ → List ℕ
remove p [] = []
remove p (q ∷ l) = let rest = remove p l in if q == p then rest else q ∷ rest

-- list.MoveToFront
abbrev pub move_to_front : ℕ → List ℕ → List ℕ
move_to_front p l = p ∷ remove p l

-- list.Back
unfoldable pub back : List ℕ → Option ℕ
back [] = none
back (p ∷ []) = some p
back (p ∷ q ∷ l) = back (q ∷ l)

abbrev pub write : (ℕ → KeyedBucket) → ℕ → KeyedBucket → ℕ → KeyedBucket
write h p b x = if x == p then b else h x

-- A new bucket, full, for the key.
abbrev pub add_bucket : KeyedLimiter → ℕ → ℕ → KeyedLimiter
add_bucket k now key = record k {
  heap =
      write k.heap k.next
        (record { key = key; tokens = k.burst; last_refill = now; last_seen = now });
  next = k.next + 1;
  buckets = insert key k.next k.buckets;
  lru = k.next ∷ k.lru;
}

-- The bucket that was not used for the longest time goes over to the key, with its tokens.
abbrev pub rebind : KeyedLimiter → ℕ → ℕ → KeyedLimiter
rebind k c key = record k {
  heap = write k.heap c (record (k.heap c) { key = key });
  buckets = insert key c (delete (k.heap c).key k.buckets);
  lru = move_to_front c k.lru;
}

abbrev pub evict : KeyedLimiter → ℕ → KeyedLimiter
evict k c = record k { buckets = delete (k.heap c).key k.buckets; lru = remove c k.lru }

-- The bucket for the key; `none` when the table has no room at all.
unfoldable pub acquire : KeyedLimiter → ℕ → ℕ → Option (KeyedLimiter × ℕ)
unfolding back
acquire k now key = elim (lookup key k.buckets) [
  | some p ↦ some (record k { lru = move_to_front p k.lru }, p)
  | none ↦
      if not (leb k.max_keys (size k.buckets))
      then some (add_bucket k now key, k.next)
      else elim (back k.lru) [
        | none ↦ none
        | some c ↦
            if ltb now ((k.heap c).last_seen + k.idle_expiry)
            then some (rebind k c key, c)
            else some (add_bucket (evict k c) now key, k.next)
      ]
]

unfoldable pub refill_keyed : KeyedLimiter → KeyedBucket → ℕ → KeyedBucket
refill_keyed k b now =
    if ltb b.last_refill now
    then record b {
      tokens = capped (b.tokens + (now - b.last_refill) * k.rate) k.burst;
      last_refill = now;
    }
    else b

unfoldable pub take_tokens : KeyedLimiter → ℕ → ℕ → ℕ → KeyedLimiter × Bool
unfolding refill_keyed
take_tokens k p now n =
    let b = refill_keyed k (record (k.heap p) { last_seen = now }) now in
    if ltb b.tokens n
    then (record k { heap = write k.heap p b }, false)
    else (record k { heap = write k.heap p (record b { tokens = b.tokens - n }) }, true)

unfoldable pub keyed_allow_n : KeyedLimiter → ℕ → ℕ → ℕ → KeyedLimiter × Bool
unfolding acquire take_tokens
keyed_allow_n k now key n = elim (acquire k now key) [
  | none ↦ (k, false)
  | some (k1, p) ↦ take_tokens k1 p now n
]
