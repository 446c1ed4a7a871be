-- ===== src/Ratelimit/Keyed/Refines.antt =====
-- KeyedLimiter (internal/ratelimit/ratelimit.go) against one Bucket for each key.
use remote_assist_tool.Base.{
  ℕ, ◌+◌, ◌<◌, ◌≡◌, refl, subst, arith, true, not, Option, none, some, ltb, leb, if◌then◌else◌,
  Bool-cases, Option-cases, inl, inr,
}
use remote_assist_tool.Base.Dict.{lookup, delete, size, lookup-insert, lookup-delete, size-delete}
use remote_assist_tool.Ratelimit.Bucket.{Bucket, refill, allow_n}
use remote_assist_tool.Ratelimit.Keyed.{
  KeyedLimiter, move_to_front, back, add_bucket, rebind, evict, acquire, refill_keyed, take_tokens,
}
use remote_assist_tool.Ratelimit.Keyed.Linked.{
  Linked, listed-remove, back-listed, front-Linked, place-Linked, add-Linked, evict-Linked,
}

-- A bucket of the limiter as a bucket of its own.
abbrev pub as_bucket : KeyedLimiter → ℕ → Bucket
as_bucket k p = record {
  rate = k.rate;
  burst = k.burst;
  tokens = (k.heap p).tokens;
  last = (k.heap p).last_refill;
}

abbrev pub full_bucket : KeyedLimiter → ℕ → Bucket
full_bucket k now = record { rate = k.rate; burst = k.burst; tokens = k.burst; last = now }

-- What a key is owed: its own bucket; a full one if there is room, or if the bucket that was not used
-- for the longest time is idle; and else that very bucket, as it is.
unfoldable pub owed : KeyedLimiter → ℕ → ℕ → Option Bucket
owed k now key = elim (lookup key k.buckets) [
  | some p ↦ some (as_bucket k p)
  | none ↦
      if not (leb k.max_keys (size k.buckets))
      then some (full_bucket k now)
      else elim (back k.lru) [
        | none ↦ none
        | some c ↦
            if ltb now ((k.heap c).last_seen + k.idle_expiry)
            then some (as_bucket k c)
            else some (full_bucket k now)
      ]
]

-- The limiter once the key has a bucket.
pub record IsAcquired (k : KeyedLimiter) (key : ℕ) (b : Bucket) (k1 : KeyedLimiter) (p : ℕ)
    : Type 0 where
  pub linked : Linked k1
  pub at_key : lookup key k1.buckets ≡ some p
  pub balance : as_bucket k1 p ≡ b
  pub same_keys : k1.max_keys ≡ k.max_keys

module _ (k : KeyedLimiter) (v : Linked k) (now key : ℕ) where
  known :
      (p : ℕ)
      → lookup key k.buckets ≡ some p
      → IsAcquired k key (as_bucket k p) (record k { lru = move_to_front p k.lru }) p
  known p e = record {
    linked = front-Linked k v key p e;
    at_key = e;
    balance = refl;
    same_keys = refl;
  }

  added :
      lookup key k.buckets ≡ none
      → size k.buckets < k.max_keys
      → IsAcquired k key (full_bucket k now) (add_bucket k now key) k.next
  added new room = record {
    linked = add-Linked k v now key new room;
    at_key = ground (arith, lookup-insert key key k.next k.buckets);
    balance = ground arith;
    same_keys = refl;
  }

  inherited :
      (c : ℕ)
      → lookup key k.buckets ≡ none
      → back k.lru ≡ some c
      → IsAcquired k key (as_bucket k c) (rebind k c key) c
  inherited c new last =
      let here = back-listed k.lru c last in
      let at_c = v.unlink c here in
      let w = v.link (k.heap c).key c at_c in
      record {
        linked =
            place-Linked (evict k c) (evict-Linked k v c here) key c k.next
              (record (k.heap c) { key = key })
              (ground (arith, new, lookup-delete (k.heap c).key key k.buckets))
              (ground (arith, listed-remove c c k.lru))
              (ground (arith, v.room, size-delete (k.heap c).key c k.buckets v.distinct at_c))
              (ground arith) w.allocated refl w.capped_;
        at_key = ground (arith, lookup-insert key key c (delete (k.heap c).key k.buckets));
        balance = ground arith;
        same_keys = refl;
      }

  evicted :
      (c : ℕ)
      → lookup key k.buckets ≡ none
      → back k.lru ≡ some c
      → IsAcquired k key (full_bucket k now) (add_bucket (evict k c) now key) k.next
  evicted c new last =
      let here = back-listed k.lru c last in
      let at_c = v.unlink c here in
      record {
        linked =
            add-Linked (evict k c) (evict-Linked k v c here) now key
              (ground (arith, new, lookup-delete (k.heap c).key key k.buckets))
              (ground (arith, v.room, size-delete (k.heap c).key c k.buckets v.distinct at_c));
        at_key = ground (arith, lookup-insert key key k.next (delete (k.heap c).key k.buckets));
        balance = ground arith;
        same_keys = refl;
      }

  abbrev pub Acquires : Bucket → Type 0
  Acquires b =
      (k1 : KeyedLimiter) × (p : ℕ) × (acquire k now key ≡ some (k1, p)) × IsAcquired k key b k1 p

  acquire_full :
      (b : Bucket)
      → lookup key k.buckets ≡ none
      → leb k.max_keys (size k.buckets) ≡ true
      → owed k now key ≡ some b
      → Acquires b
  unfolding acquire owed
  acquire_full b new full e = elim (Option-cases (back k.lru)) [
    | inl f ↦ absurd (ground (arith, new, full, f, e))
    | inr (c, f) ↦ elim (Bool-cases (ltb now ((k.heap c).last_seen + k.idle_expiry))) [
      | inl active ↦
          let what : as_bucket k c ≡ b = ground (arith, new, full, f, active, e) in
          subst Acquires what
            (rebind k c key, c, ground (arith, new, full, f, active), inherited c new f)
      | inr idle ↦
          let what : full_bucket k now ≡ b = ground (arith, new, full, f, idle, e) in
          subst Acquires what (
            add_bucket (evict k c) now key,
            k.next,
            ground (arith, new, full, f, idle),
            evicted c new f,
          )
    ]
  ]

  pub acquire_owed : (b : Bucket) → owed k now key ≡ some b → Acquires b
  unfolding acquire owed
  acquire_owed b e = elim (Option-cases (lookup key k.buckets)) [
    | inr (p, f) ↦
        let what : as_bucket k p ≡ b = ground (arith, f, e) in
        subst Acquires what
          (record k { lru = move_to_front p k.lru }, p, ground (arith, f), known p f)
    | inl new ↦ elim (Bool-cases (leb k.max_keys (size k.buckets))) [
      | inl full ↦ acquire_full b new full e
      | inr room ↦
          let what : full_bucket k now ≡ b = ground (arith, new, room, e) in
          subst Acquires what (
            add_bucket k now key,
            k.next,
            ground (arith, new, room),
            added new (ground (arith, room)),
          )
    ]
  ]

-- Spending from the bucket of the key is spending from a Bucket.
pub take-Bucket :
    (k : KeyedLimiter) (p now n : ℕ)
    → ((take_tokens k p now n).1 ≡ (allow_n (as_bucket k p) now n).1)
      × (as_bucket (take_tokens k p now n).0 p ≡ (allow_n (as_bucket k p) now n).0)
unfolding take_tokens refill_keyed allow_n refill
take-Bucket k p now n = (ground arith, ground arith)
