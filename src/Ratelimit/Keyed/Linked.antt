-- ===== src/Ratelimit/Keyed/Linked.antt =====
-- The map and the list of KeyedLimiter (internal/ratelimit/ratelimit.go) hold the same buckets.
use remote_assist_tool.Base.{
  ℕ, ◌+◌, ◌≤◌, ◌<◌, ◌≡◌, refl, sym, ap, ◌∙◌, arith, Bool, true, false, not, ◌&&◌, ◌||◌, List, [],
  ◌∷◌, none, some, ◌==◌, Bool-cases, inl, inr,
}
use remote_assist_tool.Base.Dict.{
  lookup, insert, size, Distinct, lookup-insert, lookup-delete, insert-Distinct, delete-Distinct,
  size-insert_new, size-delete_le,
}
use remote_assist_tool.Ratelimit.Keyed.{
  KeyedBucket, KeyedLimiter, remove, move_to_front, back, write, add_bucket, evict,
}

unfoldable pub listed : ℕ → List ℕ → Bool
listed p [] = false
listed p (q ∷ l) = (q == p) || listed p l

pub listed-remove : (p x : ℕ) (l : List ℕ) → listed x (remove p l) ≡ (listed x l && not (x == p))
unfolding listed remove
listed-remove p x [] = refl
listed-remove p x (q ∷ l) = ground (arith, listed-remove p x l)

pub back-listed : (l : List ℕ) (c : ℕ) → back l ≡ some c → listed c l ≡ true
unfolding back listed
back-listed [] c e = absurd (ground (arith, e))
back-listed (p ∷ []) c e = ground (arith, e)
back-listed (p ∷ q ∷ l) c e = ground (arith, back-listed (q ∷ l) c e)

-- A bucket that the map has under its key, and the list too.
pub record IsLinked (k : KeyedLimiter) (i p : ℕ) : Type 0 where
  pub own_key : (k.heap p).key ≡ i
  pub in_list : listed p k.lru ≡ true
  pub allocated : p < k.next
  pub capped_ : (k.heap p).tokens ≤ k.burst

pub record Linked (k : KeyedLimiter) : Type 0 where
  pub distinct : Distinct k.buckets
  pub link : (i p : ℕ) → lookup i k.buckets ≡ some p → IsLinked k i p
  pub unlink : (p : ℕ) → listed p k.lru ≡ true → lookup (k.heap p).key k.buckets ≡ some p
  pub room : size k.buckets ≤ k.max_keys

module _ (k : KeyedLimiter) (v : Linked k) where
  pub front-Linked :
      (i p : ℕ) → lookup i k.buckets ≡ some p → Linked (record k { lru = move_to_front p k.lru })
  unfolding listed
  front-Linked i p e = record {
    distinct = v.distinct;
    link = λ j q f.
        let w = v.link j q f in
        record {
          own_key = w.own_key;
          in_list = ground (arith, w.in_list, listed-remove p q k.lru);
          allocated = w.allocated;
          capped_ = w.capped_;
        };
    unlink = λ q f.
        ground (arith, f, v.unlink q, v.unlink p, (v.link i p e).in_list, listed-remove p q k.lru);
    room = v.room;
  }

  not_new :
      (key q : ℕ)
      → lookup key k.buckets ≡ none
      → lookup (k.heap q).key k.buckets ≡ some q
      → (key == (k.heap q).key) ≡ false
  not_new key q new old = elim (Bool-cases (key == (k.heap q).key)) [
    | inr apart ↦ apart
    | inl same ↦
        let here : key ≡ (k.heap q).key = ground (arith, same) in
        absurd (ground (arith, sym (ap (λ i. lookup i k.buckets) here) ∙ new, old))
  ]

  not_listed : (q p : ℕ) → listed q k.lru ≡ true → listed p k.lru ≡ false → (q == p) ≡ false
  not_listed q p a b = elim (Bool-cases (q == p)) [
    | inr e ↦ e
    | inl e ↦
        let here : q ≡ p = ground (arith, e) in
        absurd (ground (arith, a, b, ap (λ x. listed x k.lru) here))
  ]

  same_key :
      (c q : ℕ)
      → lookup (k.heap c).key k.buckets ≡ some c
      → lookup (k.heap q).key k.buckets ≡ some q
      → (c == q) ≡ false
      → ((k.heap c).key == (k.heap q).key) ≡ false
  same_key c q a b n = elim (Bool-cases ((k.heap c).key == (k.heap q).key)) [
    | inr e ↦ e
    | inl e ↦
        let here : (k.heap c).key ≡ (k.heap q).key = ground (arith, e) in
        absurd (ground (arith, sym (ap (λ i. lookup i k.buckets) here) ∙ a, b, n))
  ]

  -- A bucket that is not in the list gets a key that is not in the map.
  pub place-Linked :
      (key p n : ℕ) (b : KeyedBucket)
      → lookup key k.buckets ≡ none
      → listed p k.lru ≡ false
      → size k.buckets < k.max_keys
      → k.next ≤ n
      → p < n
      → b.key ≡ key
      → b.tokens ≤ k.burst
      → Linked (record k {
        heap = write k.heap p b;
        next = n;
        buckets = insert key p k.buckets;
        lru = p ∷ k.lru;
      })
  unfolding listed
  place-Linked key p n b new fresh room more low own full = record {
    distinct = insert-Distinct key p k.buckets v.distinct;
    link = λ j q f.
        let table = lookup-insert key j p k.buckets in
        elim (Bool-cases (key == j)) [
          | inl same ↦
              let here : p ≡ q = ground (arith, table, same, f) in
              record {
                own_key = ground (arith, same, here, own);
                in_list = ground (arith, here);
                allocated = ground (arith, here, low);
                capped_ = ground (arith, here, full);
              }
          | inr apart ↦
              let w = v.link j q (ground (arith, table, apart, f)) in
              let other : (q == p) ≡ false = not_listed q p w.in_list fresh in
              record {
                own_key = ground (arith, w.own_key, other);
                in_list = ground (arith, w.in_list);
                allocated = ground (arith, w.allocated, more);
                capped_ = ground (arith, w.capped_, other);
              }
        ];
    unlink = λ q f. elim (Bool-cases (p == q)) [
      | inl same ↦
          let here : p ≡ q = ground (arith, same) in
          ground (
            arith,
            here,
            same,
            own,
            ap (λ i. lookup i (insert key p k.buckets)) own,
            lookup-insert key key p k.buckets,
          )
      | inr apart ↦
          let old = v.unlink q (ground (arith, apart, f)) in
          let other : (key == (k.heap q).key) ≡ false = not_new key q new old in
          ground (arith, old, apart, other, lookup-insert key (k.heap q).key p k.buckets)
    ];
    room = ground (arith, room, size-insert_new key p k.buckets new);
  }

  not_allocated : listed k.next k.lru ≡ false
  not_allocated = elim (Bool-cases (listed k.next k.lru)) [
    | inr e ↦ e
    | inl e ↦ absurd (ground (arith, (v.link _ k.next (v.unlink k.next e)).allocated))
  ]

  pub add-Linked :
      (now key : ℕ)
      → lookup key k.buckets ≡ none
      → size k.buckets < k.max_keys
      → Linked (add_bucket k now key)
  add-Linked now key new room =
      place-Linked key k.next (k.next + 1)
        (record { key = key; tokens = k.burst; last_refill = now; last_seen = now }) new
        not_allocated room (ground arith) (ground arith) refl (ground arith)

  pub evict-Linked : (c : ℕ) → listed c k.lru ≡ true → Linked (evict k c)
  evict-Linked c h =
      let at_c = v.unlink c h in
      record {
        distinct = delete-Distinct (k.heap c).key k.buckets v.distinct;
        link = λ j q f.
            let table = lookup-delete (k.heap c).key j k.buckets in
            let w = v.link j q (ground (arith, table, f)) in
            record {
              own_key = w.own_key;
              in_list = ground (
                arith,
                w.in_list,
                w.own_key,
                table,
                f,
                listed-remove c q k.lru,
                ap (λ x. (k.heap x).key),
              );
              allocated = w.allocated;
              capped_ = w.capped_;
            };
        unlink = λ q f.
            let old = v.unlink q (ground (arith, f, listed-remove c q k.lru)) in
            let other : (c == q) ≡ false = ground (arith, f, listed-remove c q k.lru) in
            ground (
              arith,
              old,
              same_key c q at_c old other,
              lookup-delete (k.heap c).key (k.heap q).key k.buckets,
            );
        room = ground (arith, v.room, size-delete_le (k.heap c).key k.buckets);
      }
