-- ===== src/Base/Dict.antt =====
-- A Go map with opaque keys, as an association list. A key is a number that stands for a text
-- which the program only compares; 0 stands for the empty text.
use remote_assist_tool.Base.{
  ℕ, suc, ◌+◌, ◌-◌, ◌≤◌, leb, Bool-cases, inl, inr, ◌≡◌, refl, Bool, true, false, List, [], ◌∷◌,
  Option, none, some, arith, ◌==◌, if◌then◌else◌,
}

abbrev pub Dict {ℓ} : Type ℓ → Type ℓ
Dict V = List (ℕ × V)

abbrev pub b2n : Bool → ℕ
b2n true = 1
b2n false = 0

module _ {ℓ} {V : Type ℓ} where
  unfoldable pub lookup : ℕ → Dict V → Option V
  lookup k [] = none
  lookup k ((j, v) ∷ t) = if j == k then some v else lookup k t

  unfoldable pub insert : ℕ → V → Dict V → Dict V
  insert k v [] = (k, v) ∷ []
  insert k v ((j, w) ∷ t) = if j == k then (k, v) ∷ t else (j, w) ∷ insert k v t

  unfoldable pub delete : ℕ → Dict V → Dict V
  delete k [] = []
  delete k ((j, w) ∷ t) = if j == k then delete k t else (j, w) ∷ delete k t

  unfoldable pub size : Dict V → ℕ
  size [] = 0
  size (e ∷ t) = suc (size t)

  unfoldable pub count_if : (V → Bool) → Dict V → ℕ
  count_if p [] = 0
  count_if p ((j, w) ∷ t) = b2n (p w) + count_if p t

  -- No key stands twice.
  abbrev pub Distinct : Dict V → Type ℓ
  Distinct [] = Unit
  Distinct ((j, w) ∷ t) = (lookup j t ≡ none) × Distinct t

  pub lookup-insert :
      (k j : ℕ) (v : V) (t : Dict V)
      → lookup j (insert k v t) ≡ (if k == j then some v else lookup j t)
  unfolding lookup insert
  lookup-insert k j v [] = refl
  lookup-insert k j v ((i, w) ∷ t) = ground (arith, lookup-insert k j v t)

  pub lookup-insert_self : (k : ℕ) (v : V) (t : Dict V) → lookup k (insert k v t) ≡ some v
  lookup-insert_self k v t = ground (arith, lookup-insert k k v t)

  pub lookup-delete :
      (k j : ℕ) (t : Dict V) → lookup j (delete k t) ≡ (if k == j then none else lookup j t)
  unfolding lookup delete
  lookup-delete k j [] = ground arith
  lookup-delete k j ((i, w) ∷ t) = ground (arith, lookup-delete k j t)

  pub insert-Distinct : (k : ℕ) (v : V) (t : Dict V) → Distinct t → Distinct (insert k v t)
  unfolding lookup insert
  insert-Distinct k v [] d = (refl, tt)
  insert-Distinct k v ((i, w) ∷ t) d =
      ground (arith, insert-Distinct k v t d.1, lookup-insert k i v t)

  pub delete-Distinct : (k : ℕ) (t : Dict V) → Distinct t → Distinct (delete k t)
  unfolding lookup delete
  delete-Distinct k [] d = tt
  delete-Distinct k ((i, w) ∷ t) d = ground (arith, delete-Distinct k t d.1, lookup-delete k i t)

  pub size-insert_le : (k : ℕ) (v : V) (t : Dict V) → size (insert k v t) ≤ size t + 1
  unfolding insert size
  size-insert_le k v [] = omega arith
  size-insert_le k v ((i, w) ∷ t) = ground (arith, size-insert_le k v t)

  pub size-insert_new :
      (k : ℕ) (v : V) (t : Dict V) → lookup k t ≡ none → size (insert k v t) ≡ size t + 1
  unfolding lookup insert size
  size-insert_new k v [] h = omega arith
  size-insert_new k v ((i, w) ∷ t) h = ground (arith, size-insert_new k v t)

  pub size-delete_le : (k : ℕ) (t : Dict V) → size (delete k t) ≤ size t
  unfolding delete size
  size-delete_le k [] = omega arith
  size-delete_le k ((i, w) ∷ t) = ground (arith, size-delete_le k t)

  pub delete_absent : (k : ℕ) (t : Dict V) → lookup k t ≡ none → delete k t ≡ t
  unfolding lookup delete
  delete_absent k [] h = refl
  delete_absent k ((i, w) ∷ t) h = ground (arith, delete_absent k t)

  pub size-delete :
      (k : ℕ) (v : V) (t : Dict V)
      → Distinct t
      → lookup k t ≡ some v
      → size t ≡ suc (size (delete k t))
  unfolding lookup delete size
  size-delete k v [] d h = absurd (ground arith)
  size-delete k v ((i, w) ∷ t) d h = ground (arith, size-delete k v t d.1, delete_absent k t)

  pub count_if-insert :
      (p : V → Bool) (k : ℕ) (v : V) (t : Dict V)
      → lookup k t ≡ none
      → count_if p (insert k v t) ≡ count_if p t + b2n (p v)
  unfolding lookup insert count_if
  count_if-insert p k v [] h = ground arith
  count_if-insert p k v ((i, w) ∷ t) h = ground (arith, count_if-insert p k v t)

  pub count_if-delete :
      (p : V → Bool) (k : ℕ) (v : V) (t : Dict V)
      → Distinct t
      → lookup k t ≡ some v
      → count_if p t ≡ count_if p (delete k t) + b2n (p v)
  unfolding lookup delete count_if
  count_if-delete p k v [] d h = absurd (ground arith)
  count_if-delete p k v ((i, w) ∷ t) d h =
      ground (arith, count_if-delete p k v t d.1, delete_absent k t)

  count_if_step :
      (p q : V → Bool) (i : ℕ) (w : V) (t : Dict V)
      → lookup i t ≡ none
      → ((k : ℕ) (v : V) → lookup k ((i, w) ∷ t) ≡ some v → p v ≡ q v)
      → (k : ℕ) (v : V) → lookup k t ≡ some v
      → p v ≡ q v
  unfolding lookup
  count_if_step p q i w t a h k v e = ground (arith, h k v)

  count_if_head :
      (p q : V → Bool) (i : ℕ) (w : V) (t : Dict V)
      → ((k : ℕ) (v : V) → lookup k ((i, w) ∷ t) ≡ some v → p v ≡ q v)
      → p w ≡ q w
  unfolding lookup
  count_if_head p q i w t h = h i w (ground arith)

  -- Two tests that agree on the values of the map count the same.
  pub count_if_congr :
      (p q : V → Bool) (t : Dict V)
      → Distinct t
      → ((k : ℕ) (v : V) → lookup k t ≡ some v → p v ≡ q v)
      → count_if p t ≡ count_if q t
  unfolding count_if
  count_if_congr p q [] d h = refl
  count_if_congr p q ((i, w) ∷ t) d h =
      ground
        (arith, count_if_head p q i w t h, count_if_congr p q t d.1 (count_if_step p q i w t d.0 h))

  pub count_if-le-size : (p : V → Bool) (t : Dict V) → count_if p t ≤ size t
  unfolding count_if size
  count_if-le-size p [] = omega arith
  count_if-le-size p ((i, w) ∷ t) = ground (arith, count_if-le-size p t)

  -- The value of a key that is there is replaced by one that the test does not tell from it.
  pub count_if-replace :
      (p : V → Bool) (k : ℕ) (v w : V) (t : Dict V)
      → Distinct t
      → lookup k t ≡ some v
      → p w ≡ p v
      → (count_if p (insert k w t) ≡ count_if p t) × (size (insert k w t) ≡ size t)
  unfolding lookup insert count_if size
  count_if-replace p k v w [] d h e = absurd (ground (arith, h))
  count_if-replace p k v w ((i, x) ∷ t) d h e = ground (arith, h, e, count_if-replace p k v w t d.1)

-- A map of counters: what it has for a key, and a decrement that deletes a counter at 0.
abbrev pub count_at : ℕ → Dict ℕ → ℕ
count_at k counts = elim (lookup k counts) [ none ↦ 0 | some n ↦ n ]

abbrev pub less : ℕ → Dict ℕ → Dict ℕ
less k counts =
    if leb (count_at k counts) 1 then delete k counts else insert k (count_at k counts - 1) counts

pub less-count :
    (k i : ℕ) (counts : Dict ℕ)
    → count_at i (less k counts) ≡ (if k == i then count_at k counts - 1 else count_at i counts)
less-count k i counts = elim (Bool-cases (k == i)) [
  | inl same ↦
      let here : k ≡ i = ground (arith, same) in
      ground
        (arith, same, lookup-delete k i counts, lookup-insert k i (count_at k counts - 1) counts)
  | inr apart ↦
      ground
        (arith, apart, lookup-delete k i counts, lookup-insert k i (count_at k counts - 1) counts)
]
