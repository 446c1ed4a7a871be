-- ===== src/P2p/Tunnel/Lossless.antt =====
-- No packet is lost at the receiving side of internal/p2p/tunnel.go while the sender keeps within the
-- window of the reorder buffer.
use remote_assist_tool.Base.{
  ℕ, zero, suc, ◌+◌, ◌≤◌, ◌<◌, ◌≡◌, inl, inr, ap, sym, subst, arith, Bool, true, false, ◌||◌,
  Option, none, some, ltb, ◌==◌, if◌then◌else◌, [], ◌∷◌, ◌++◌, Bool-cases, Option-cases,
}
use remote_assist_tool.Base.Dict.{
  Dict, lookup, insert, delete, size, Distinct, lookup-insert, lookup-delete, insert-Distinct,
  delete-Distinct, size-insert_new, size-delete, delete_absent,
}
use remote_assist_tool.P2p.Tunnel.{Bytes, UdpTunnel, uint32, deliver_buffered, receive_data}
use remote_assist_tool.P2p.Tunnel.Order.{Delivered, IsOrdered, limit, Delivered-next, arrived_next}

size-delete_ge : (k : ℕ) (d : Dict Bytes) → Distinct d → size d ≤ suc (size (delete k d))
size-delete_ge k d x = elim (Option-cases (lookup k d)) [
  | inl e ↦ ground (arith, ap size (delete_absent k d e))
  | inr (p, e) ↦ ground (arith, size-delete k p d x e)
]

-- A map with keys between `low` and `low + n` has at most `n` of them.
pigeonhole :
    (n low : ℕ) (d : Dict Bytes)
    → Distinct d
    → ((k : ℕ) (p : Bytes) → lookup k d ≡ some p → (low < k) × (k ≤ low + n))
    → size d ≤ n
unfolding lookup size
pigeonhole zero low [] x h = ground arith
pigeonhole zero low ((i, p) ∷ d) x h = absurd (ground (arith, h i p (ground arith)))
pigeonhole (suc n) low d x h =
    let rest =
      pigeonhole n low (delete (low + suc n) d) (delete-Distinct (low + suc n) d x) (λ k p e.
        let table = lookup-delete (low + suc n) k d in
        let old = h k p (ground (arith, table, e)) in ground (arith, table, e, old)) in
    ground (arith, rest, size-delete_ge (low + suc n) d x)

abbrev is_some : Option Bytes → Bool
is_some none = false
is_some (some p) = true

-- The packet has been delivered, or waits.
unfoldable pub held : UdpTunnel → ℕ → Bool
held t k = ltb k t.next_recv_seq || is_some (lookup k t.recv_buf)

-- Nothing waits beyond the window.
abbrev pub Near : UdpTunnel → Type 0
Near t = (k : ℕ) (p : Bytes) → lookup k t.recv_buf ≡ some p → k ≤ t.next_recv_seq + 1024

-- What a change of the receiving side has to keep.
pub record Keeps (t u : UdpTunnel) : Type 0 where
  pub keeps : (k : ℕ) → held t k ≡ true → held u k ≡ true
  pub near : Near u

Keeps-trans : (t u w : UdpTunnel) → Keeps t u → Keeps u w → Keeps t w
Keeps-trans t u w a b = record { keeps = λ k h. b.keeps k (a.keeps k h); near = b.near }

-- The next packet has been delivered, from the buffer or straight from the network.
abbrev advanced : UdpTunnel → Bytes → Dict Bytes → UdpTunnel
advanced t p buf = record t {
  recv_ch = t.recv_ch ++ p ∷ [];
  recv_buf = buf;
  next_recv_seq = uint32 (t.next_recv_seq + 1);
}

from_buffer :
    (t : UdpTunnel) (p : Bytes)
    → t.next_recv_seq < limit
    → Near t
    → Keeps t (advanced t p (delete t.next_recv_seq t.recv_buf))
unfolding held
from_buffer t p low near = record {
  keeps = λ k h. ground (arith, h, low, lookup-delete t.next_recv_seq k t.recv_buf);
  near = λ k q e. ground (arith, e, low, near k q, lookup-delete t.next_recv_seq k t.recv_buf);
}

from_network :
    (t : UdpTunnel) (p : Bytes)
    → t.next_recv_seq < limit
    → Near t
    → Keeps t (advanced t p t.recv_buf) × (held (advanced t p t.recv_buf) t.next_recv_seq ≡ true)
unfolding held
from_network t p low near = (
  record {
    keeps = λ k h. ground (arith, h, low);
    near = λ k q e. ground (arith, e, low, near k q);
  },
  ground (arith, low),
)

deliver-Keeps :
    (f : ℕ → Bytes) (fuel : ℕ) (t : UdpTunnel)
    → Delivered f 0 t
    → Near t
    → Keeps t (deliver_buffered fuel t)
unfolding deliver_buffered
deliver-Keeps f zero t d near = record { keeps = λ k h. h; near = near }
deliver-Keeps f (suc fuel) t d near = elim (Option-cases (lookup t.next_recv_seq t.recv_buf)) [
  | inl e ↦ rw (e, deliver_buffered) (record { keeps = λ k h. h; near = near })
  | inr (p, e) ↦
      let w = d.waiting t.next_recv_seq p e in
      let next = from_buffer t p w.in_range near in
      rw (e, deliver_buffered)
        (Keeps-trans t (advanced t p (delete t.next_recv_seq t.recv_buf)) _ next (
          deliver-Keeps f fuel (advanced t p (delete t.next_recv_seq t.recv_buf))
            (Delivered-next f t p d e) next.near))
]

module _ (f : ℕ → Bytes) (t : UdpTunnel) (seq : ℕ) (d : IsOrdered f t) (near : Near t)
    (low : seq < limit) (close : seq ≤ t.next_recv_seq + 1024) where
  inserted :
      (k : ℕ) (p : Bytes)
      → t.next_recv_seq < seq
      → lookup k (insert seq (f seq) t.recv_buf) ≡ some p
      → (t.next_recv_seq < k) × (k ≤ t.next_recv_seq + 1024)
  inserted k p later e = elim (Bool-cases (seq == k)) [
    | inl same ↦ ground (arith, same, later, close)
    | inr apart ↦
        let old : lookup k t.recv_buf ≡ some p =
          ground (arith, e, apart, lookup-insert seq k (f seq) t.recv_buf) in
        (ground (arith, (d.waiting k p old).not_before), near k p old)
  ]

  -- The buffer has room for a packet of the window that is not in it.
  has_room : t.next_recv_seq < seq → lookup seq t.recv_buf ≡ none → size t.recv_buf < 1024
  has_room later new =
      let within =
        pigeonhole 1024 t.next_recv_seq (insert seq (f seq) t.recv_buf)
          (insert-Distinct seq (f seq) t.recv_buf d.distinct) (λ k p e. inserted k p later e) in
      ground (arith, within, size-insert_new seq (f seq) t.recv_buf new)

  -- A packet that arrives is delivered or waits, and so do all that did before.
  abbrev pub Kept : UdpTunnel → Type 0
  Kept u = Keeps t u × (held u seq ≡ true)

  Kept-insert : t.next_recv_seq < seq → Kept (record t { recv_buf = insert seq (f seq) t.recv_buf })
  unfolding held
  Kept-insert later = (
    record {
      keeps = λ k h. ground (arith, h, lookup-insert seq k (f seq) t.recv_buf);
      near = λ k p e. (inserted k p later e).1;
    },
    ground (arith, lookup-insert seq seq (f seq) t.recv_buf),
  )

  Kept-later :
      t.next_recv_seq < seq
      → Kept (elim (lookup seq t.recv_buf) [
        | some p ↦ t
        | none ↦
            if ltb (size t.recv_buf) 1024
            then record t { recv_buf = insert seq (f seq) t.recv_buf }
            else t
      ])
  unfolding held
  Kept-later later = elim (Option-cases (lookup seq t.recv_buf)) [
    | inr (p, e) ↦ rw e (record { keeps = λ k h. h; near = near }, ground (arith, e))
    | inl new ↦
        let room : ltb (size t.recv_buf) 1024 ≡ true = ground (arith, has_room later new) in
        rw new (rw room (Kept-insert later))
  ]

  pub receive_data-Kept : Kept (receive_data t seq (f seq))
  unfolding receive_data held
  receive_data-Kept = elim (Bool-cases (seq == t.next_recv_seq)) [
    | inl same ↦
        let here : seq ≡ t.next_recv_seq = ground (arith, same) in
        let (a, h) = from_network t (f seq) (ground (arith, here, low)) near in
        let u = advanced t (f seq) t.recv_buf in
        let b : Keeps u (deliver_buffered (size t.recv_buf) u) =
          deliver-Keeps f (size t.recv_buf) u
            (arrived_next f t (f seq) d (ap f here) (ground (arith, here, low))) a.near in
        rw (same, receive_data)
          (Keeps-trans t u _ a b, b.keeps seq (subst (λ k. held u k ≡ true) (sym here) h))
    | inr apart ↦ elim (Bool-cases (ltb t.next_recv_seq seq)) [
      | inr old ↦
          rw (apart, receive_data)
            (rw old (record { keeps = λ k h. h; near = near }, ground (arith, apart, old)))
      | inl later ↦ rw (apart, receive_data) (rw later (Kept-later (ground (arith, later))))
    ]
  ]
