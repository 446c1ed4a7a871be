-- ===== src/P2p/Tunnel/Order.antt =====
-- The receiving side of internal/p2p/tunnel.go: what the reader gets, whatever the network does.
use remote_assist_tool.Base.{
  ℕ, zero, suc, ◌+◌, ◌≤◌, ◌<◌, ◌≡◌, inl, inr, refl, ap, sym, ◌∙◌, arith, none, some, ltb, ◌==◌,
  if◌then◌else◌, List, [], ◌∷◌, ◌++◌, Bool-cases, Option-cases,
}
use remote_assist_tool.Base.Dict.{
  Dict, lookup, insert, delete, size, Distinct, lookup-insert, lookup-delete, insert-Distinct,
  delete-Distinct, size-insert_new, size-delete_le, size-delete,
}
use remote_assist_tool.P2p.Tunnel.{Bytes, UdpTunnel, uint32, deliver_buffered, receive_data}

-- The payloads of the first `n` packets.
unfoldable pub first : ℕ → (ℕ → Bytes) → List Bytes
first zero f = []
first (suc n) f = first n f ++ f n ∷ []

-- The sender has not come round to a sequence number twice.
abbrev pub limit : ℕ
limit = 4294967295

-- A packet that waits is the one that was sent under its number, and that number is at least `low`.
pub record IsWaiting (f : ℕ → Bytes) (low k : ℕ) (p : Bytes) : Type 0 where
  pub genuine : p ≡ f k
  pub not_before : low ≤ k
  pub in_range : k < limit

pub record Delivered (f : ℕ → Bytes) (gap : ℕ) (t : UdpTunnel) : Type 0 where
  pub in_order : t.recv_ch ≡ first t.next_recv_seq f
  pub waiting :
      (k : ℕ) (p : Bytes) → lookup k t.recv_buf ≡ some p → IsWaiting f (t.next_recv_seq + gap) k p
  pub distinct : Distinct t.recv_buf
  pub next_le : t.next_recv_seq ≤ limit
  pub room : size t.recv_buf ≤ 1024

-- What holds between two packets: nothing that waits could be delivered.
abbrev pub IsOrdered : (ℕ → Bytes) → UdpTunnel → Type 0
IsOrdered f t = Delivered f 1 t

first_next :
    (f : ℕ → Bytes) (n : ℕ) (ch : List Bytes) (p : Bytes)
    → ch ≡ first n f
    → p ≡ f n
    → n < limit
    → ch ++ p ∷ [] ≡ first (uint32 (n + 1)) f
unfolding first
first_next f n ch p e g h =
    let up : uint32 (n + 1) ≡ suc n = ground (arith, h) in
    ap (λ c. c ++ p ∷ []) e ∙ ap (λ q. first n f ++ q ∷ []) g ∙ ap (λ m. first m f) (sym up)

pub Delivered-next :
    (f : ℕ → Bytes) (t : UdpTunnel) (p : Bytes)
    → Delivered f 0 t
    → lookup t.next_recv_seq t.recv_buf ≡ some p
    → Delivered f 0 (record t {
      recv_ch = t.recv_ch ++ p ∷ [];
      recv_buf = delete t.next_recv_seq t.recv_buf;
      next_recv_seq = uint32 (t.next_recv_seq + 1);
    })
Delivered-next f t p d h =
    let w = d.waiting t.next_recv_seq p h in
    let up : uint32 (t.next_recv_seq + 1) ≡ suc t.next_recv_seq = ground (arith, w.in_range) in
    record {
      in_order = first_next f t.next_recv_seq t.recv_ch p d.in_order w.genuine w.in_range;
      waiting = λ k q g.
          let x : lookup k t.recv_buf ≡ some q =
            ground (arith, g, lookup-delete t.next_recv_seq k t.recv_buf) in
          let y = d.waiting k q x in
          record {
            genuine = y.genuine;
            not_before =
                ground (arith, y.not_before, up, g, lookup-delete t.next_recv_seq k t.recv_buf);
            in_range = y.in_range;
          };
      distinct = delete-Distinct t.next_recv_seq t.recv_buf d.distinct;
      next_le = ground (arith, w.in_range);
      room = ground (arith, d.room, size-delete_le t.next_recv_seq t.recv_buf);
    }

pub tighten :
    (f : ℕ → Bytes) (t : UdpTunnel)
    → lookup t.next_recv_seq t.recv_buf ≡ none
    → Delivered f 0 t
    → IsOrdered f t
tighten f t e d = record {
  in_order = d.in_order;
  distinct = d.distinct;
  next_le = d.next_le;
  room = d.room;
  waiting = λ k p h.
      let w = d.waiting k p h in
      record {
        genuine = w.genuine;
        not_before = elim (Bool-cases (k == t.next_recv_seq)) [
          | inl same ↦
              let here : k ≡ t.next_recv_seq = ground (arith, same) in
              absurd (ground (arith, sym (ap (λ x. lookup x t.recv_buf) here) ∙ h, e))
          | inr apart ↦ ground (arith, apart, w.not_before)
        ];
        in_range = w.in_range;
      };
}

lookup-empty : (k : ℕ) (d : Dict Bytes) → size d ≤ 0 → lookup k d ≡ none
unfolding lookup size
lookup-empty k [] h = refl
lookup-empty k ((i, p) ∷ d) h = absurd (ground (arith, h))

-- The loop stops because nothing that waits is next, and not for want of fuel.
deliver-IsOrdered :
    (f : ℕ → Bytes) (fuel : ℕ) (t : UdpTunnel)
    → size t.recv_buf ≤ fuel
    → Delivered f 0 t
    → IsOrdered f (deliver_buffered fuel t)
unfolding deliver_buffered lookup size
deliver-IsOrdered f zero t h d = tighten f t (lookup-empty t.next_recv_seq t.recv_buf h) d
deliver-IsOrdered f (suc fuel) t h d = elim (Option-cases (lookup t.next_recv_seq t.recv_buf)) [
  | inl e ↦ rw (e, deliver_buffered) (tighten f t e d)
  | inr (p, e) ↦
      rw (e, deliver_buffered)
        (deliver-IsOrdered f fuel _
          (ground (arith, h, size-delete t.next_recv_seq p t.recv_buf d.distinct e))
          (Delivered-next f t p d e))
]

pub arrived_next :
    (f : ℕ → Bytes) (t : UdpTunnel) (p : Bytes)
    → IsOrdered f t
    → p ≡ f t.next_recv_seq
    → t.next_recv_seq < limit
    → Delivered f 0
        (record t { recv_ch = t.recv_ch ++ p ∷ []; next_recv_seq = uint32 (t.next_recv_seq + 1) })
arrived_next f t p d e h = record {
  in_order = first_next f t.next_recv_seq t.recv_ch p d.in_order e h;
  waiting = λ k q g.
      let w = d.waiting k q g in
      record {
        genuine = w.genuine;
        not_before = ground (arith, w.not_before, h);
        in_range = w.in_range;
      };
  distinct = d.distinct;
  next_le = ground (arith, h);
  room = d.room;
}

buffered :
    (f : ℕ → Bytes) (t : UdpTunnel) (seq : ℕ)
    → IsOrdered f t
    → seq < limit
    → t.next_recv_seq < seq
    → lookup seq t.recv_buf ≡ none
    → size t.recv_buf < 1024
    → IsOrdered f (record t { recv_buf = insert seq (f seq) t.recv_buf })
buffered f t seq d s h new room = record {
  in_order = d.in_order;
  next_le = d.next_le;
  waiting = λ k p g.
      let table = lookup-insert seq k (f seq) t.recv_buf in
      elim (Bool-cases (seq == k)) [
        | inl same ↦
            let here : seq ≡ k = ground (arith, same) in
            let what : f seq ≡ p = ground (arith, table, same, g) in
            record {
              genuine = sym what ∙ ap f here;
              not_before = ground (arith, here, h);
              in_range = ground (arith, here, s);
            }
        | inr apart ↦ d.waiting k p (ground (arith, table, apart, g))
      ];
  distinct = insert-Distinct seq (f seq) t.recv_buf d.distinct;
  room = ground (arith, room, size-insert_new seq (f seq) t.recv_buf);
}

stored :
    (f : ℕ → Bytes) (t : UdpTunnel) (seq : ℕ)
    → IsOrdered f t
    → seq < limit
    → t.next_recv_seq < seq
    → IsOrdered f (elim (lookup seq t.recv_buf) [
      | some p ↦ t
      | none ↦
          if ltb (size t.recv_buf) 1024
          then record t { recv_buf = insert seq (f seq) t.recv_buf }
          else t
    ])
stored f t seq d s h = elim (Option-cases (lookup seq t.recv_buf)) [
  | inr (p, e) ↦ rw e d
  | inl new ↦ elim (Bool-cases (ltb (size t.recv_buf) 1024)) [
    | inr full ↦ rw new (rw full d)
    | inl room ↦ rw new (rw room (buffered f t seq d s h new (ground (arith, room))))
  ]
]

pub receive_data-IsOrdered :
    (f : ℕ → Bytes) (t : UdpTunnel) (seq : ℕ)
    → IsOrdered f t
    → seq < limit
    → IsOrdered f (receive_data t seq (f seq))
unfolding receive_data
receive_data-IsOrdered f t seq d s = elim (Bool-cases (seq == t.next_recv_seq)) [
  | inl same ↦
      let here : seq ≡ t.next_recv_seq = ground (arith, same) in
      rw (same, receive_data)
        (deliver-IsOrdered f (size t.recv_buf) _ (ground arith)
          (arrived_next f t (f seq) d (ap f here) (ground (arith, here, s))))
  | inr apart ↦ elim (Bool-cases (ltb t.next_recv_seq seq)) [
    | inr old ↦ rw (apart, receive_data) (rw old d)
    | inl later ↦ rw (apart, receive_data) (rw later (stored f t seq d s (ground (arith, later))))
  ]
]
