-- ===== src/P2p/Tunnel/Complete.antt =====
-- Runs of the receiving side of internal/p2p/tunnel.go in which the sender keeps within the window.
use remote_assist_tool.Base.{
  ℕ, zero, suc, ◌+◌, ◌≤◌, ◌<◌, ◌≡◌, ◌⊎◌, inl, inr, refl, ap, ◌∙◌, sym, subst, arith, Bool, true,
  false, ◌||◌, none, some, ltb, ◌==◌, List, [], ◌∷◌, ◌++◌, take, length, length-append, leb,
  Bool-cases, Option-cases,
}
use remote_assist_tool.Base.Dict.{Dict, lookup, delete}
use remote_assist_tool.P2p.Tunnel.{
  Bytes, UdpTunnel, PendingPacket, new_udp_tunnel, receive_data, receive_ack, receive, Packet,
  keepalive, ack, data_, other,
}
use remote_assist_tool.P2p.Tunnel.Order.{IsOrdered, first}
use remote_assist_tool.P2p.Tunnel.Runs.{
  IsGenuine, AllGenuine, receive_all, receive-IsOrdered, receive_all-IsOrdered,
  receive_all_in_order, new-IsOrdered, touched,
}
use remote_assist_tool.P2p.Tunnel.Lossless.{held, Near, Keeps, receive_data-Kept}

-- A data packet is at most 1024 ahead of the next one when it arrives.
unfoldable pub IsClose : UdpTunnel → Packet → Type 0
IsClose t (data_ seq (some p)) = seq ≤ t.next_recv_seq + 1024
IsClose t (data_ seq none) = Unit
IsClose t keepalive = Unit
IsClose t (ack seq) = Unit
IsClose t other = Unit

unfoldable pub AllClose : UdpTunnel → List (ℕ × Packet) → Type 0
AllClose t [] = Unit
AllClose t ((now, p) ∷ packets) = IsClose t p × AllClose (receive t now p).0 packets

abbrev pub carries : Packet → ℕ → Bool
carries (data_ seq (some p)) k = seq == k
carries (data_ seq none) k = false
carries keepalive k = false
carries (ack seq) k = false
carries other k = false

-- A packet with this number and a payload has arrived.
unfoldable pub arrived : List (ℕ × Packet) → ℕ → Bool
arrived [] k = false
arrived ((now, p) ∷ packets) k = carries p k || arrived packets k

-- What a step keeps, and the packet that it brings.
abbrev Step : UdpTunnel → Packet → UdpTunnel → Type 0
Step t p u = Keeps t u × ((k : ℕ) → (carries p k ≡ false) ⊎ (held u k ≡ true))

idle-Step :
    (t : UdpTunnel) (now : ℕ) (win : Dict PendingPacket)
    → Near t
    → Keeps t (record t { last_recv_time = now; send_win = win })
unfolding held
idle-Step t now win near = record { keeps = λ k h. h; near = near }

receive-Step :
    (f : ℕ → Bytes) (t : UdpTunnel) (now : ℕ) (p : Packet)
    → IsGenuine f p
    → IsClose t p
    → IsOrdered f t
    → Near t
    → Step t p (receive t now p).0
unfolding receive receive_ack IsGenuine IsClose held
receive-Step f t now keepalive g c d near = (idle-Step t now t.send_win near, λ k. inl refl)
receive-Step f t now other g c d near = (idle-Step t now t.send_win near, λ k. inl refl)
receive-Step f t now (ack seq) g c d near =
    (idle-Step t now (delete seq t.send_win) near, λ k. inl refl)
receive-Step f t now (data_ seq none) g c d near = (idle-Step t now t.send_win near, λ k. inl refl)
receive-Step f t now (data_ seq (some p)) g c d near =
    let u : UdpTunnel = record t { last_recv_time = now } in
    let (a, h) = receive_data-Kept f u seq (touched f t now t.send_win d) near g.1 c in
    subst (λ q. Step t (data_ seq (some q)) (receive_data u seq q)) (sym g.0)
      (
        record { keeps = a.keeps; near = a.near },
        λ k. elim (Bool-cases (seq == k)) [
          | inr apart ↦ inl apart
          | inl same ↦
              let here : seq ≡ k = ground (arith, same) in
              inr (subst (λ j. held (receive_data u seq (f seq)) j ≡ true) here h)
        ],
      )

receive_all-held :
    (f : ℕ → Bytes) (t : UdpTunnel) (packets : List (ℕ × Packet)) (k : ℕ)
    → AllGenuine f packets
    → AllClose t packets
    → IsOrdered f t
    → Near t
    → (arrived packets k ≡ true) ⊎ (held t k ≡ true)
    → held (receive_all t packets) k ≡ true
unfolding receive_all AllGenuine AllClose arrived
receive_all-held f t [] k g c d near h = ground (arith, h)
receive_all-held f t ((now, p) ∷ packets) k g c d near h =
    let (a, b) = receive-Step f t now p g.0 c.0 d near in
    receive_all-held f (receive t now p).0 packets k g.1 c.1 (receive-IsOrdered f t now p g.0 d)
      a.near (ground (arith, h, b k, a.keeps k))

new-Near : (now : ℕ) → Near (new_udp_tunnel now)
unfolding new_udp_tunnel lookup
new-Near now k p e = absurd (ground (arith, e))

next_recv_seq_reaches :
    (f : ℕ → Bytes) (now n : ℕ) (packets : List (ℕ × Packet))
    → AllGenuine f packets
    → AllClose (new_udp_tunnel now) packets
    → ((k : ℕ) → k < n → arrived packets k ≡ true)
    → n ≤ (receive_all (new_udp_tunnel now) packets).next_recv_seq
unfolding held
next_recv_seq_reaches f now n packets g c all =
    let t = receive_all (new_udp_tunnel now) packets in
    let d = receive_all-IsOrdered f (new_udp_tunnel now) packets g (new-IsOrdered f now) in
    elim (Bool-cases (ltb t.next_recv_seq n)) [
      | inr done ↦ ground (arith, done)
      | inl short ↦
          let here =
            receive_all-held f (new_udp_tunnel now) packets t.next_recv_seq g c
              (new-IsOrdered f now) (new-Near now)
              (inl (all t.next_recv_seq (ground (arith, short)))) in
          elim (Option-cases (lookup t.next_recv_seq t.recv_buf)) [
            | inl e ↦ absurd (ground (arith, here, e))
            | inr (p, e) ↦ absurd (ground (arith, (d.waiting t.next_recv_seq p e).not_before))
          ]
    ]

length-first : (f : ℕ → Bytes) (m : ℕ) → length (first m f) ≡ m
unfolding first
length-first f zero = refl
length-first f (suc m) = length-append (first m f) (f m ∷ []) ∙ ground (arith, length-first f m)

take_whole : (xs : List Bytes) → take (length xs) xs ≡ xs
take_whole [] = refl
take_whole (x ∷ xs) = ap (λ t. x ∷ t) (take_whole xs)

take_front : (n : ℕ) (xs ys : List Bytes) → n ≤ length xs → take n (xs ++ ys) ≡ take n xs
take_front zero xs ys h = refl
take_front (suc n) [] ys h = absurd (ground (arith, h))
take_front (suc n) (x ∷ xs) ys h = ap (λ t. x ∷ t) (take_front n xs ys (ground (arith, h)))

-- The first of more are the first.
take-first : (f : ℕ → Bytes) (n m : ℕ) → n ≤ m → take n (first m f) ≡ first n f
unfolding first
take-first f n zero h = let none_left : n ≡ 0 = ground (arith, h) in rw none_left refl
take-first f n (suc m) h = elim (Bool-cases (leb n m)) [
  | inl less ↦
      take_front n (first m f) (f m ∷ []) (ground (arith, less, length-first f m))
      ∙ take-first f n m (ground (arith, less))
  | inr equal ↦
      let all : n ≡ suc m = ground (arith, h, equal) in
      subst (λ j. take j (first (suc m) f) ≡ first j f) (sym all)
        (subst (λ j. take j (first (suc m) f) ≡ first (suc m) f) (length-first f (suc m))
          (take_whole (first (suc m) f)))
]

-- If every data packet that arrives is at most 1024 ahead of the next one, and every one of the first
-- `n` packets has arrived at some time, in whatever order and however often, then the reader has been
-- given the first `n` chunks that the sender wrote, in their order.
pub receive_all_complete :
    (f : ℕ → Bytes) (now n : ℕ) (packets : List (ℕ × Packet))
    → AllGenuine f packets
    → AllClose (new_udp_tunnel now) packets
    → ((k : ℕ) → k < n → arrived packets k ≡ true)
    → take n (receive_all (new_udp_tunnel now) packets).recv_ch ≡ first n f
receive_all_complete f now n packets g c all =
    let t = receive_all (new_udp_tunnel now) packets in
    ap (take n) (receive_all_in_order f now packets g).0
    ∙ take-first f n t.next_recv_seq (next_recv_seq_reaches f now n packets g c all)
