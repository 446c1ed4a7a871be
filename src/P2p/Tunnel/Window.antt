-- ===== src/P2p/Tunnel/Window.antt =====
-- The sending side of internal/p2p/tunnel.go: the window of Write and the retransmission.
use remote_assist_tool.Base.{
  ℕ, zero, suc, ◌+◌, ◌≤◌, ◌≡◌, inl, inr, ap, Bool-cases, Option-cases, arith, none, some, List, [],
  ◌∷◌, refl, true, ◌==◌, if◌then◌else◌, ◌++◌,
}
use remote_assist_tool.Base.Dict.{Dict, lookup, size, size-delete_le, size-insert_le}
use remote_assist_tool.P2p.Tunnel.{
  Bytes, UdpTunnel, PendingPacket, Packet, keepalive, ack, data_, other, Written, sent, blocked,
  eof, write_chunk, put_uint32, new_udp_tunnel, receive, receive_ack, receive_data,
  deliver_buffered, rto, retransmit,
}

-- What happens on the sending side.
pub data Event : Type 0 where
  write : ℕ → Bytes → Event
  arrive : ℕ → Packet → Event
  tick : ℕ → Event
  close : Event

abbrev pub tunnel_after : UdpTunnel → Written → UdpTunnel
tunnel_after t (sent u pkt) = u
tunnel_after t blocked = t
tunnel_after t eof = t

unfoldable pub happen : UdpTunnel → Event → UdpTunnel
happen t (write now chunk) = tunnel_after t (write_chunk t now chunk)
happen t (arrive now p) = (receive t now p).0
happen t (tick now) = record t { send_win = (retransmit now t.send_win).0 }
happen t close = record t { send_closed = true }

unfoldable pub happen_all : UdpTunnel → List Event → UdpTunnel
happen_all t [] = t
happen_all t (e ∷ es) = happen_all (happen t e) es

retransmit-size : (now : ℕ) (w : Dict PendingPacket) → size (retransmit now w).0 ≡ size w
unfolding retransmit size
retransmit-size now [] = refl
retransmit-size now ((seq, pkt) ∷ rest) = ground (arith, retransmit-size now rest)

deliver-send_win : (fuel : ℕ) (t : UdpTunnel) → (deliver_buffered fuel t).send_win ≡ t.send_win
unfolding deliver_buffered
deliver-send_win zero t = refl
deliver-send_win (suc fuel) t = elim (Option-cases (lookup t.next_recv_seq t.recv_buf)) [
  | inl e ↦ rw (e, deliver_buffered) refl
  | inr (p, e) ↦ rw (e, deliver_buffered) (deliver-send_win fuel _)
]

data-send_win : (t : UdpTunnel) (seq : ℕ) (p : Bytes) → (receive_data t seq p).send_win ≡ t.send_win
unfolding receive_data
data-send_win t seq p = elim (Bool-cases (seq == t.next_recv_seq)) [
  | inl same ↦ rw (same, receive_data) (deliver-send_win (size t.recv_buf) _)
  | inr apart ↦ ground (arith, apart)
]

receive-size :
    (t : UdpTunnel) (now : ℕ) (p : Packet) → size (receive t now p).0.send_win ≤ size t.send_win
unfolding receive receive_ack
receive-size t now keepalive = ground arith
receive-size t now other = ground arith
receive-size t now (ack seq) = size-delete_le seq t.send_win
receive-size t now (data_ seq none) = ground arith
receive-size t now (data_ seq (some p)) =
    ground (arith, ap size (data-send_win (record t { last_recv_time = now }) seq p))

happen-size : (t : UdpTunnel) (e : Event) → size t.send_win ≤ 256 → size (happen t e).send_win ≤ 256
unfolding happen write_chunk
happen-size t (write now chunk) h =
    let pkt = 1 ∷ (put_uint32 t.next_send_seq ++ chunk) in
    ground (
      arith,
      h,
      size-insert_le t.next_send_seq (record { packet = pkt; sent_at = now; retries = 0 })
          t.send_win,
    )
happen-size t (arrive now p) h = ground (arith, h, receive-size t now p)
happen-size t (tick now) h = ground (arith, h, retransmit-size now t.send_win)
happen-size t close h = h

happen_all-size :
    (t : UdpTunnel) (es : List Event)
    → size t.send_win ≤ 256
    → size (happen_all t es).send_win ≤ 256
unfolding happen_all
happen_all-size t [] h = h
happen_all-size t (e ∷ es) h = happen_all-size (happen t e) es (happen-size t e h)

-- At most 256 packets wait for their ACK, whatever is written, received or sent again.
pub inflight_le :
    (now : ℕ) (es : List Event) → size (happen_all (new_udp_tunnel now) es).send_win ≤ 256
unfolding new_udp_tunnel size
inflight_le now es = happen_all-size (new_udp_tunnel now) es (ground arith)

rto_cases :
    (n : ℕ)
    → rto n ≡ (
        if n == 0
        then 200
        else if n == 1
        then 400
        else if n == 2
        then 800
        else if n == 3
        then 1600
        else 2000)
unfolding rto
rto_cases zero = refl
rto_cases (suc zero) = refl
rto_cases (suc (suc zero)) = refl
rto_cases (suc (suc (suc zero))) = refl
rto_cases (suc (suc (suc (suc zero)))) = refl
rto_cases (suc (suc (suc (suc (suc n))))) = ground arith

-- The time before a packet is sent again starts at 200 ms, grows with the attempts and never
-- exceeds 2 s, so that the shift cannot overflow.
rto_bounds : (n m : ℕ) → (200 ≤ rto n) × (rto n ≤ 2000) × (rto n ≤ rto (n + m))
rto_bounds n m = ground (arith, rto_cases n, rto_cases (n + m))
