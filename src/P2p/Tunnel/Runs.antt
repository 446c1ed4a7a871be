-- ===== src/P2p/Tunnel/Runs.antt =====
-- Sequences of packets at the receiving side of internal/p2p/tunnel.go, in whatever order, however
-- often and with whatever losses the network brings them.
use remote_assist_tool.Base.{ℕ, ◌≤◌, ◌<◌, ◌≡◌, arith, sym, subst, none, some, List, [], ◌∷◌, refl}
use remote_assist_tool.Base.Dict.{Dict, lookup, size, delete}
use remote_assist_tool.P2p.Tunnel.{
  Bytes, UdpTunnel, PendingPacket, Packet, keepalive, ack, data_, other, new_udp_tunnel, receive,
  receive_ack, receive_data,
}
use remote_assist_tool.P2p.Tunnel.Order.{IsOrdered, first, limit, receive_data-IsOrdered}

-- A data packet carries what the sender wrote under its number.
unfoldable pub IsGenuine : (ℕ → Bytes) → Packet → Type 0
IsGenuine f keepalive = Unit
IsGenuine f (ack seq) = Unit
IsGenuine f (data_ seq none) = Unit
IsGenuine f (data_ seq (some p)) = (p ≡ f seq) × (seq < limit)
IsGenuine f other = Unit

unfoldable pub AllGenuine : (ℕ → Bytes) → List (ℕ × Packet) → Type 0
AllGenuine f [] = Unit
AllGenuine f ((now, p) ∷ packets) = IsGenuine f p × AllGenuine f packets

unfoldable pub receive_all : UdpTunnel → List (ℕ × Packet) → UdpTunnel
receive_all t [] = t
receive_all t ((now, p) ∷ packets) = receive_all (receive t now p).0 packets

pub touched :
    (f : ℕ → Bytes) (t : UdpTunnel) (now : ℕ) (win : Dict PendingPacket)
    → IsOrdered f t
    → IsOrdered f (record t { last_recv_time = now; send_win = win })
touched f t now win d = record {
  in_order = d.in_order;
  waiting = d.waiting;
  distinct = d.distinct;
  next_le = d.next_le;
  room = d.room;
}

pub receive-IsOrdered :
    (f : ℕ → Bytes) (t : UdpTunnel) (now : ℕ) (p : Packet)
    → IsGenuine f p
    → IsOrdered f t
    → IsOrdered f (receive t now p).0
unfolding receive IsGenuine receive_ack
receive-IsOrdered f t now keepalive g d = touched f t now t.send_win d
receive-IsOrdered f t now (ack seq) g d = touched f t now (delete seq t.send_win) d
receive-IsOrdered f t now (data_ seq none) g d = touched f t now t.send_win d
receive-IsOrdered f t now (data_ seq (some p)) g d =
    subst (λ q. IsOrdered f (receive_data (record t { last_recv_time = now }) seq q)) (sym g.0)
      (receive_data-IsOrdered f _ seq (touched f t now t.send_win d) g.1)
receive-IsOrdered f t now other g d = touched f t now t.send_win d

pub receive_all-IsOrdered :
    (f : ℕ → Bytes) (t : UdpTunnel) (packets : List (ℕ × Packet))
    → AllGenuine f packets
    → IsOrdered f t
    → IsOrdered f (receive_all t packets)
unfolding receive_all AllGenuine
receive_all-IsOrdered f t [] g d = d
receive_all-IsOrdered f t ((now, p) ∷ packets) g d =
    receive_all-IsOrdered f (receive t now p).0 packets g.1 (receive-IsOrdered f t now p g.0 d)

pub new-IsOrdered : (f : ℕ → Bytes) (now : ℕ) → IsOrdered f (new_udp_tunnel now)
unfolding new_udp_tunnel lookup size first
new-IsOrdered f now = record {
  in_order = refl;
  waiting = λ k p h. absurd (ground (arith, h));
  distinct = tt;
  next_le = ground arith;
  room = ground arith;
}

-- However the network loses, repeats and reorders the packets, the reader gets exactly the first
-- chunks that the sender wrote, in their order, and at most 1024 packets wait behind a gap.
pub receive_all_in_order :
    (f : ℕ → Bytes) (now : ℕ) (packets : List (ℕ × Packet))
    → AllGenuine f packets
    → ((receive_all (new_udp_tunnel now) packets).recv_ch
        ≡ first (receive_all (new_udp_tunnel now) packets).next_recv_seq f)
      × (size (receive_all (new_udp_tunnel now) packets).recv_buf ≤ 1024)
receive_all_in_order f now packets g =
    let d = receive_all-IsOrdered f (new_udp_tunnel now) packets g (new-IsOrdered f now) in
    (d.in_order, d.room)
