-- ===== src/P2p/Tunnel.antt =====
-- internal/p2p/tunnel.go: the reliable tunnel over UDP. The mutexes make the sending of one chunk,
-- the handling of one packet and one tick of the retransmission a step each. A sequence number is a
-- uint32. `recv_ch` holds all that was ever put in the channel for the reader, the oldest first.
pub mod Order
pub mod Runs
pub mod Window
pub mod Lossless
pub mod Complete
use remote_assist_tool.Base.{
  ℕ, zero, suc, ◌+◌, ◌-◌, ◌*◌, ◌%◌, ◌/◌, ◌^◌, Bool, true, false, not, ◌&&◌, ◌||◌, Option, none,
  some, ltb, leb, ◌==◌, if◌then◌else◌, List, [], ◌∷◌, ◌++◌, length, map,
}
use remote_assist_tool.Base.Dict.{Dict, lookup, insert, delete, size}

abbrev pub max_inflight : ℕ
max_inflight = 256

abbrev pub max_recv_buf : ℕ
max_recv_buf = 1024

abbrev pub uint32 : ℕ → ℕ
uint32 n = n % 4294967296

abbrev pub Bytes : Type 0
Bytes = List ℕ

pub record PendingPacket : Type 0 where
  pub packet : Bytes
  pub sent_at : ℕ
  pub retries : ℕ

pub record UdpTunnel : Type 0 where
  pub next_send_seq : ℕ
  pub send_win : Dict PendingPacket
  pub send_closed : Bool
  pub next_recv_seq : ℕ
  pub recv_buf : Dict Bytes
  pub recv_ch : List Bytes
  pub last_recv_time : ℕ

unfoldable pub new_udp_tunnel : ℕ → UdpTunnel
new_udp_tunnel now = record {
  next_send_seq = 0;
  send_win = [];
  send_closed = false;
  next_recv_seq = 0;
  recv_buf = [];
  recv_ch = [];
  last_recv_time = now;
}

-- binary.BigEndian.PutUint32
unfoldable pub put_uint32 : ℕ → Bytes
put_uint32 v = v / 16777216 % 256 ∷ v / 65536 % 256 ∷ v / 256 % 256 ∷ v % 256 ∷ []

pub data Written : Type 0 where
  blocked : Written  -- the window is full: Write waits for an ACK
  eof : Written
  sent : UdpTunnel → Bytes → Written

-- One round of the loop of Write, for a chunk that is compressed already.
unfoldable pub write_chunk : UdpTunnel → ℕ → Bytes → Written
unfolding put_uint32
write_chunk t now chunk =
    let seq = t.next_send_seq in
    let pkt = 1 ∷ (put_uint32 seq ++ chunk) in
    if leb max_inflight (size t.send_win) && not t.send_closed
    then blocked
    else if t.send_closed
    then eof
    else sent
        (record t {
          next_send_seq = uint32 (seq + 1);
          send_win = insert seq (record { packet = pkt; sent_at = now; retries = 0 }) t.send_win;
        })
        pkt

-- The loop that delivers the packets that wait in the buffer.
unfoldable pub deliver_buffered : ℕ → UdpTunnel → UdpTunnel
deliver_buffered zero t = t
deliver_buffered (suc fuel) t = elim (lookup t.next_recv_seq t.recv_buf) [
  | none ↦ t
  | some buffered ↦ deliver_buffered fuel (record t {
    recv_ch = t.recv_ch ++ buffered ∷ [];
    recv_buf = delete t.next_recv_seq t.recv_buf;
    next_recv_seq = uint32 (t.next_recv_seq + 1);
  })
]

-- The branch of a data packet, after the ACK and the decompression. A round of the loop takes an
-- entry out of the buffer, so its size is enough fuel.
unfoldable pub receive_data : UdpTunnel → ℕ → Bytes → UdpTunnel
unfolding deliver_buffered
receive_data t seq payload =
    if seq == t.next_recv_seq
    then deliver_buffered (size t.recv_buf) (record t {
      recv_ch = t.recv_ch ++ payload ∷ [];
      next_recv_seq = uint32 (t.next_recv_seq + 1);
    })
    else if ltb t.next_recv_seq seq
    then elim (lookup seq t.recv_buf) [
      | some p ↦ t
      | none ↦
          if ltb (size t.recv_buf) max_recv_buf
          then record t { recv_buf = insert seq payload t.recv_buf }
          else t
    ]
    else t

unfoldable pub receive_ack : UdpTunnel → ℕ → UdpTunnel
receive_ack t seq = record t { send_win = delete seq t.send_win }

pub data Packet : Type 0 where
  keepalive : Packet
  ack : ℕ → Packet
  data_ : ℕ → Option Bytes → Packet  -- the payload, if it is not empty and decompresses
  other : Packet

-- A packet of the peer that is long enough, with the ACK that goes back.
unfoldable pub receive : UdpTunnel → ℕ → Packet → UdpTunnel × Option ℕ
unfolding receive_data receive_ack
receive t now keepalive = (record t { last_recv_time = now }, none)
receive t now other = (record t { last_recv_time = now }, none)
receive t now (ack seq) = (receive_ack (record t { last_recv_time = now }) seq, none)
receive t now (data_ seq none) = (record t { last_recv_time = now }, some seq)
receive t now (data_ seq (some payload)) =
    (receive_data (record t { last_recv_time = now }) seq payload, some seq)

-- In milliseconds: retransmitBase << min(retries, 4), capped by maxRTO.
unfoldable pub rto : ℕ → ℕ
rto retries =
    let shift = if ltb 4 retries then 4 else retries in
    let r = 200 * 2 ^ shift in if ltb 2000 r then 2000 else r

-- One tick of the retransmission, with the packets that are sent again.
unfoldable pub retransmit : ℕ → Dict PendingPacket → Dict PendingPacket × List Bytes
unfolding rto
retransmit now [] = ([], [])
retransmit now ((seq, pkt) ∷ rest) =
    let (win, out) = retransmit now rest in
    if ltb (now - pkt.sent_at) (rto pkt.retries)
    then ((seq, pkt) ∷ win, out)
    else ((seq, record pkt { sent_at = now; retries = pkt.retries + 1 }) ∷ win, pkt.packet ∷ out)
