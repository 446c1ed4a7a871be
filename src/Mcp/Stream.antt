-- ===== src/Mcp/Stream.antt =====
-- internal/mcp/bridge.go: streamRecv, which notices the frames of a streaming call that are missing.
-- The set of the missing numbers is a map to `true`; `out` has what the callback is given.
pub mod Gaps
pub mod Tracks
pub mod Complete
use remote_assist_tool.Base.{
  ℕ, zero, suc, ◌+◌, ◌-◌, ◌%◌, Bool, true, false, not, ◌&&◌, ◌||◌, List, [], ◌∷◌, ◌++◌, Option,
  none, some, ltb, leb, ◌==◌, if◌then◌else◌,
}
use remote_assist_tool.Base.Dict.{Dict, insert, delete, size}
use remote_assist_tool.Proto.Aad.{Bytes}
use remote_assist_tool.Proto.Session.{Cipher, Session, active, stream_aad}

abbrev pub max_tracked_gaps : ℕ
max_tracked_gaps = 4096

pub record StreamRecv : Type 0 where
  pub next : ℕ
  pub missing : Dict Bool
  pub overflow : ℕ
  pub damaged : ℕ
  pub finished : Bool
  pub out : List (Bytes × Bytes)

abbrev pub new_stream_recv : StreamRecv
new_stream_recv = record {
  next = 0;
  missing = [];
  overflow = 0;
  damaged = 0;
  finished = false;
  out = [];
}

-- The loop of observe from `h` on, `left` numbers before the end.
unfoldable pub gap_loop : ℕ → ℕ → Dict Bool → ℕ → Dict Bool × ℕ
gap_loop zero h missing overflow = (missing, overflow)
gap_loop (suc left) h missing overflow =
    let rest = gap_loop left (h + 1) (insert h true missing) overflow in
    if leb max_tracked_gaps (size missing) then (missing, overflow + suc left) else rest

unfoldable pub observe : StreamRecv → ℕ → StreamRecv
unfolding gap_loop
observe s seq =
    if ltb seq s.next
    then record s { missing = delete seq s.missing }
    else (let (missing, overflow) = gap_loop (seq - s.next) s.next s.missing s.overflow in
        record s { missing = missing; overflow = overflow; next = (seq + 1) % 4294967296 })

abbrev pub mark_damaged : StreamRecv → StreamRecv
mark_damaged s = record s { damaged = s.damaged + 1 }

abbrev pub mark_finished : StreamRecv → StreamRecv
mark_finished s = record s { finished = true }

unfoldable pub gap_count : StreamRecv → ℕ
gap_count s = size s.missing + s.overflow + s.damaged

-- A status is the gap count and `finished`.
unfoldable pub status : StreamRecv → ℕ × Bool
status s = (gap_count s, s.finished)

abbrev pub settled : Bool → ℕ × Bool → Bool
settled need (gaps, finished) = gaps == 0 && (finished || not need)

pub record StreamChunk : Type 0 where
  pub id : ℕ
  pub seq : ℕ
  pub fin : Bool
  pub stream : Bytes
  pub bytes : Bytes

abbrev pub is_empty : Bytes → Bool
is_empty [] = true
is_empty (b ∷ bs) = false

abbrev pub call_back : StreamRecv → Bytes → Bytes → StreamRecv
call_back s stream plain =
    if is_empty plain then s else record s { out = s.out ++ (stream, plain) ∷ [] }

-- A frame whose content is known.
unfoldable pub deliver : StreamRecv → StreamChunk → Bytes → StreamRecv
unfolding observe
deliver s c plain =
    let seen = observe s c.seq in
    let ended = if c.fin then mark_finished seen else seen in call_back ended c.stream plain

-- The content of a frame, `none` if it does not open.
unfoldable pub chunk_plain : Cipher → Session → StreamChunk → Option Bytes
unfolding stream_aad
chunk_plain cipher sess c =
    if active sess
    then cipher.open_ sess.key c.bytes (stream_aad sess c.id c.seq c.stream c.fin)
    else some c.bytes

unfoldable pub received : StreamRecv → StreamChunk → Option Bytes → StreamRecv
unfolding deliver observe
received s c none = mark_damaged (observe s c.seq)
received s c (some plain) = deliver s c plain

-- The frames of HandleInbound, for a call that has a streamRecv.
unfoldable pub receive_chunk : Cipher → Session → StreamRecv → StreamChunk → StreamRecv
receive_chunk cipher sess s c = received s c (chunk_plain cipher sess c)

-- The frames of a call, the latest first, each with the session in force when it came.
abbrev pub Frame : Type 0
Frame = Session × StreamChunk

unfoldable pub receive_all : Cipher → List Frame → StreamRecv
receive_all cipher [] = new_stream_recv
receive_all cipher ((sess, c) ∷ cs) = receive_chunk cipher sess (receive_all cipher cs) c
