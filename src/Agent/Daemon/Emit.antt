-- ===== src/Agent/Daemon/Emit.antt =====
-- internal/agent/agent.go: all frames that the sink of a tool sends.
use remote_assist_tool.Base.{
  ℕ, ◌≡◌, refl, ap, List, [], ◌∷◌, ◌++◌, Option, none, some, if◌then◌else◌,
}
use remote_assist_tool.Proto.Aad.{Bytes}
use remote_assist_tool.Proto.Session.{Cipher, Session}
use remote_assist_tool.Mcp.Stream.{StreamChunk, Frame, is_empty}
use remote_assist_tool.Agent.Daemon.{ChunkSink, sink_send, sink_finish}

pub append_nil : {A : Type 0} (xs : List A) → xs ++ [] ≡ xs
append_nil [] = refl
append_nil (x ∷ xs) = ap (λ t. x ∷ t) (append_nil xs)

pub append_assoc : {A : Type 0} (xs ys zs : List A) → (xs ++ ys) ++ zs ≡ xs ++ (ys ++ zs)
append_assoc [] ys zs = refl
append_assoc (x ∷ xs) ys zs = ap (λ t. x ∷ t) (append_assoc xs ys zs)

-- What a tool sends: a nonce, the name of the stream and the bytes.
abbrev pub Piece : Type 0
Piece = ℕ × Bytes × Bytes

abbrev pub with_frame : Session → Option StreamChunk → List Frame → List Frame
with_frame sess none fs = fs
with_frame sess (some c) fs = (sess, c) ∷ fs

-- The frames that go out, the latest first, before those of `fs`.
unfoldable pub send_all :
    Cipher → Session → ChunkSink → List Piece → List Frame → ChunkSink × List Frame
send_all cipher sess s [] fs = (s, fs)
send_all cipher sess s ((n, stream, bytes) ∷ ps) fs =
    let (s', c) = sink_send cipher sess (some n) s stream bytes in
    send_all cipher sess s' ps (with_frame sess c fs)

-- All of a call's stream, its terminator included.
unfoldable pub stream_frames : Cipher → Session → ℕ → ChunkSink → List Piece → List Frame
stream_frames cipher sess n s ps =
    let (s', fs) = send_all cipher sess s ps [] in
    with_frame sess (sink_finish cipher sess (some n) s').1 fs

-- The pieces that are not empty.
unfoldable pub pieces : List Piece → List (Bytes × Bytes)
pieces [] = []
pieces ((n, stream, bytes) ∷ ps) =
    (if is_empty bytes then [] else (stream, bytes) ∷ []) ++ pieces ps
