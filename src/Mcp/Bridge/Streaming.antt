-- ===== src/Mcp/Bridge/Streaming.antt =====
-- internal/mcp/bridge.go: the frames that the streamRecv of a call gets while the call goes on.
use remote_assist_tool.Base.{
  ℕ, ◌≡◌, ap, arith, Bool, false, List, [], ◌∷◌, Option, none, some, ◌==◌, if◌then◌else◌,
  Bool-cases, Option-cases, inl, inr,
}
use remote_assist_tool.Base.Dict.{lookup, lookup-insert, lookup-delete}
use remote_assist_tool.Proto.Session.{Cipher, Session}
use remote_assist_tool.Mcp.Stream.{
  StreamRecv, new_stream_recv, StreamChunk, Frame, receive_chunk, receive_all, status, settled,
}
use remote_assist_tool.Mcp.Bridge.{
  Bridge, disconnect, tool_resp, tool_stream, undecodable, handle_resp, handle_stream,
  handle_inbound, fresh_id, register_call, return_call, swap_conn, Event, inbound, disconnected,
  swapped, registered, returned, sent, step, run,
}
use remote_assist_tool.Mcp.Bridge.Call.{recv_of, settled_status}
use remote_assist_tool.Mcp.Bridge.Waiting.{Foreign, AllForeign}

-- The frames of the call `id` that the events bring, put before those of `fs`.
abbrev pub frame : ℕ → Bridge → Event → List Frame → List Frame
frame id b (inbound (tool_stream c)) fs = if c.id == id then (b.sess, c) ∷ fs else fs
frame id b (inbound (tool_resp m)) fs = fs
frame id b (inbound undecodable) fs = fs
frame id b (disconnected err) fs = fs
frame id b (swapped conn sess) fs = fs
frame id b (registered streaming) fs = fs
frame id b (returned j streaming) fs = fs
frame id b (sent conn m) fs = fs

unfoldable pub frames : Cipher → ℕ → List Event → Bridge → List Frame → List Frame
unfolding step
frames cipher id [] b fs = fs
frames cipher id (e ∷ es) b fs = frames cipher id es (step cipher b e) (frame id b e fs)

-- The same for the events between the readings of the status.
unfoldable pub settled_frames :
    Cipher → Bool → ℕ → List (List Event) → Bridge → List Frame → List Frame
unfolding frames run
settled_frames cipher need id [] b fs = fs
settled_frames cipher need id (es ∷ rest) b fs =
    let later = settled_frames cipher need id rest (run cipher es b) (frames cipher id es b fs) in
    if settled need (status (recv_of id b)) then fs else later

abbrev pub SettlingForeign : Cipher → ℕ → Bridge → List (List Event) → Type 0
SettlingForeign cipher id b [] = Unit
SettlingForeign cipher id b (es ∷ rest) =
    AllForeign cipher id b es × SettlingForeign cipher id (run cipher es b) rest

-- The call's streamRecv has had these frames.
abbrev pub HasHad : Cipher → ℕ → List Frame → Bridge → Type 0
HasHad cipher id fs b = lookup id b.stream_cbs ≡ some (receive_all cipher fs)

-- What a frame makes of the entry of its call.
abbrev fed : Cipher → Session → StreamChunk → Option StreamRecv → Option StreamRecv
fed cipher sess c none = none
fed cipher sess c (some recv) = some (receive_chunk cipher sess recv c)

lookup-handle_stream :
    (cipher : Cipher) (id : ℕ) (b : Bridge) (c : StreamChunk)
    → lookup id (handle_stream cipher b c).stream_cbs ≡ (
        if c.id == id then fed cipher b.sess c (lookup id b.stream_cbs) else lookup id b.stream_cbs)
unfolding handle_stream
lookup-handle_stream cipher id b c = elim (Option-cases (lookup c.id b.stream_cbs)) [
  | inl absent ↦ ground (arith, absent)
  | inr (recv, there) ↦
      ground (arith, there, lookup-insert c.id id (receive_chunk cipher b.sess recv c) b.stream_cbs)
]

module _ (cipher : Cipher) (id : ℕ) (fs : List Frame) (b : Bridge)
    (had : HasHad cipher id fs b) where
  handle_stream-HasHad :
      (c : StreamChunk)
      → HasHad cipher id (if c.id == id then (b.sess, c) ∷ fs else fs) (handle_stream cipher b c)
  unfolding receive_all
  handle_stream-HasHad c = elim (Bool-cases (c.id == id)) [
    | inl mine ↦ ground (arith, mine, had, lookup-handle_stream cipher id b c)
    | inr other ↦ ground (arith, other, had, lookup-handle_stream cipher id b c)
  ]

  others-HasHad :
      (streaming : Bool) (j : ℕ)
      → (j == id) ≡ false
      → HasHad cipher id fs (return_call j streaming b)
  unfolding return_call
  others-HasHad streaming j f = ground (arith, f, had, lookup-delete j id b.stream_cbs)

  step-HasHad : (e : Event) → Foreign id b e → HasHad cipher id (frame id b e fs) (step cipher b e)
  unfolding step handle_inbound disconnect swap_conn register_call handle_resp
  step-HasHad (inbound (tool_resp m)) f = ground (arith, had)
  step-HasHad (inbound (tool_stream c)) f = handle_stream-HasHad c
  step-HasHad (inbound undecodable) f = had
  step-HasHad (disconnected err) f = ground (arith, had)
  step-HasHad (swapped conn sess) f = had
  step-HasHad (registered streaming) f =
      ground (arith, f, had, lookup-insert (fresh_id b) id new_stream_recv b.stream_cbs)
  step-HasHad (returned j streaming) f = others-HasHad streaming j f
  step-HasHad (sent conn m) f = had

pub run-HasHad :
    (cipher : Cipher) (id : ℕ) (es : List Event) (fs : List Frame) (b : Bridge)
    → HasHad cipher id fs b
    → AllForeign cipher id b es
    → HasHad cipher id (frames cipher id es b fs) (run cipher es b)
unfolding run frames
run-HasHad cipher id [] fs b had f = had
run-HasHad cipher id (e ∷ es) fs b had f =
    run-HasHad cipher id es (frame id b e fs) (step cipher b e)
      (step-HasHad cipher id fs b had e f.0) f.1

recv_of-HasHad :
    (cipher : Cipher) (id : ℕ) (fs : List Frame) (b : Bridge)
    → HasHad cipher id fs b
    → recv_of id b ≡ receive_all cipher fs
recv_of-HasHad cipher id fs b had = ground (arith, had)

pub settled_status-frames :
    (cipher : Cipher) (need : Bool) (id : ℕ) (settling : List (List Event)) (fs : List Frame)
    (b : Bridge)
    → HasHad cipher id fs b
    → SettlingForeign cipher id b settling
    → (settled_status cipher need id settling b).1
      ≡ status (receive_all cipher (settled_frames cipher need id settling b fs))
unfolding settled_status settled_frames
settled_status-frames cipher need id [] fs b had f = ap status (recv_of-HasHad cipher id fs b had)
settled_status-frames cipher need id (es ∷ rest) fs b had f =
    let later =
      settled_status-frames cipher need id rest (frames cipher id es b fs) (run cipher es b)
        (run-HasHad cipher id es fs b had f.0) f.1 in
    elim (Bool-cases (settled need (status (recv_of id b)))) [
      | inl now ↦ rw now (ap status (recv_of-HasHad cipher id fs b had))
      | inr not_yet ↦ rw not_yet later
    ]
