-- ===== src/Agent/Daemon/Sink.antt =====
-- internal/agent/agent.go and internal/mcp/bridge.go: the frames of a stream from the sink of a tool to
-- the callback of the caller.
use remote_assist_tool.Base.{
  ℕ, ◌+◌, ◌%◌, ◌≤◌, ◌<◌, ◌≡◌, refl, ◌∙◌, sym, ap, subst, arith, Bool, true, false, not, ◌||◌, List,
  [], ◌∷◌, ◌++◌, Option, some, ltb, leb, if◌then◌else◌, if_true, if_false, length,
}
use remote_assist_tool.Proto.Aad.{Bytes}
use remote_assist_tool.Proto.Session.{Cipher, Session, active, stream_aad}
use remote_assist_tool.Mcp.Stream.{
  max_tracked_gaps, StreamChunk, Frame, is_empty, chunk_plain, receive_all, gap_count,
}
use remote_assist_tool.Mcp.Stream.Tracks.{arrived}
use remote_assist_tool.Mcp.Stream.Complete.{
  AllTracked, broken, ended, contents, receive_all-Accounts, gap_count_settles,
}
use remote_assist_tool.Agent.Daemon.{
  ChunkSink, new_sink, seal_chunk, numbered, sink_send, sink_finish,
}
use remote_assist_tool.Agent.Daemon.Emit.{
  append_nil, append_assoc, Piece, with_frame, send_all, stream_frames, pieces,
}

-- What a frame that opens adds to the contents.
abbrev piece : Bytes → Bytes → List (Bytes × Bytes)
piece stream bytes = if is_empty bytes then [] else (stream, bytes) ∷ []

module _ (cipher : Cipher) (sess : Session) (on : active sess ≡ true) where
  -- The frames `fs` have the numbers below `k` and hold `out`.
  record Emitted (k : ℕ) (fs : List Frame) (out : List (Bytes × Bytes)) : Type 0 where
    numbers : (y : ℕ) → arrived y fs ≡ ltb y k
    whole : broken cipher fs ≡ 0
    holds : contents cipher fs ≡ out
    tracked : k ≤ max_tracked_gaps → AllTracked cipher fs

  abbrev sealed : ℕ → StreamChunk → StreamChunk
  sealed n c = record c {
    bytes = cipher.seal sess.key n c.bytes (stream_aad sess c.id c.seq c.stream c.fin);
  }

  seal_chunk-sealed :
      (n : ℕ) (c : StreamChunk) → seal_chunk cipher sess (some n) c ≡ some (sealed n c)
  unfolding seal_chunk
  seal_chunk-sealed n c = if_true (active sess) _ _ on

  chunk_plain-sealed :
      (n : ℕ) (c : StreamChunk) → chunk_plain cipher sess (sealed n c) ≡ some c.bytes
  unfolding chunk_plain
  chunk_plain-sealed n c =
      if_true (active sess) _ _ on
      ∙ cipher.open-seal sess.key n c.bytes (stream_aad sess c.id c.seq c.stream c.fin)

  sealed-Emitted :
      (n k : ℕ) (c : StreamChunk) (fs : List Frame) (out : List (Bytes × Bytes))
      → c.seq ≡ k
      → Emitted k fs out
      → Emitted (k + 1) ((sess, sealed n c) ∷ fs) (out ++ piece c.stream c.bytes)
  unfolding arrived broken contents
  sealed-Emitted n k c fs out e t =
      let opens = chunk_plain-sealed n c in
      record {
        numbers = λ y. ground (arith, e, t.numbers y);
        whole = rw opens (ground (arith, t.whole));
        holds = rw (opens, t.holds) refl;
        tracked = λ room. (ground (arith, e, room), t.tracked (ground (arith, room)));
      }

  sink_send-sealed :
      (s : ChunkSink) (n : ℕ) (stream bytes : Bytes)
      → s.finished ≡ false
      → sink_send cipher sess (some n) s stream bytes ≡ (
        record s { active = true; seq = (s.seq + 1) % 4294967296 },
        some (
            sealed n
              (record { id = s.id; seq = s.seq; fin = false; stream = stream; bytes = bytes })),
      )
  unfolding sink_send
  sink_send-sealed s n stream bytes going =
      if_false s.finished _ _ going
      ∙ ap (numbered (record s { active = true })) (
          seal_chunk-sealed n
            (record { id = s.id; seq = s.seq; fin = false; stream = stream; bytes = bytes }))

  sink_finish-sealed :
      (s : ChunkSink) (n : ℕ)
      → (not s.active || s.finished) ≡ false
      → (sink_finish cipher sess (some n) s).1
        ≡ some (sealed n (record { id = s.id; seq = s.seq; fin = true; stream = []; bytes = [] }))
  unfolding sink_finish
  sink_finish-sealed s n going =
      ap (λ (x : ChunkSink × Option StreamChunk). x.1)
        (if_false (not s.active || s.finished) _ _ going)
      ∙ ap (λ c. (numbered (record s { finished = true }) c).1)
          (seal_chunk-sealed n
            (record { id = s.id; seq = s.seq; fin = true; stream = []; bytes = [] }))

  -- A sink that has not finished, and whose number is `k`.
  abbrev Going : ℕ → ChunkSink → Type 0
  Going k s = (s.finished ≡ false) × (s.seq ≡ k)

  send_all_cons :
      (s : ChunkSink) (n : ℕ) (stream bytes : Bytes) (ps : List Piece) (fs : List Frame)
      → s.finished ≡ false
      → send_all cipher sess s ((n, stream, bytes) ∷ ps) fs
        ≡ send_all cipher sess
            (record s { active = true; seq = (s.seq + 1) % 4294967296 })
            ps
            ((
              sess,
              sealed n
                  (record { id = s.id; seq = s.seq; fin = false; stream = stream; bytes = bytes }),
            )
              ∷ fs)
  unfolding send_all
  send_all_cons s n stream bytes ps fs going =
      ap
        (λ (x : ChunkSink × Option StreamChunk).
          send_all cipher sess x.0 ps (with_frame sess x.1 fs))
        (sink_send-sealed s n stream bytes going)

  send_all-Emitted :
      (s : ChunkSink) (k m : ℕ) (ps : List Piece) (fs : List Frame) (out all : List (Bytes × Bytes))
      → Going k s
      → k + length ps ≡ m
      → m < max_tracked_gaps
      → out ++ pieces ps ≡ all
      → Emitted k fs out
      → Going m (send_all cipher sess s ps fs).0
        × Emitted m (send_all cipher sess s ps fs).1 all
        × ((s.active || leb 1 (length ps)) ≡ true → (send_all cipher sess s ps fs).0.active ≡ true)
  unfolding send_all pieces
  send_all-Emitted s k m [] fs out all going count room sum t =
      let end : k ≡ m = ground (arith, count) in
      let whole : out ≡ all = sym (append_nil out) ∙ sum in
      (
        (going.0, going.1 ∙ end),
        subst (λ j. Emitted j fs all) end (subst (λ o. Emitted k fs o) whole t),
        λ h. ground (arith, h),
      )
  send_all-Emitted s k m ((n, stream, bytes) ∷ ps) fs out all going count room sum t =
      let next : ChunkSink = record s { active = true; seq = (s.seq + 1) % 4294967296 } in
      let c : StreamChunk = record {
        id = s.id;
        seq = s.seq;
        fin = false;
        stream = stream;
        bytes = bytes;
      } in
      let grown = sealed-Emitted n k c fs out going.1 t in
      let rest =
        send_all-Emitted next (k + 1) m ps ((sess, sealed n c) ∷ fs) (out ++ piece stream bytes) all
          (going.0, ground (arith, going.1, count, room)) (ground (arith, count)) room
          (append_assoc out (piece stream bytes) (pieces ps) ∙ sum) grown in
      let same = send_all_cons s n stream bytes ps fs going.0 in
      subst
        (λ (x : ChunkSink × List Frame).
          Going m x.0
          × Emitted m x.1 all
          × ((s.active || leb 1 (length {A = Piece} ((n, stream, bytes) ∷ ps))) ≡ true
              → x.0.active ≡ true))
        (sym same) (rest.0, rest.1, λ h. rest.2 refl)

  no_frames : Emitted 0 [] []
  unfolding arrived broken contents
  no_frames = record {
    numbers = λ y. ground arith;
    whole = refl;
    holds = refl;
    tracked = λ room. tt;
  }

  abbrev terminator : ChunkSink → StreamChunk
  terminator s = record { id = s.id; seq = s.seq; fin = true; stream = []; bytes = [] }

  stream_frames-sealed :
      (n : ℕ) (s : ChunkSink) (ps : List Piece)
      → (send_all cipher sess s ps []).0.active ≡ true
      → (send_all cipher sess s ps []).0.finished ≡ false
      → stream_frames cipher sess n s ps
        ≡ (sess, sealed n (terminator (send_all cipher sess s ps []).0))
          ∷ (send_all cipher sess s ps []).1
  unfolding stream_frames
  stream_frames-sealed n s ps act going =
      ap (λ c. with_frame sess c (send_all cipher sess s ps []).1)
        (sink_finish-sealed (send_all cipher sess s ps []).0 n (ground (arith, act, going)))

  Emitted-gap_count :
      (k : ℕ) (fs : List Frame) (out : List (Bytes × Bytes))
      → Emitted k fs out
      → k ≤ max_tracked_gaps
      → gap_count (receive_all cipher fs) ≡ 0
  Emitted-gap_count k fs out t room =
      gap_count_settles cipher fs (t.tracked room) t.whole
        (λ last y came up. ground (arith, came, up, t.numbers last, t.numbers y))

  ended-sealed :
      (n : ℕ) (c : StreamChunk) (fs : List Frame)
      → c.fin ≡ true
      → ended cipher ((sess, sealed n c) ∷ fs) ≡ true
  unfolding ended
  ended-sealed n c fs fin = rw (chunk_plain-sealed n c) (ground (arith, fin))

  -- Streams of a call whose session is active: when the frames that the sink of a tool sends all arrive in
  -- order, with fewer than 4096 of them and the stream asked for or something sent, nothing counts as
  -- missing, the stream has ended, and the callback has had exactly the pieces that are not empty, in
  -- order.
  pub stream_frames_arrive :
      (id n : ℕ) (wants_stream : Bool) (ps : List Piece)
      → length ps + 1 < max_tracked_gaps
      → (wants_stream || leb 1 (length ps)) ≡ true
      → let r = receive_all cipher (stream_frames cipher sess n (new_sink id wants_stream) ps) in
        (gap_count r ≡ 0) × (r.finished ≡ true) × (r.out ≡ pieces ps)
  stream_frames_arrive id n wants_stream ps room used =
      let start : ChunkSink = new_sink id wants_stream in
      let s = (send_all cipher sess start ps []).0 in
      let fs = (send_all cipher sess start ps []).1 in
      let sent =
        send_all-Emitted start 0 (length ps) ps [] [] (pieces ps) (refl, refl) (omega arith)
          (ground (arith, room)) refl no_frames in
      let all : List Frame = (sess, sealed n (terminator s)) ∷ fs in
      let t = sealed-Emitted n (length ps) (terminator s) fs (pieces ps) sent.0.1 sent.1 in
      let counts = receive_all-Accounts cipher all in
      subst
        (λ frames.
          (gap_count (receive_all cipher frames) ≡ 0)
          × ((receive_all cipher frames).finished ≡ true)
          × ((receive_all cipher frames).out ≡ pieces ps))
        (sym (stream_frames-sealed n start ps (sent.2 used) sent.0.0))
        (
          Emitted-gap_count (length ps + 1) all (pieces ps ++ []) t (ground (arith, room)),
          counts.1 ∙ ended-sealed n (terminator s) fs refl,
          counts.2 ∙ t.holds ∙ append_nil (pieces ps),
        )
