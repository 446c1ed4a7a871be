-- ===== src/Mcp/Stream/Tracks.antt =====
-- internal/mcp/bridge.go: what a streamRecv knows of the frames that have arrived.
use remote_assist_tool.Base.{
  ℕ, ◌+◌, ◌-◌, ◌<◌, ◌≡◌, refl, arith, Bool, true, false, not, ◌&&◌, ◌||◌, List, [], ◌∷◌, Option,
  none, some, ltb, ◌==◌, if◌then◌else◌, Bool-cases, ◌⊎◌, inl, inr,
}
use remote_assist_tool.Base.Dict.{lookup, lookup-delete}
use remote_assist_tool.Proto.Aad.{Bytes}
use remote_assist_tool.Proto.Session.{Cipher, Session}
use remote_assist_tool.Mcp.Stream.{
  StreamRecv, StreamChunk, Frame, new_stream_recv, observe, deliver, received, chunk_plain,
  receive_chunk, receive_all,
}
use remote_assist_tool.Mcp.Stream.Gaps.{
  gap_loop-overflow, gap_loop-lookup, observe-late, observe-ahead,
}

-- A frame with this number is among them.
unfoldable pub arrived : ℕ → List Frame → Bool
arrived y [] = false
arrived y ((sess, c) ∷ cs) = (c.seq == y) || arrived y cs

-- Unless numbers were given up, the set has those below `next` that have not arrived.
pub record Tracks (s : StreamRecv) (cs : List Frame) : Type 0 where
  pub known :
      (y : ℕ)
      → s.overflow ≡ 0
      → lookup y s.missing ≡ (if ltb y s.next && not (arrived y cs) then some true else none)
  pub below : (y : ℕ) → (arrived y cs ≡ false) ⊎ (y < s.next)
  pub latest : (s.next ≡ 0) ⊎ (arrived (s.next - 1) cs ≡ true)

new_stream_recv-Tracks : Tracks new_stream_recv []
unfolding arrived lookup
new_stream_recv-Tracks = record {
  known = λ y h. ground arith;
  below = λ y. inl refl;
  latest = inl refl;
}

module _ (s : StreamRecv) (cs : List Frame) (t : Tracks s cs) (sess : Session) (c : StreamChunk)
    (small : c.seq + 1 < 4294967296) where
  observe_late-Tracks : ltb c.seq s.next ≡ true → Tracks (observe s c.seq) ((sess, c) ∷ cs)
  unfolding arrived
  observe_late-Tracks late = rw (observe-late s c.seq late) record {
    known = λ y h. ground (arith, late, t.known y h, lookup-delete c.seq y s.missing);
    below = λ y. ground (arith, late, t.below y);
    latest = ground (arith, late, t.latest);
  }

  observe_ahead-Tracks : ltb c.seq s.next ≡ false → Tracks (observe s c.seq) ((sess, c) ∷ cs)
  unfolding arrived
  observe_ahead-Tracks ahead = rw (observe-ahead s c.seq ahead) record {
    known = λ y h.
        let none_before = gap_loop-overflow (c.seq - s.next) s.next s.missing s.overflow in
        let zero_before : s.overflow ≡ 0 = ground (arith, h, none_before) in
        ground (
          arith,
          ahead,
          small,
          t.known y zero_before,
          t.below y,
          gap_loop-lookup (c.seq - s.next) s.next s.missing s.overflow y h,
        );
    below = λ y. ground (arith, ahead, small, t.below y);
    latest = ground (arith, small);
  }

  observe-Tracks : Tracks (observe s c.seq) ((sess, c) ∷ cs)
  observe-Tracks = elim (Bool-cases (ltb c.seq s.next)) [
    | inl late ↦ observe_late-Tracks late
    | inr ahead ↦ observe_ahead-Tracks ahead
  ]

-- The fields that observe decides.
abbrev SameGaps : StreamRecv → StreamRecv → Type 0
SameGaps s t = (s.next ≡ t.next) × (s.missing ≡ t.missing) × (s.overflow ≡ t.overflow)

SameGaps-Tracks : (s r : StreamRecv) (cs : List Frame) → SameGaps r s → Tracks s cs → Tracks r cs
SameGaps-Tracks s r cs e t = record {
  known = λ y h. rw (e.0, e.1) (t.known y (ground (arith, h, e.2)));
  below = λ y. rw e.0 (t.below y);
  latest = rw e.0 t.latest;
}

module _ (s : StreamRecv) (c : StreamChunk) where
  deliver-SameGaps : (plain : Bytes) → SameGaps (deliver s c plain) (observe s c.seq)
  unfolding deliver
  deliver-SameGaps plain = ground arith

  received-SameGaps : (content : Option Bytes) → SameGaps (received s c content) (observe s c.seq)
  unfolding received
  received-SameGaps none = (refl, refl, refl)
  received-SameGaps (some plain) = deliver-SameGaps plain

  pub receive_chunk-SameGaps :
      (cipher : Cipher) (sess : Session)
      → SameGaps (receive_chunk cipher sess s c) (observe s c.seq)
  unfolding receive_chunk
  receive_chunk-SameGaps cipher sess = received-SameGaps (chunk_plain cipher sess c)

-- A frame's number leaves room for the next one in a uint32.
abbrev pub AllSmall : List Frame → Type 0
AllSmall [] = Unit
AllSmall ((sess, c) ∷ cs) = (c.seq + 1 < 4294967296) × AllSmall cs

pub receive_all-Tracks :
    (cipher : Cipher) (cs : List Frame) → AllSmall cs → Tracks (receive_all cipher cs) cs
unfolding receive_all
receive_all-Tracks cipher [] small = new_stream_recv-Tracks
receive_all-Tracks cipher ((sess, c) ∷ cs) small =
    let s = receive_all cipher cs in
    SameGaps-Tracks (observe s c.seq) (receive_chunk cipher sess s c) ((sess, c) ∷ cs)
      (receive_chunk-SameGaps s c cipher sess)
      (observe-Tracks s cs (receive_all-Tracks cipher cs small.1) sess c small.0)
