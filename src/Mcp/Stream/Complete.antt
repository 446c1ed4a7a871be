-- ===== src/Mcp/Stream/Complete.antt =====
-- internal/mcp/bridge.go: the counts of a streamRecv against the frames that the call has received.
use remote_assist_tool.Base.{
  ℕ, ◌+◌, ◌-◌, ◌≤◌, ◌<◌, ◌≡◌, refl, ◌∙◌, ap, arith, Bool, true, false, not, ◌&&◌, ◌||◌, List, [],
  ◌∷◌, ◌++◌, Option, none, some, ltb, if◌then◌else◌, Bool-cases, inl, inr,
}
use remote_assist_tool.Base.Dict.{Dict, b2n, lookup, size, size-delete_le}
use remote_assist_tool.Proto.Aad.{Bytes}
use remote_assist_tool.Proto.Session.{Cipher}
use remote_assist_tool.Mcp.Stream.{
  max_tracked_gaps, StreamRecv, StreamChunk, Frame, observe, gap_count, deliver, received, is_empty,
  chunk_plain, receive_chunk, receive_all,
}
use remote_assist_tool.Mcp.Stream.Gaps.{gap_loop-room, observe-late, observe-ahead}
use remote_assist_tool.Mcp.Stream.Tracks.{
  arrived, AllSmall, receive_chunk-SameGaps, receive_all-Tracks,
}

abbrev is_open : Option Bytes → Bool
is_open none = false
is_open (some plain) = true

abbrev shown : Bytes → Option Bytes → List (Bytes × Bytes)
shown stream none = []
shown stream (some plain) = if is_empty plain then [] else (stream, plain) ∷ []

module _ (cipher : Cipher) where
  -- The frames whose ciphertext does not open, whether one that opens ends the stream, and the
  -- contents of those that open, in the order of arrival.
  unfoldable pub broken : List Frame → ℕ
  broken [] = 0
  broken ((sess, c) ∷ cs) = broken cs + b2n (not (is_open (chunk_plain cipher sess c)))

  unfoldable pub ended : List Frame → Bool
  ended [] = false
  ended ((sess, c) ∷ cs) = ended cs || (c.fin && is_open (chunk_plain cipher sess c))

  unfoldable pub contents : List Frame → List (Bytes × Bytes)
  contents [] = []
  contents ((sess, c) ∷ cs) = contents cs ++ shown c.stream (chunk_plain cipher sess c)

observe-others :
    (s : StreamRecv) (seq : ℕ)
    → ((observe s seq).damaged ≡ s.damaged)
      × ((observe s seq).finished ≡ s.finished)
      × ((observe s seq).out ≡ s.out)
observe-others s seq = elim (Bool-cases (ltb seq s.next)) [
  | inl late ↦ rw (observe-late s seq late) (refl, refl, refl)
  | inr ahead ↦ rw (observe-ahead s seq ahead) (refl, refl, refl)
]

append_nil : {A : Type 0} (xs : List A) → xs ++ [] ≡ xs
append_nil [] = refl
append_nil (x ∷ xs) = ap (λ t. x ∷ t) (append_nil xs)

received-others :
    (s : StreamRecv) (c : StreamChunk) (content : Option Bytes)
    → ((received s c content).damaged ≡ s.damaged + b2n (not (is_open content)))
      × ((received s c content).finished ≡ (s.finished || (c.fin && is_open content)))
      × ((received s c content).out ≡ s.out ++ shown c.stream content)
unfolding received deliver
received-others s c none = ground (arith, observe-others s c.seq, append_nil s.out)
received-others s c (some plain) = ground (arith, observe-others s c.seq, append_nil s.out)

module _ (cipher : Cipher) where
  abbrev pub Accounts : StreamRecv → List Frame → Type 0
  Accounts s cs =
      (s.damaged ≡ broken cipher cs) × (s.finished ≡ ended cipher cs) × (s.out ≡ contents cipher cs)

  -- After any frames: `damaged` counts those that do not open, `finished` tells whether one that opens
  -- had Fin set, and the callback has had the contents of those that open, in the order of arrival,
  -- each as often as it came.
  pub receive_all-Accounts : (cs : List Frame) → Accounts (receive_all cipher cs) cs
  unfolding receive_all receive_chunk broken ended contents
  receive_all-Accounts [] = (refl, refl, refl)
  receive_all-Accounts ((sess, c) ∷ cs) =
      let s = receive_all cipher cs in
      let before = receive_all-Accounts cs in
      let step = received-others s c (chunk_plain cipher sess c) in
      rw (step.0, step.1, step.2, before.0, before.1, before.2) (refl, refl, refl)

size-lookup-none : (y : ℕ) (m : Dict Bool) → size m ≡ 0 → lookup y m ≡ none
unfolding size lookup
size-lookup-none y [] e = refl
size-lookup-none y ((j, v) ∷ m) e = absurd (ground (arith, e))

lookup-none-size : (m : Dict Bool) → ((y : ℕ) → lookup y m ≡ none) → size m ≡ 0
unfolding size lookup
lookup-none-size [] e = refl
lookup-none-size ((j, v) ∷ m) e = absurd (ground (arith, e j))

module _ (cipher : Cipher) where
  -- A call whose gap count is 0 lost nothing: every frame that came opened, and below the number of
  -- a frame that came there is none that did not come.
  pub gap_count_complete :
      (cs : List Frame)
      → AllSmall cs
      → gap_count (receive_all cipher cs) ≡ 0
      → (broken cipher cs ≡ 0)
        × ((last y : ℕ) → arrived last cs ≡ true → y ≤ last → arrived y cs ≡ true)
  unfolding gap_count
  gap_count_complete cs small none_missing =
      let s = receive_all cipher cs in
      let t = receive_all-Tracks cipher cs small in
      (
        ground (arith, none_missing, receive_all-Accounts cipher cs),
        λ last y came up.
            ground (
              arith,
              none_missing,
              came,
              up,
              t.below last,
              t.known y,
              size-lookup-none y s.missing,
            ),
      )

  -- Below max_tracked_gaps nothing is given up.
  abbrev pub AllTracked : List Frame → Type 0
  AllTracked [] = Unit
  AllTracked ((sess, c) ∷ cs) = (c.seq < max_tracked_gaps) × AllTracked cs

  abbrev HasRoom : StreamRecv → Type 0
  HasRoom s = (s.overflow ≡ 0) × (size s.missing ≤ s.next) × (s.next ≤ max_tracked_gaps)

  observe-HasRoom :
      (s : StreamRecv) (seq : ℕ) → seq < max_tracked_gaps → HasRoom s → HasRoom (observe s seq)
  observe-HasRoom s seq small room = elim (Bool-cases (ltb seq s.next)) [
    | inl late ↦
        rw (observe-late s seq late)
          (room.0, ground (arith, room.1, size-delete_le seq s.missing), room.2)
    | inr ahead ↦
        let rest =
          gap_loop-room (seq - s.next) s.next s.missing s.overflow room.1
            (ground (arith, ahead, small)) in
        rw (observe-ahead s seq ahead)
          (rest.0 ∙ room.0, ground (arith, ahead, small, rest.1), ground (arith, small))
  ]

  receive_all-HasRoom : (cs : List Frame) → AllTracked cs → HasRoom (receive_all cipher cs)
  unfolding receive_all size
  receive_all-HasRoom [] small = (refl, omega arith, omega arith)
  receive_all-HasRoom ((sess, c) ∷ cs) small =
      let s = receive_all cipher cs in
      let same = receive_chunk-SameGaps s c cipher sess in
      rw (same.0, same.1, same.2) (observe-HasRoom s c.seq small.0 (receive_all-HasRoom cs small.1))

  AllTracked-AllSmall : (cs : List Frame) → AllTracked cs → AllSmall cs
  AllTracked-AllSmall [] small = tt
  AllTracked-AllSmall ((sess, c) ∷ cs) small =
      (ground (arith, small.0), AllTracked-AllSmall cs small.1)

  -- Conversely, frames below max_tracked_gaps that all open, with none left out below one that came,
  -- leave a gap count of 0, whatever the order they came in and however often.
  pub gap_count_settles :
      (cs : List Frame)
      → AllTracked cs
      → broken cipher cs ≡ 0
      → ((last y : ℕ) → arrived last cs ≡ true → y ≤ last → arrived y cs ≡ true)
      → gap_count (receive_all cipher cs) ≡ 0
  unfolding gap_count
  gap_count_settles cs small whole dense =
      let s = receive_all cipher cs in
      let t = receive_all-Tracks cipher cs (AllTracked-AllSmall cs small) in
      let room = receive_all-HasRoom cs small in
      let none_left : (y : ℕ) → lookup y s.missing ≡ none =
        (λ y. ground (arith, t.known y room.0, t.latest, dense (s.next - 1) y)) in
      ground
        (arith, room.0, whole, receive_all-Accounts cipher cs, lookup-none-size s.missing none_left)
