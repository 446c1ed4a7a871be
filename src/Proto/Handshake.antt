-- ===== src/Proto/Handshake.antt =====
-- internal/proto/handshake.go: the negotiation of the version of the tool protocol. A version is a
-- text that the code only compares: 0 is the empty one, 1 is "1", 2 is "2", and any other number is
-- a text that this side does not know. The texts of the error messages are not modelled, only the
-- versions that they name.
pub mod Negotiate
use remote_assist_tool.Base.{
  ℕ, suc, ◌+◌, Bool, true, false, not, ◌&&◌, ◌||◌, List, [], ◌∷◌, leb, ltb, ◌==◌, if◌then◌else◌,
}
use remote_assist_tool.Base.Int.{ℤ, pos, negsuc, ltb_ℤ}

abbrev pub tool_protocol_version_v1 : ℕ
tool_protocol_version_v1 = 1

abbrev pub tool_protocol_version_v2 : ℕ
tool_protocol_version_v2 = 2

abbrev pub tool_protocol_version : ℕ
tool_protocol_version = tool_protocol_version_v2

abbrev pub default_min_proto : ℕ
default_min_proto = tool_protocol_version_v2

-- In descending order of preference.
abbrev pub supported_tool_versions : List ℕ
supported_tool_versions = tool_protocol_version_v2 ∷ tool_protocol_version_v1 ∷ []

-- The loop of versionRank, at index `i`.
unfoldable pub rank_from : ℕ → List ℕ → ℕ → ℤ
rank_from i [] v = negsuc 0
rank_from i (s ∷ rest) v = if s == v then pos i else rank_from (suc i) rest v

unfoldable pub version_rank : ℕ → ℤ
unfolding rank_from
version_rank v = rank_from 0 supported_tool_versions v

abbrev pub or_default : ℕ → ℕ
or_default v = if v == 0 then default_min_proto else v

unfoldable pub satisfies_min_proto : ℕ → ℕ → Bool
unfolding version_rank
satisfies_min_proto v floor =
    let r = version_rank v in
    not (ltb_ℤ r (pos 0)) && not (ltb_ℤ (version_rank (or_default floor)) r)

pub data Outcome : Type 0 where
  agreed : ℕ → Outcome
  incompatible : ℕ → ℕ → Outcome  -- IncompatibleVersionError{Want, Got}
  rejected : Outcome  -- the peer refuses
  unknown_version : ℕ → Outcome
  suspicious : ℕ → ℕ → Outcome  -- the version chosen and the better one that the peer offers
  unsupported_floor : Outcome

unfoldable pub normalize_min_proto : ℕ → Outcome
unfolding version_rank
normalize_min_proto v =
    if v == 0
    then agreed default_min_proto
    else if ltb_ℤ (version_rank v) (pos 0)
    then unsupported_floor
    else agreed v

-- The loop of supportedDownTo.
unfoldable pub keep_down_to : ℕ → List ℕ → List ℕ
unfolding version_rank
keep_down_to floor [] = []
keep_down_to floor (v ∷ rest) =
    let kept = keep_down_to floor rest in
    if not (ltb_ℤ (version_rank floor) (version_rank v)) then v ∷ kept else kept

unfoldable pub supported_down_to : ℕ → List ℕ
unfolding keep_down_to
supported_down_to min_proto = keep_down_to (or_default min_proto) supported_tool_versions

pub record Hello : Type 0 where
  pub version : ℕ
  pub versions : List ℕ

pub record HelloAck : Type 0 where
  pub accept : Bool
  pub version : ℕ
  pub versions : List ℕ

unfoldable pub hello_with_anchor : ℕ → ℕ → Hello
hello_with_anchor anchor min_proto = record {
  version = anchor;
  versions = supported_down_to min_proto;
}

unfoldable pub new_hello : ℕ → Hello
unfolding hello_with_anchor
new_hello min_proto = hello_with_anchor tool_protocol_version min_proto

unfoldable pub new_fallback_hello : ℕ → Hello
unfolding hello_with_anchor
new_fallback_hello min_proto = hello_with_anchor (or_default min_proto) (or_default min_proto)

unfoldable pub should_retry_with_fallback_anchor : HelloAck → ℕ → Bool
should_retry_with_fallback_anchor ack min_proto =
    if ack.accept then false else not (or_default min_proto == tool_protocol_version)

unfoldable pub peer_versions : ℕ → List ℕ → List ℕ
peer_versions single (v ∷ list) = v ∷ list
peer_versions single [] = if single == 0 then [] else single ∷ []

-- `v == p` for some `p` of the list.
unfoldable pub offers : List ℕ → ℕ → Bool
offers [] v = false
offers (p ∷ rest) v = (v == p) || offers rest v

-- The first of the versions that the peer offers, 0 if there is none.
unfoldable pub first_offered : List ℕ → List ℕ → ℕ
unfolding offers
first_offered [] peer = 0
first_offered (v ∷ rest) peer = if offers peer v then v else first_offered rest peer

-- The loop of peerBestVersion.
unfoldable pub best_from : ℕ → List ℕ → ℕ
unfolding version_rank
best_from best [] = best
best_from best (p ∷ rest) =
    best_from
      (if ltb_ℤ (version_rank p) (pos 0)
        then best
        else if best == 0 || ltb_ℤ (version_rank p) (version_rank best)
        then p
        else best)
      rest

unfoldable pub peer_best_version : ℕ → List ℕ → ℕ
unfolding best_from peer_versions
peer_best_version single list = best_from 0 (peer_versions single list)

unfoldable pub negotiate_tool_version : ℕ → List ℕ → ℕ → Outcome
unfolding version_rank first_offered peer_versions peer_best_version
negotiate_tool_version single list min_proto =
    let floor = or_default min_proto in
    let best = first_offered supported_tool_versions (peer_versions single list) in
    if best == 0 || ltb_ℤ (version_rank floor) (version_rank best)
    then incompatible floor (peer_best_version single list)
    else agreed best

unfoldable pub better_version_than : ℕ → List ℕ → ℕ → ℕ
unfolding version_rank
better_version_than chosen [] floor = 0
better_version_than chosen (v ∷ rest) floor =
    let later = better_version_than chosen rest floor in
    if ltb_ℤ (version_rank v) (pos 0)
    then later
    else if ltb_ℤ (version_rank floor) (version_rank v)
    then later
    else if ltb_ℤ (version_rank v) (version_rank chosen)
    then v
    else later

unfoldable pub interpret_hello_ack : HelloAck → ℕ → Outcome
unfolding version_rank peer_best_version better_version_than
interpret_hello_ack ack min_proto =
    let floor = or_default min_proto in
    let peer_best = peer_best_version ack.version ack.versions in
    let chosen = if ack.version == 0 then tool_protocol_version_v1 else ack.version in
    let newer = better_version_than chosen ack.versions floor in
    if not ack.accept
    then if not (peer_best == 0) && ltb_ℤ (version_rank floor) (version_rank peer_best)
      then incompatible floor peer_best
      else rejected
    else if ltb_ℤ (version_rank chosen) (pos 0)
    then unknown_version chosen
    else if ltb_ℤ (version_rank floor) (version_rank chosen)
    then incompatible floor chosen
    else if not (newer == 0)
    then suspicious chosen newer
    else agreed chosen
