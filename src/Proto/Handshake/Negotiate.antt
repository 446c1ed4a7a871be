-- ===== src/Proto/Handshake/Negotiate.antt =====
-- What the negotiation of internal/proto/handshake.go agrees on.
use remote_assist_tool.Base.{
  ℕ, ◌≡◌, ◌⊎◌, ◌↔◌, refl, true, false, ◌||◌, List, [], ◌∷◌, ◌==◌, if◌then◌else◌, arith,
}
use remote_assist_tool.Base.Int.{pos, negsuc, ◌≤ℤ◌}
use remote_assist_tool.Proto.Handshake.{
  agreed, HelloAck, or_default, tool_protocol_version_v1, supported_tool_versions, version_rank,
  rank_from, satisfies_min_proto, peer_versions, offers, first_offered, negotiate_tool_version,
  better_version_than, interpret_hello_ack,
}

-- `v` is what the best common version is: the peer offers it, it satisfies the floor, and no
-- version that both know is newer.
pub record IsBest (single : ℕ) (list : List ℕ) (min_proto v : ℕ) : Type 0 where
  pub offered : offers (peer_versions single list) v ≡ true
  pub allowed : satisfies_min_proto v min_proto ≡ true
  pub newest :
      (u : ℕ)
      → (offers (peer_versions single list) u ≡ false)
        ⊎ (offers supported_tool_versions u ≡ false)
        ⊎ (version_rank v ≤ℤ version_rank u)

rank_1 : version_rank 1 ≡ pos 1
unfolding version_rank rank_from
rank_1 = refl

rank_2 : version_rank 2 ≡ pos 0
unfolding version_rank rank_from
rank_2 = refl

offers_two : (u : ℕ) → offers supported_tool_versions u ≡ (u == 2 || u == 1)
unfolding offers
offers_two u = ground arith

pub rank_cases :
    (v : ℕ) → version_rank v ≡ (if v == 2 then pos 0 else if v == 1 then pos 1 else negsuc 0)
unfolding version_rank rank_from
rank_cases v = ground arith

-- The negotiation agrees on a version exactly when it is the best that both sides support and the
-- floor allows.
pub negotiate_tool_version-IsBest :
    (single : ℕ) (list : List ℕ) (min_proto v : ℕ)
    → (negotiate_tool_version single list min_proto ≡ agreed v) ↔ IsBest single list min_proto v
unfolding negotiate_tool_version first_offered satisfies_min_proto
negotiate_tool_version-IsBest single list min_proto v = (
  λ e. record {
    offered = ground (arith, e);
    allowed = ground (arith, e, rank_1, rank_2);
    newest = λ u. ground (arith, e, rank_1, rank_2, offers_two u);
  },
  λ b. ground (
    arith,
    b.offered,
    b.allowed,
    b.newest 2,
    b.newest 1,
    rank_1,
    rank_2,
    rank_cases v,
    offers_two 1,
    offers_two 2,
  ),
)

better_none :
    (chosen : ℕ) (list : List ℕ) (floor u : ℕ)
    → better_version_than chosen list (or_default floor) ≡ 0
    → (offers list u ≡ false)
      ⊎ (satisfies_min_proto u floor ≡ false)
      ⊎ (version_rank chosen ≤ℤ version_rank u)
unfolding better_version_than offers satisfies_min_proto
better_none chosen [] floor u e = ground arith
better_none chosen (v ∷ rest) floor u e = ground (
  arith,
  e,
  better_none chosen rest floor u,
  rank_cases v,
  rank_cases u,
  rank_cases chosen,
  rank_cases (or_default floor),
)

-- What the initiator accepts is the version that the answer chose, 1 where it names none, satisfies
-- its own floor, and nothing that the answer says its sender supports is an acceptable and newer
-- version: an answer cannot talk it down.
pub interpret_hello_ack_agreed :
    (ack : HelloAck) (min_proto v u : ℕ)
    → interpret_hello_ack ack min_proto ≡ agreed v
    → (v ≡ (if ack.version == 0 then tool_protocol_version_v1 else ack.version))
      × (satisfies_min_proto v min_proto ≡ true)
      × ((offers ack.versions u ≡ false)
          ⊎ (satisfies_min_proto u min_proto ≡ false)
          ⊎ (version_rank v ≤ℤ version_rank u))
unfolding interpret_hello_ack satisfies_min_proto
interpret_hello_ack_agreed ack min_proto v u e =
    let chosen = if ack.version == 0 then tool_protocol_version_v1 else ack.version in
    (
      ground (arith, e),
      ground (arith, e),
      ground (arith, e, better_none chosen ack.versions min_proto u),
    )
