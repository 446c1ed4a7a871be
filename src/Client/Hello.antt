-- ===== src/Client/Hello.antt =====
-- The handshake between the helper (internal/client/help_mcp.go) and the share
-- (internal/client/share.go) through a relay that neither trusts. The nonces and the keys are not
-- modelled here, only the versions.
use remote_assist_tool.Base.{
  ℕ, ◌≡◌, ◌≢◌, ◌⊎◌, inl, inr, refl, sym, subst, true, false, if◌then◌else◌, arith,
}
use remote_assist_tool.Proto.Handshake.{
  Outcome, agreed, incompatible, rejected, unknown_version, suspicious, unsupported_floor, Hello,
  HelloAck, or_default, tool_protocol_version, satisfies_min_proto, offers, negotiate_tool_version,
  interpret_hello_ack, supported_down_to, keep_down_to, new_hello, new_fallback_hello,
  should_retry_with_fallback_anchor, normalize_min_proto,
}
use remote_assist_tool.Proto.Handshake.Negotiate.{rank_cases, interpret_hello_ack_agreed}

abbrev pub ack_of : Outcome → ℕ → HelloAck
ack_of (agreed v) min_proto = record {
  accept = true;
  version = v;
  versions = supported_down_to min_proto;
}
ack_of o min_proto = record {
  accept = false;
  version = tool_protocol_version;
  versions = supported_down_to min_proto;
}

unfoldable pub build_hello_ack : Hello → ℕ → HelloAck
build_hello_ack hello min_proto =
    ack_of (negotiate_tool_version hello.version hello.versions min_proto) min_proto

-- `answer` is what comes back for the first and the second Hello: anything at all.
unfoldable pub handshake_tool : (ℕ → Hello → HelloAck) → ℕ → Outcome
handshake_tool answer min_proto =
    let ack = answer 0 (new_hello min_proto) in
    if should_retry_with_fallback_anchor ack min_proto
    then interpret_hello_ack (answer 1 (new_fallback_hello min_proto)) min_proto
    else interpret_hello_ack ack min_proto

-- The floor is one that NormalizeMinProto lets through.
abbrev pub IsFloor : ℕ → Type 0
IsFloor m = normalize_min_proto m ≢ unsupported_floor

offers_v2 : (m : ℕ) → IsFloor m → offers (supported_down_to m) 2 ≡ true
unfolding normalize_min_proto supported_down_to keep_down_to offers
offers_v2 m f = ground (arith, f, rank_cases m, rank_cases 1, rank_cases 2)

ack_versions : (o : Outcome) (n : ℕ) → (ack_of o n).versions ≡ supported_down_to n
ack_versions (agreed v) n = refl
ack_versions (incompatible a b) n = refl
ack_versions rejected n = refl
ack_versions (unknown_version a) n = refl
ack_versions (suspicious a b) n = refl
ack_versions unsupported_floor n = refl

-- Two sides that both know version 2 never agree on less, whatever floors they are given and
-- whatever a relay does to the Hello: the answer of the share always says that it knows version 2.
pub no_downgrade :
    (hello : Hello) (share_floor help_floor v : ℕ)
    → IsFloor share_floor
    → interpret_hello_ack (build_hello_ack hello share_floor) help_floor ≡ agreed v
    → v ≡ 2
unfolding build_hello_ack satisfies_min_proto
no_downgrade hello n m v f e = ground (
  arith,
  interpret_hello_ack_agreed (build_hello_ack hello n) m v 2 e,
  ack_versions (negotiate_tool_version hello.version hello.versions n) n,
  offers_v2 n f,
  rank_cases 2,
  rank_cases v,
  rank_cases (or_default m),
)

floor_cases : (m : ℕ) → IsFloor m → (m ≡ 0) ⊎ (m ≡ 1) ⊎ (m ≡ 2)
unfolding normalize_min_proto
floor_cases m f = ground (arith, f, rank_cases m)

-- The first answer of an honest share is one that the helper accepts.
Honest : ℕ → ℕ → Type 0
Honest n m = handshake_tool (λ i hello. build_hello_ack hello n) m ≡ agreed 2

Honest-help : (n m : ℕ) → Honest n 0 × Honest n 1 × Honest n 2 → IsFloor m → Honest n m
Honest-help n m (a, b, c) g = elim (floor_cases m g) [
  | inl e ↦ subst (Honest n) (sym e) a
  | inr (inl e) ↦ subst (Honest n) (sym e) b
  | inr (inr e) ↦ subst (Honest n) (sym e) c
]

-- When the answers of the share reach the helper unchanged, the two agree on version 2, whatever
-- floors they are given that the code knows.
pub handshake_tool_agrees :
    (share_floor help_floor : ℕ)
    → IsFloor share_floor
    → IsFloor help_floor
    → handshake_tool (λ i hello. build_hello_ack hello share_floor) help_floor ≡ agreed 2
unfolding handshake_tool build_hello_ack Honest should_retry_with_fallback_anchor
    negotiate_tool_version new_hello supported_down_to interpret_hello_ack
handshake_tool_agrees n m f g = elim (floor_cases n f) [
  | inl e ↦ subst (λ k. Honest k m) (sym e) (Honest-help 0 m (refl, refl, refl) g)
  | inr (inl e) ↦ subst (λ k. Honest k m) (sym e) (Honest-help 1 m (refl, refl, refl) g)
  | inr (inr e) ↦ subst (λ k. Honest k m) (sym e) (Honest-help 2 m (refl, refl, refl) g)
]
