-- ===== src/Examples/Protocol.antt =====
-- The replay window, the negotiation, the authenticated data and the token bucket, at concrete inputs.
use remote_assist_tool.Base.{
  ◌==◌, if◌then◌else◌, ℕ, ◌+◌, ◌*◌, ◌≤◌, ◌≡◌, ◌≢◌, ◌⊎◌, ◌↔◌, refl, true, false, List, [], ◌∷◌, none,
  some, arith, if◌then◌else◌,
}
use remote_assist_tool.Base.Int.{◌≤ℤ◌}
use remote_assist_tool.Agent.Replay.{ReplayGuard, reset, accept}
use remote_assist_tool.Agent.Replay.Refinement.{
  Represents, is_fresh, reset-Represents, accept_refines,
}
use remote_assist_tool.Agent.Replay.Once.{accept_last_diverges}
use remote_assist_tool.Proto.Handshake.{
  Hello, HelloAck, agreed, negotiate_tool_version, interpret_hello_ack, offers, satisfies_min_proto,
  version_rank, rank_from, better_version_than, supported_down_to, keep_down_to, peer_versions,
  first_offered, normalize_min_proto,
}
use remote_assist_tool.Proto.Handshake.Negotiate.{
  IsBest, negotiate_tool_version-IsBest, interpret_hello_ack_agreed,
}
use remote_assist_tool.Client.Hello.{build_hello_ack, no_downgrade}
use remote_assist_tool.Proto.Aad.{tool_req_aad, tool_resp_aad, stream_chunk_aad}
use remote_assist_tool.Proto.Aad.Injective.{tool_req_aad-inj, tool_resp_aad-inj, aad_separates}
use remote_assist_tool.Base.Dict.{lookup, size, insert}
use remote_assist_tool.Ratelimit.Keyed.{
  KeyedLimiter, new_keyed_limiter, keyed_allow_n, acquire, take_tokens, refill_keyed, back, remove,
}
use remote_assist_tool.Ratelimit.Keyed.Linked.{Linked}
use remote_assist_tool.Ratelimit.Keyed.Refines.{owed}
use remote_assist_tool.Ratelimit.Keyed.Runs.{keyed_run, keyed_allow_n_refines, keyed_run-Linked}
use remote_assist_tool.Ratelimit.Bucket.{Bucket, new_bucket, allow_n, granted, granted_le, Before}

abbrev fresh_guard : ReplayGuard
fresh_guard = reset (record { started = false; highest = 0; bits = λ w k. false })

accept_refines_example :
    (h : ReplayGuard) × (accept 1024 fresh_guard 5 ≡ some (h, is_fresh fresh_guard [] 5))
    × Represents h (if is_fresh fresh_guard [] 5 then 5 ∷ [] else [])
accept_refines_example =
    accept_refines 1024 (ground arith) fresh_guard []
      (reset-Represents (record { started = false; highest = 0; bits = λ w k. false })) 5
      (ground arith)

abbrev nearly_last : ReplayGuard
nearly_last = record { started = true; highest = 18446744073709551600; bits = λ w k. false }

accept_last_diverges_example : accept 2000 nearly_last 18446744073709551615 ≡ none
accept_last_diverges_example =
    accept_last_diverges 2000 nearly_last refl (ground arith) (ground arith)

negotiate_tool_version-IsBest_example :
    (negotiate_tool_version 1 (3 ∷ 1 ∷ []) 1 ≡ agreed 1) ↔ IsBest 1 (3 ∷ 1 ∷ []) 1 1
negotiate_tool_version-IsBest_example = negotiate_tool_version-IsBest 1 (3 ∷ 1 ∷ []) 1 1

-- A share of the first generation, which tells nothing but its one version.
abbrev old_ack : HelloAck
old_ack = record { accept = true; version = 1; versions = [] }

interpret_hello_ack_agreed_example :
    (old_ack.version ≡ (if old_ack.version == 0 then 1 else old_ack.version))
    × (satisfies_min_proto 1 1 ≡ true)
    × ((offers [] 2 ≡ false)
        ⊎ (satisfies_min_proto 2 1 ≡ false)
        ⊎ (version_rank 1 ≤ℤ version_rank 2))
unfolding interpret_hello_ack version_rank rank_from better_version_than
interpret_hello_ack_agreed_example = interpret_hello_ack_agreed old_ack 1 1 2 refl

abbrev honest_hello : Hello
honest_hello = record { version = 2; versions = 2 ∷ 1 ∷ [] }

abbrev version_two : ℕ
version_two = 2

no_downgrade_example : version_two ≡ 2
unfolding build_hello_ack interpret_hello_ack negotiate_tool_version version_rank rank_from
    better_version_than first_offered offers peer_versions supported_down_to keep_down_to
    normalize_min_proto
no_downgrade_example = no_downgrade honest_hello 1 1 version_two (λ e. ground (arith, e)) refl

abbrev call_id : ℕ
call_id = 1

abbrev number : ℕ
number = 30

abbrev name : List ℕ
name = 101 ∷ []

abbrev text : List ℕ
text = 102 ∷ []

tool_req_aad-inj_example : (call_id ≡ 1) × (name ≡ 101 ∷ []) × (number ≡ 30)
tool_req_aad-inj_example =
    tool_req_aad-inj call_id 1 name (101 ∷ []) number 30 (ground arith) (ground arith)
      (ground arith) (ground arith) (ground arith) (ground arith) refl

tool_resp_aad-inj_run : (call_id ≡ 1) × (true ≡ true) × (name ≡ 101 ∷ []) × (text ≡ 102 ∷ [])
tool_resp_aad-inj_run =
    tool_resp_aad-inj call_id 1 true true name (101 ∷ []) text (102 ∷ []) (ground arith)
      (ground arith) (ground arith) (ground arith) refl

aad_separates_example :
    (tool_req_aad 1 (101 ∷ []) 30 ≢ tool_resp_aad 1 true [] [])
    × (tool_req_aad 1 (101 ∷ []) 30 ≢ stream_chunk_aad 1 4 [] true)
    × (tool_resp_aad 1 true [] [] ≢ stream_chunk_aad 1 4 [] true)
aad_separates_example = aad_separates 1 1 30 4 (101 ∷ []) [] [] [] true true

granted_le_example : granted (new_bucket 2 10 0) ((1, 9) ∷ (2, 5) ∷ (3, 5) ∷ []) ≤ 10 + 3 * 2
unfolding Before
granted_le_example =
    granted_le 2 10 0 3 ((1, 9) ∷ (2, 5) ∷ (3, 5) ∷ []) (ground arith)
      (ground arith, (ground arith, (ground arith, tt)))

abbrev half_full : Bucket
half_full = record { rate = 2; burst = 10; tokens = 5; last = 0 }

abbrev small_limiter : KeyedLimiter
small_limiter = new_keyed_limiter 2 10 1 100

-- The only bucket belongs to the source 5 when the source 6 comes.
abbrev crowded : KeyedLimiter
crowded = keyed_run small_limiter ((1, 5, 8) ∷ [])

crowded-Linked : Linked crowded
crowded-Linked = (keyed_run-Linked 2 10 1 100 ((1, 5, 8) ∷ [])).1

abbrev inherited_bucket : Bucket
inherited_bucket = record { rate = 2; burst = 10; tokens = 2; last = 1 }

keyed_allow_n_refines_example :
    ((keyed_allow_n crowded 2 6 7).1 ≡ (allow_n inherited_bucket 2 7).1)
    × (owed (keyed_allow_n crowded 2 6 7).0 3 6 ≡ some (allow_n inherited_bucket 2 7).0)
unfolding owed keyed_run keyed_allow_n new_keyed_limiter acquire take_tokens refill_keyed lookup
    size insert back remove
keyed_allow_n_refines_example =
    keyed_allow_n_refines crowded 2 6 7 3 inherited_bucket crowded-Linked refl
