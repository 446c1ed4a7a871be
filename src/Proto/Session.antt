-- ===== src/Proto/Session.antt =====
-- internal/proto/session.go and internal/proto/aead.go: what a handshake leaves, and the sealing with
-- it. A key is a number, 0 for the zero key; a version is as in Handshake, 0 for the empty text. The
-- cipher and the text form of a ciphertext come from packages outside and are parameters.
use remote_assist_tool.Base.{ℕ, Bool, not, [], ◌∷◌, Option, none, some, ◌≡◌, ◌==◌, if◌then◌else◌}
use remote_assist_tool.Proto.Handshake.{tool_protocol_version, tool_protocol_version_v1}
use remote_assist_tool.Proto.Aad.{Bytes, tool_req_aad, tool_resp_aad, stream_chunk_aad}

-- XChaCha20-Poly1305 of golang.org/x/crypto with its nonce in front of the ciphertext, and the
-- base64 text in a JSON string that encoding/json and encoding/base64 make of it. What is sealed opens
-- with the same key and the same authenticated data, and the text starts with a quote.
pub record Cipher : Type 0 where
  pub seal : ℕ → ℕ → Bytes → Bytes → Bytes  -- key, nonce, plain, aad
  pub open_ : ℕ → Bytes → Bytes → Option Bytes  -- key, ciphertext, aad
  pub wrap : Bytes → Bytes
  pub unwrap : Bytes → Option Bytes
  pub open-seal :
      (key nonce : ℕ) (plain aad : Bytes) → open_ key (seal key nonce plain aad) aad ≡ some plain
  pub unwrap-wrap : (ct : Bytes) → unwrap (wrap ct) ≡ some ct
  pub wrap-quote : (ct : Bytes) → (rest : Bytes) × (wrap ct ≡ 34 ∷ rest)

unfoldable pub aead_seal_json : Cipher → ℕ → ℕ → Bytes → Bytes → Bytes
aead_seal_json c key nonce plain aad = c.wrap (c.seal key nonce plain aad)

unfoldable pub aead_open_json : Cipher → ℕ → Bytes → Bytes → Option Bytes
aead_open_json c key raw aad = elim (c.unwrap raw) [ none ↦ none | some ct ↦ c.open_ key ct aad ]

-- What AEADSealJSON writes, AEADOpenJSON reads back.
pub aead_open_json-aead_seal_json :
    (c : Cipher) (key nonce : ℕ) (plain aad : Bytes)
    → aead_open_json c key (aead_seal_json c key nonce plain aad) aad ≡ some plain
unfolding aead_open_json aead_seal_json
aead_open_json-aead_seal_json c key nonce plain aad =
    rw (aead_open_json, aead_seal_json, c.unwrap-wrap (c.seal key nonce plain aad))
      (c.open-seal key nonce plain aad)

pub aead_seal_json-quote :
    (c : Cipher) (key nonce : ℕ) (plain aad : Bytes)
    → (rest : Bytes) × (aead_seal_json c key nonce plain aad ≡ 34 ∷ rest)
unfolding aead_seal_json
aead_seal_json-quote c key nonce plain aad = c.wrap-quote (c.seal key nonce plain aad)

pub record Session : Type 0 where
  pub key : ℕ
  pub version : ℕ

abbrev pub active : Session → Bool
active s = not (s.key == 0)

abbrev pub effective_version : Session → ℕ
effective_version s = if s.version == 0 then tool_protocol_version else s.version

abbrev pub legacy : Session → Bool
legacy s = effective_version s == tool_protocol_version_v1

abbrev pub require_sealed_resp : Session → Bool
require_sealed_resp s = not (legacy s)

abbrev pub require_stream_terminator : Session → Bool
require_stream_terminator s = not (legacy s)

abbrev pub anti_replay : Session → Bool
anti_replay s = not (legacy s)

unfoldable pub req_aad : Session → ℕ → Bytes → ℕ → Bytes
unfolding tool_req_aad
req_aad s id tool deadline_ms = if legacy s then [] else tool_req_aad id tool deadline_ms

unfoldable pub resp_aad : Session → ℕ → Bool → Bytes → Bytes → Bytes
unfolding tool_resp_aad
resp_aad s id ok error_code error_msg =
    if legacy s then [] else tool_resp_aad id ok error_code error_msg

unfoldable pub stream_aad : Session → ℕ → ℕ → Bytes → Bool → Bytes
unfolding stream_chunk_aad
stream_aad s id seq stream fin = if legacy s then [] else stream_chunk_aad id seq stream fin
