-- ===== src/Proto/Aad.antt =====
-- internal/proto/aad.go: the data that the AEAD authenticates beside the ciphertext. A text is the
-- list of its bytes; `uint32(len(s))` wraps around.
pub mod Layout
pub mod Injective
use remote_assist_tool.Base.{
  ℕ, ◌+◌, ◌%◌, ◌/◌, Bool, true, false, List, [], ◌∷◌, ◌++◌, length, if◌then◌else◌,
}

abbrev pub Bytes : Type 0
Bytes = List ℕ

-- binary.BigEndian.PutUint32
unfoldable pub put_uint32 : ℕ → Bytes
put_uint32 v = v / 16777216 % 256 ∷ v / 65536 % 256 ∷ v / 256 % 256 ∷ v % 256 ∷ []

-- binary.BigEndian.PutUint64
unfoldable pub put_uint64 : ℕ → Bytes
unfolding put_uint32
put_uint64 v = put_uint32 (v / 4294967296) ++ put_uint32 v

unfoldable pub add_string : Bytes → Bytes → Bytes
unfolding put_uint32
add_string buf s = (buf ++ put_uint32 (length s % 4294967296)) ++ s

unfoldable pub add_uint64 : Bytes → ℕ → Bytes
unfolding put_uint64
add_uint64 buf v = buf ++ put_uint64 v

unfoldable pub add_uint32 : Bytes → ℕ → Bytes
unfolding put_uint32
add_uint32 buf v = buf ++ put_uint32 v

unfoldable pub add_bool : Bytes → Bool → Bytes
add_bool buf v = buf ++ (if v then 1 else 0) ∷ []

unfoldable pub new_aad_builder : Bytes → Bytes
unfolding add_string
new_aad_builder tag = add_string [] tag

-- "req", "resp" and "chunk"
abbrev pub aad_tag_tool_req : Bytes
aad_tag_tool_req = 114 ∷ 101 ∷ 113 ∷ []

abbrev pub aad_tag_tool_resp : Bytes
aad_tag_tool_resp = 114 ∷ 101 ∷ 115 ∷ 112 ∷ []

abbrev pub aad_tag_stream_chunk : Bytes
aad_tag_stream_chunk = 99 ∷ 104 ∷ 117 ∷ 110 ∷ 107 ∷ []

unfoldable pub tool_req_aad : ℕ → Bytes → ℕ → Bytes
unfolding new_aad_builder add_uint64 add_string add_uint32
tool_req_aad id tool deadline_ms =
    add_uint32 (add_string (add_uint64 (new_aad_builder aad_tag_tool_req) id) tool) deadline_ms

unfoldable pub tool_resp_aad : ℕ → Bool → Bytes → Bytes → Bytes
unfolding new_aad_builder add_uint64 add_string add_bool
tool_resp_aad id ok error_code error_msg =
    add_string
      (add_string (add_bool (add_uint64 (new_aad_builder aad_tag_tool_resp) id) ok) error_code)
      error_msg

unfoldable pub stream_chunk_aad : ℕ → ℕ → Bytes → Bool → Bytes
unfolding new_aad_builder add_uint64 add_string add_uint32 add_bool
stream_chunk_aad id seq stream fin =
    add_bool
      (add_string (add_uint32 (add_uint64 (new_aad_builder aad_tag_stream_chunk) id) seq) stream)
      fin
