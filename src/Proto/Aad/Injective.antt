-- ===== src/Proto/Aad/Injective.antt =====
-- What the authenticated data of internal/proto/aad.go bind: every field, and the kind of message.
use remote_assist_tool.Base.{
  ℕ, ◌%◌, ◌<◌, ◌≡◌, ◌≢◌, refl, sym, ◌∙◌, arith, Bool, true, false, [], ◌∷◌, ◌++◌, length,
  length-append, if◌then◌else◌,
}
use mathlib.Core.List.{append_assoc}
use remote_assist_tool.Proto.Aad.{
  Bytes, put_uint32, put_uint64, add_string, add_uint64, add_uint32, add_bool, new_aad_builder,
  aad_tag_tool_req, aad_tag_tool_resp, aad_tag_stream_chunk, tool_req_aad, tool_resp_aad,
  stream_chunk_aad,
}
use remote_assist_tool.Proto.Aad.Layout.{
  append_split, append_split_end, put_uint32-inj, put_uint64-inj, four, eight, string_cancel,
}

-- The authenticated data of a request, of a response and of a frame are never equal to one
-- another, whatever their contents.
pub aad_separates :
    (id id' dl seq : ℕ) (tool ec em stream : Bytes) (ok fin : Bool)
    → (tool_req_aad id tool dl ≢ tool_resp_aad id' ok ec em)
      × (tool_req_aad id tool dl ≢ stream_chunk_aad id' seq stream fin)
      × (tool_resp_aad id ok ec em ≢ stream_chunk_aad id' seq stream fin)
unfolding tool_req_aad tool_resp_aad stream_chunk_aad new_aad_builder add_string add_uint64
    add_uint32 add_bool put_uint32
aad_separates id id' dl seq tool ec em stream ok fin =
    (λ e. ground (arith, e), λ e. ground (arith, e), λ e. ground (arith, e))

-- The tag and the ID.
head : Bytes → ℕ → Bytes
head tag id = add_uint64 (new_aad_builder tag) id

head-inj :
    (tag : Bytes) (id id' : ℕ)
    → id < 18446744073709551616
    → id' < 18446744073709551616
    → head tag id ≡ head tag id'
    → id ≡ id'
unfolding head add_uint64
head-inj tag id id' h k e =
    put_uint64-inj id id' h k
      (append_split (new_aad_builder tag) (new_aad_builder tag) (put_uint64 id) (put_uint64 id')
        refl e).1

head-length : (tag : Bytes) (id id' : ℕ) → length (head tag id) ≡ length (head tag id')
unfolding head add_uint64
head-length tag id id' = ground (
  arith,
  length-append (new_aad_builder tag) (put_uint64 id),
  length-append (new_aad_builder tag) (put_uint64 id'),
  eight id,
  eight id',
)

-- Two requests with the same authenticated data have the same ID, tool and deadline, for IDs of 64
-- bits, deadlines of 32 bits and tool names shorter than 2^32 bytes.
pub tool_req_aad-inj :
    (id id' : ℕ) (tool tool' : Bytes) (dl dl' : ℕ)
    → id < 18446744073709551616
    → id' < 18446744073709551616
    → length tool < 4294967296
    → length tool' < 4294967296
    → dl < 4294967296
    → dl' < 4294967296
    → tool_req_aad id tool dl ≡ tool_req_aad id' tool' dl'
    → (id ≡ id') × (tool ≡ tool') × (dl ≡ dl')
unfolding tool_req_aad add_uint32 head
tool_req_aad-inj id id' tool tool' dl dl' a b c d f g e =
    let (p, q, r) =
      string_cancel (head aad_tag_tool_req id) (head aad_tag_tool_req id') tool tool'
        (put_uint32 dl) (put_uint32 dl') (head-length aad_tag_tool_req id id') c d e in
    (head-inj aad_tag_tool_req id id' a b p, q, put_uint32-inj dl dl' f g r)

flagged :
    (xs ys : Bytes) (v w : Bool)
    → length xs ≡ length ys
    → length (add_bool xs v) ≡ length (add_bool ys w)
unfolding add_bool
flagged xs ys v w h = ground (
  arith,
  h,
  length-append xs ((if v then 1 else 0) ∷ []),
  length-append ys ((if w then 1 else 0) ∷ []),
)

-- The byte of a flag.
abbrev flag : Bool → Bytes
flag v = (if v then 1 else 0) ∷ []

bit-inj : (v w : Bool) → flag v ≡ flag w → v ≡ w
bit-inj true true e = refl
bit-inj true false e = absurd (ground (arith, e))
bit-inj false true e = absurd (ground (arith, e))
bit-inj false false e = refl

flag-inj : (xs ys : Bytes) (v w : Bool) → add_bool xs v ≡ add_bool ys w → (xs ≡ ys) × (v ≡ w)
unfolding add_bool
flag-inj xs ys v w e =
    let (p, q) =
      append_split_end xs ys ((if v then 1 else 0) ∷ []) ((if w then 1 else 0) ∷ []) refl e in
    (p, bit-inj v w q)

-- Two responses with the same authenticated data have the same ID, status, error code and error
-- text, for IDs of 64 bits and error codes shorter than 2^32 bytes.
pub tool_resp_aad-inj :
    (id id' : ℕ) (ok ok' : Bool) (code code' msg msg' : Bytes)
    → id < 18446744073709551616
    → id' < 18446744073709551616
    → length code < 4294967296
    → length code' < 4294967296
    → tool_resp_aad id ok code msg ≡ tool_resp_aad id' ok' code' msg'
    → (id ≡ id') × (ok ≡ ok') × (code ≡ code') × (msg ≡ msg')
unfolding tool_resp_aad add_bool head add_string
tool_resp_aad-inj id id' ok ok' code code' msg msg' a b c d e =
    let l = put_uint32 (length msg % 4294967296) in
    let l' = put_uint32 (length msg' % 4294967296) in
    let q = add_bool (head aad_tag_tool_resp id) ok in
    let q' = add_bool (head aad_tag_tool_resp id') ok' in
    let same : length q ≡ length q' =
      flagged (head aad_tag_tool_resp id) (head aad_tag_tool_resp id') ok ok'
        (head-length aad_tag_tool_resp id id') in
    let flat : add_string q code ++ (l ++ msg) ≡ add_string q' code' ++ (l' ++ msg') =
      sym (append_assoc (add_string q code) l msg)
      ∙ e
      ∙ append_assoc (add_string q' code') l' msg' in
    let (u, v, w) = string_cancel q q' code code' (l ++ msg) (l' ++ msg') same c d flat in
    let (x, y) = flag-inj (head aad_tag_tool_resp id) (head aad_tag_tool_resp id') ok ok' u in
    (
      head-inj aad_tag_tool_resp id id' a b x,
      y,
      v,
      (append_split l l' msg msg'
          (four (length msg % 4294967296) ∙ sym (four (length msg' % 4294967296))) w).1,
    )

-- Two frames with the same authenticated data have the same ID, number, stream and end mark, for
-- IDs of 64 bits, numbers of 32 bits and stream names shorter than 2^32 bytes.
pub stream_chunk_aad-inj :
    (id id' seq seq' : ℕ) (stream stream' : Bytes) (fin fin' : Bool)
    → id < 18446744073709551616
    → id' < 18446744073709551616
    → seq < 4294967296
    → seq' < 4294967296
    → length stream < 4294967296
    → length stream' < 4294967296
    → stream_chunk_aad id seq stream fin ≡ stream_chunk_aad id' seq' stream' fin'
    → (id ≡ id') × (seq ≡ seq') × (stream ≡ stream') × (fin ≡ fin')
unfolding stream_chunk_aad add_uint32 add_bool head
stream_chunk_aad-inj id id' seq seq' stream stream' fin fin' a b c d f g e =
    let h = head aad_tag_stream_chunk id in
    let h' = head aad_tag_stream_chunk id' in
    let same : length (h ++ put_uint32 seq) ≡ length (h' ++ put_uint32 seq') = ground (
      arith,
      head-length aad_tag_stream_chunk id id',
      length-append h (put_uint32 seq),
      length-append h' (put_uint32 seq'),
      four seq,
      four seq',
    ) in
    let (u, v, w) =
      string_cancel (h ++ put_uint32 seq) (h' ++ put_uint32 seq') stream stream'
        ((if fin then 1 else 0) ∷ []) ((if fin' then 1 else 0) ∷ []) same f g e in
    let (x, y) =
      append_split h h' (put_uint32 seq) (put_uint32 seq') (head-length aad_tag_stream_chunk id id')
        u in
    (
      head-inj aad_tag_stream_chunk id id' a b x,
      put_uint32-inj seq seq' c d y,
      v,
      bit-inj fin fin' w,
    )
