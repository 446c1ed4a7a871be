-- ===== src/Examples/Mcp.antt =====
-- The bridge at one streaming call, whose second frame comes first and whose connection is swapped.
use remote_assist_tool.Base.{
  ℕ, ◌+◌, ◌≤◌, ◌≡◌, refl, Bool, true, false, ◌||◌, List, [], ◌∷◌, Option, none, some, ◌==◌,
  if◌then◌else◌, ==_refl, if_true, arith,
}
use remote_assist_tool.Base.Dict.{lookup, insert, delete, size}
use remote_assist_tool.Proto.Aad.{Bytes}
use remote_assist_tool.Proto.Session.{Cipher, Session, legacy, aead_seal_json, aead_open_json}
use remote_assist_tool.Mcp.Stream.{
  StreamChunk, Frame, gap_loop, observe, gap_count, status, deliver, received, receive_chunk,
  receive_all, chunk_plain,
}
use remote_assist_tool.Mcp.Stream.Tracks.{AllSmall, arrived}
use remote_assist_tool.Mcp.Stream.Complete.{
  Accounts, broken, ended, receive_all-Accounts, gap_count_settles,
}
use remote_assist_tool.Mcp.Bridge.{
  ToolResp, Bridge, new_bridge, handle_resp, handle_stream, handle_inbound, tool_resp, tool_stream,
  register_call, return_call, swap_conn, inbound, swapped, step, run,
}
use remote_assist_tool.Mcp.Bridge.Call.{
  done, Course, by_reply, make_request, check_resp, check_stream, settled_status, after_check,
  conclude, await, ask, finish_call, call_tool_inner,
}
use remote_assist_tool.Mcp.Bridge.Results.{Sealed}
use remote_assist_tool.Mcp.Bridge.Streaming.{frames, settled_frames}
use remote_assist_tool.Mcp.Bridge.Whole.{waiting_bridge, call_wakes}
use remote_assist_tool.Mcp.Bridge.Provenance.{call_result-Sealed}
use remote_assist_tool.Mcp.Bridge.Complete.{call_frames, stream_call_complete}

-- A ciphertext is the key in front of the text.
abbrev open_toy : ℕ → Bytes → Bytes → Option Bytes
open_toy key [] aad = none
open_toy key (k ∷ plain) aad = if k == key then some plain else none

abbrev unquote : Bytes → Option Bytes
unquote [] = none
unquote (c ∷ cs) = some cs

abbrev pub toy : Cipher
toy = record {
  seal = λ key nonce plain aad. key ∷ plain;
  open_ = open_toy;
  wrap = λ ct. 34 ∷ ct;
  unwrap = unquote;
  open-seal = λ key nonce plain aad. if_true (key == key) (some plain) none (==_refl key);
  unwrap-wrap = λ ct. refl;
  wrap-quote = λ ct. (ct, refl);
}

abbrev pub sess : Session
sess = record { key = 5; version = 2 }

abbrev start : Bridge
start = new_bridge 1 sess 0

abbrev chunk : ℕ → Bool → StreamChunk
chunk seq fin = record {
  id = 1;
  seq = seq;
  fin = fin;
  stream = 1 ∷ [];
  bytes = 5 ∷ (40 + seq) ∷ [];
}

abbrev answer : ToolResp
answer = record { id = 1; ok = true; result = 34 ∷ 5 ∷ 7 ∷ []; error_code = []; error_msg = [] }

-- The last frame and the answer come first, over a new connection.
abbrev course : Course
course = record {
  entering = [];
  stored = [];
  asking = [];
  nonce = some 9;
  sends = true;
  waiting = inbound (tool_stream (chunk 1 true)) ∷ swapped 2 sess ∷ inbound (tool_resp answer) ∷ [];
  wake = by_reply;
  settling = (inbound (tool_stream (chunk 0 false)) ∷ []) ∷ [];
}

-- The same without an answer.
abbrev unanswered : Course
unanswered = record course { waiting = swapped 2 sess ∷ [] }

call_returns : (call_tool_inner toy true [] [] course start).1 ≡ some (done (7 ∷ []))
unfolding call_tool_inner ask await conclude after_check settled_status check_stream check_resp
    make_request finish_call run step register_call return_call handle_inbound handle_resp
    handle_stream receive_chunk received deliver observe gap_loop gap_count status chunk_plain
    aead_open_json aead_seal_json swap_conn lookup insert delete size
call_returns = refl

call_waits : (call_tool_inner toy true [] [] unanswered start).1 ≡ none
unfolding call_tool_inner ask await make_request finish_call run step register_call swap_conn lookup
    insert
call_waits = refl

call_result-Sealed_example : Sealed toy sess 1 course.waiting (7 ∷ [])
unfolding run step register_call swap_conn
call_result-Sealed_example =
    call_result-Sealed toy true [] [] course start (7 ∷ []) refl refl call_returns

call_wakes_example : (waiting_bridge toy true [] [] unanswered start).closed ≡ false
call_wakes_example = call_wakes toy true [] [] unanswered start (tt, tt, (tt, tt)) call_waits

small : AllSmall (call_frames toy true [] [] course start)
unfolding settled_frames frames run step register_call handle_inbound handle_resp handle_stream
    receive_chunk received deliver observe gap_loop gap_count status chunk_plain make_request
    swap_conn lookup insert delete size
small = (omega arith, (omega arith, tt))

stream_call_complete_example :
    (broken toy (call_frames toy true [] [] course start) ≡ 0)
    × ((last y : ℕ)
        → arrived last (call_frames toy true [] [] course start) ≡ true
        → y ≤ last
        → arrived y (call_frames toy true [] [] course start) ≡ true)
    × ((ended toy (call_frames toy true [] [] course start) || legacy sess) ≡ true)
unfolding run
stream_call_complete_example =
    stream_call_complete toy true [] [] course start (7 ∷ []) refl (tt, tt, (tt, (tt, (tt, tt))))
      ((tt, tt), tt) small call_returns

abbrev twice : List Frame
twice = (sess, chunk 0 false) ∷ (sess, chunk 1 true) ∷ (sess, chunk 0 false) ∷ []

receive_all-Accounts_example : Accounts toy (receive_all toy twice) twice
receive_all-Accounts_example = receive_all-Accounts toy twice

whole : broken toy twice ≡ 0
unfolding broken chunk_plain
whole = refl

dense : (last y : ℕ) → arrived last twice ≡ true → y ≤ last → arrived y twice ≡ true
unfolding arrived
dense last y came up = ground (arith, came, up)

gap_count_settles_example : gap_count (receive_all toy twice) ≡ 0
gap_count_settles_example =
    gap_count_settles toy twice (omega arith, (omega arith, (omega arith, tt))) whole dense
