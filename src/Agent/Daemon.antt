-- ===== src/Agent/Daemon.antt =====
-- internal/agent/agent.go: the Daemon, what it lets through to a tool and how it answers. The tool, the
-- texts of outside errors and the nonces (`none` if there is no random source) are arguments.
pub mod Trips
pub mod Emit
pub mod Sink
pub mod Once
use remote_assist_tool.Base.{
  ℕ, zero, suc, ◌+◌, ◌-◌, ◌%◌, get_or, Bool, true, false, not, ◌&&◌, ◌||◌, List, [], ◌∷◌, ◌++◌,
  Option, none, some, map, leb, ltb, ◌==◌, if◌then◌else◌, length,
}
use remote_assist_tool.Base.Dict.{Dict, insert, delete, lookup}
use remote_assist_tool.Proto.Aad.{Bytes}
use remote_assist_tool.Proto.Session.{
  Cipher, Session, active, require_sealed_resp, anti_replay, req_aad, resp_aad, stream_aad,
  aead_seal_json, aead_open_json,
}
use remote_assist_tool.Mcp.Stream.{StreamChunk, is_empty}
use remote_assist_tool.Mcp.Bridge.{ToolReq, ToolResp, Inbound, tool_resp, tool_stream}
use remote_assist_tool.Agent.Replay.{ReplayGuard, reset, accept}

-- How many bytes of UTF-8 the white space has that the text starts with, 0 if there is none. A byte
-- that is missing is 0.
unfoldable pub space_width : Bytes → ℕ
space_width cs =
    let a = get_or cs 0 0 in
    let b = get_or cs 1 0 in
    let c = get_or cs 2 0 in
    if (leb 9 a && leb a 13) || a == 32
    then 1
    else if a == 194 && (b == 133 || b == 160)
    then 2
    else if (a == 225 && b == 154 && c == 128)
        || (a == 226 && b == 128 && ((leb 128 c && leb c 138) || c == 168 || c == 169 || c == 175))
        || (a == 226 && b == 129 && c == 159)
        || (a == 227 && b == 128 && c == 128)
    then 3
    else 0

-- What is left when the white space in front is gone; `left` bytes of it are still to come.
unfoldable pub trim_left : ℕ → Bytes → Bytes
unfolding space_width
trim_left left [] = []
trim_left (suc left) (c ∷ cs) = trim_left left cs
trim_left zero (c ∷ cs) =
    let rest = trim_left (space_width (c ∷ cs) - 1) cs in
    if space_width (c ∷ cs) == 0 then c ∷ cs else rest

-- "null" and white space
abbrev pub is_null : Bytes → Bool
is_null (a ∷ b ∷ c ∷ d ∷ rest) =
    a == 110 && b == 117 && c == 108 && d == 108 && is_empty (trim_left 0 rest)
is_null cs = false

unfoldable pub is_blank_args : Bytes → Bool
unfolding trim_left
is_blank_args raw = is_empty (trim_left 0 raw) || is_null (trim_left 0 raw)

-- Why a request does not reach a tool.
pub data Refusal : Type 0 where
  unauthenticated : Refusal
  decrypt_failed : Refusal
  replayed : Refusal

pub data Checked : Type 0 where
  refused : Refusal → Checked
  admitted : ToolReq → Checked

-- The arguments of a request in an active session.
unfoldable pub open_args : Cipher → Session → ToolReq → Checked
open_args cipher sess req =
    if is_blank_args req.args
    then refused unauthenticated
    else elim (aead_open_json cipher sess.key req.args
        (req_aad sess req.id req.tool req.deadline_ms)) [
          | none ↦ refused decrypt_failed
          | some plain ↦ admitted (record req { args = plain })
        ]

-- The guard is asked after the arguments have opened.
abbrev pub ask_guard : ReplayGuard × Bool → ToolReq → ReplayGuard × Checked
ask_guard (g, ok) req = (g, if ok then admitted req else refused replayed)

unfoldable pub check_replay : ℕ → Session → ReplayGuard → Checked → Option (ReplayGuard × Checked)
check_replay fuel sess g (refused why) = some (g, refused why)
check_replay fuel sess g (admitted req) =
    if anti_replay sess
    then elim (accept fuel g req.id) [ none ↦ none | some r ↦ some (ask_guard r req) ]
    else some (g, admitted req)

-- handleReq up to the tool; `none` if the guard's loop has not ended within the fuel.
unfoldable pub check_req :
    Cipher → ℕ → Session → ReplayGuard → ToolReq → Option (ReplayGuard × Checked)
check_req cipher fuel sess g req =
    if active sess
    then check_replay fuel sess g (open_args cipher sess req)
    else some (g, admitted req)

-- sendResp up to SendMessage.
abbrev pub plain_result : Bytes → Bytes
plain_result result = if is_empty result then 123 ∷ 125 ∷ [] else result

unfoldable pub seal_resp : Cipher → Session → Option ℕ → ToolResp → ToolResp
seal_resp cipher sess nonce resp =
    if not (active sess)
    then resp
    else if is_empty resp.result && not (require_sealed_resp sess)
    then resp
    else elim nonce [
      | none ↦ record resp { result = [] }
      | some n ↦ record resp {
        result =
            aead_seal_json cipher sess.key n (plain_result resp.result)
              (resp_aad sess resp.id resp.ok resp.error_code resp.error_msg);
      }
    ]

pub record ChunkSink : Type 0 where
  pub id : ℕ
  pub seq : ℕ
  pub active : Bool
  pub finished : Bool

abbrev pub new_sink : ℕ → Bool → ChunkSink
new_sink id wants_stream = record { id = id; seq = 0; active = wants_stream; finished = false }

-- A frame with its content sealed if the session is active; `none` without a nonce.
unfoldable pub seal_chunk : Cipher → Session → Option ℕ → StreamChunk → Option StreamChunk
seal_chunk cipher sess nonce c =
    if active sess
    then elim nonce [
      | none ↦ none
      | some n ↦ some (record c {
        bytes = cipher.seal sess.key n c.bytes (stream_aad sess c.id c.seq c.stream c.fin);
      })
    ]
    else some c

abbrev pub numbered : ChunkSink → Option StreamChunk → ChunkSink × Option StreamChunk
numbered s none = (s, none)
numbered s (some c) = (record s { seq = (s.seq + 1) % 4294967296 }, some c)

unfoldable pub sink_send :
    Cipher → Session → Option ℕ → ChunkSink → Bytes → Bytes → ChunkSink × Option StreamChunk
sink_send cipher sess nonce s stream content =
    if s.finished
    then (s, none)
    else numbered (record s { active = true })
        (seal_chunk cipher sess nonce
          (record { id = s.id; seq = s.seq; fin = false; stream = stream; bytes = content }))

unfoldable pub sink_finish :
    Cipher → Session → Option ℕ → ChunkSink → ChunkSink × Option StreamChunk
sink_finish cipher sess nonce s =
    if not s.active || s.finished
    then (s, none)
    else numbered (record s { finished = true })
        (seal_chunk cipher sess nonce
          (record { id = s.id; seq = s.seq; fin = true; stream = []; bytes = [] }))

pub record Daemon : Type 0 where
  pub conn : ℕ
  pub sess : Session
  pub replay : ReplayGuard
  pub cancels : Dict Bool  -- of the calls that run, whether they have been cancelled
  pub outbox : List (ℕ × Inbound)

abbrev same_session : Session → Session → Bool
same_session s t = s.key == t.key && s.version == t.version

unfoldable pub cancel_all : Dict Bool → Dict Bool
cancel_all [] = []
cancel_all ((j, c) ∷ t) = (j, true) ∷ cancel_all t

unfoldable pub rotate_session : Daemon → Session → Daemon
unfolding reset cancel_all
rotate_session d sess =
    if same_session d.sess sess
    then record d { sess = sess }
    else record d { sess = sess; replay = reset d.replay; cancels = cancel_all d.cancels }

unfoldable pub swap_conn : Daemon → ℕ → Session → Daemon
unfolding rotate_session
swap_conn d conn sess = rotate_session (record d { conn = conn }) sess

unfoldable pub send_resp : Cipher → Session → Option ℕ → ToolResp → Daemon → Daemon
unfolding seal_resp
send_resp cipher sess nonce resp d = record d {
  outbox = (d.conn, tool_resp (seal_resp cipher sess nonce resp)) ∷ d.outbox;
}

-- A cancel, for a call that runs.
unfoldable pub cancel_call : ℕ → Daemon → Daemon
cancel_call id d = elim (lookup id d.cancels) [
  | none ↦ d
  | some c ↦ record d { cancels = insert id true d.cancels }
]
