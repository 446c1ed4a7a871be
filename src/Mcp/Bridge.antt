-- ===== src/Mcp/Bridge.antt =====
-- internal/mcp/bridge.go: the Bridge, its connection to the tunnel and the calls that wait on it.
-- A connection is a number, a waiting call's channel is an Option (its buffer holds one reply), and
-- `outbox` lists what SendMessage was given, the latest first.
pub mod Call
pub mod Replies
pub mod Heard
pub mod Results
pub mod Waiting
pub mod Streaming
pub mod Whole
pub mod Provenance
pub mod Complete
use remote_assist_tool.Base.{
  ℕ, ◌+◌, ◌*◌, ◌%◌, Bool, true, false, List, [], ◌∷◌, Option, none, some, if◌then◌else◌,
}
use remote_assist_tool.Base.Dict.{Dict, lookup, insert, delete}
use remote_assist_tool.Proto.Aad.{Bytes}
use remote_assist_tool.Proto.Session.{Cipher, Session}
use remote_assist_tool.Mcp.Stream.{StreamRecv, new_stream_recv, StreamChunk, receive_chunk}

pub record ToolReq : Type 0 where
  pub id : ℕ
  pub tool : Bytes
  pub args : Bytes
  pub deadline_ms : ℕ

pub record ToolResp : Type 0 where
  pub id : ℕ
  pub ok : Bool
  pub result : Bytes
  pub error_code : Bytes
  pub error_msg : Bytes

pub record ToolReply : Type 0 where
  pub resp : ToolResp
  pub local : Bool

pub data CancelReason : Type 0 where
  ctx_cancelled : CancelReason
  deadline_exceeded : CancelReason

pub data Outgoing : Type 0 where
  tool_req : ToolReq → Outgoing
  tool_cancel : ℕ → CancelReason → Outgoing

pub record Bridge : Type 0 where
  pub conn : ℕ
  pub sess : Session
  pub next_id : ℕ
  pub pending : Dict (Option ToolReply)
  pub stream_cbs : Dict StreamRecv
  pub closed : Bool
  pub outbox : List (ℕ × Outgoing)

-- `epoch` is the random number of newIDEpoch, 0 if there is none.
abbrev pub new_bridge : ℕ → Session → ℕ → Bridge
new_bridge conn sess epoch = record {
  conn = conn;
  sess = sess;
  next_id = epoch % 4294967296 * 4294967296;
  pending = [];
  stream_cbs = [];
  closed = false;
  outbox = [];
}

unfoldable pub swap_conn : Bridge → ℕ → Session → Bridge
swap_conn b conn sess = record b { conn = conn; sess = sess }

-- A send into a channel that does not wait: a reply that is there stays.
abbrev pub offer : ToolReply → Option ToolReply → Option ToolReply
offer reply none = some reply
offer reply (some earlier) = some earlier

unfoldable pub wake_all : ToolReply → Dict (Option ToolReply) → Dict (Option ToolReply)
wake_all reply [] = []
wake_all reply ((j, ch) ∷ t) = (j, offer reply ch) ∷ wake_all reply t

-- "tunnel_lost", and the text for an error that is nil.
abbrev pub tunnel_lost : Bytes
tunnel_lost = 116 ∷ 117 ∷ 110 ∷ 110 ∷ 101 ∷ 108 ∷ 95 ∷ 108 ∷ 111 ∷ 115 ∷ 116 ∷ []

abbrev pub disconnect_text : Option Bytes → Bytes
disconnect_text (some err) = err
disconnect_text none =
    116 ∷ 117 ∷ 110 ∷ 110 ∷ 101 ∷ 108 ∷ 95 ∷ 108 ∷ 111 ∷ 115 ∷ 116 ∷ 58 ∷ 32 ∷ 233 ∷ 154 ∷ 167 ∷ 233
    ∷ 129 ∷ 147 ∷ 229 ∷ 183 ∷ 178 ∷ 230 ∷ 150 ∷ 173 ∷ 229 ∷ 188 ∷ 128 ∷ 239 ∷ 188 ∷ 140 ∷ 232 ∷ 175
    ∷ 183 ∷ 233 ∷ 135 ∷ 141 ∷ 230 ∷ 150 ∷ 176 ∷ 32 ∷ 99 ∷ 111 ∷ 110 ∷ 110 ∷ 101 ∷ 99 ∷ 116 ∷ []

abbrev pub lost_reply : Option Bytes → ToolReply
lost_reply err = record {
  resp = record {
    id = 0;
    ok = false;
    result = [];
    error_code = tunnel_lost;
    error_msg = disconnect_text err;
  };
  local = true;
}

unfoldable pub disconnect : Bridge → Option Bytes → Bridge
unfolding wake_all
disconnect b err =
    if b.closed
    then b
    else record b { closed = true; pending = wake_all (lost_reply err) b.pending }

-- HandleInbound; `undecodable` is a payload that does not decode or a message of another type.
pub data Inbound : Type 0 where
  tool_resp : ToolResp → Inbound
  tool_stream : StreamChunk → Inbound
  undecodable : Inbound

unfoldable pub handle_resp : Bridge → ToolResp → Bridge
handle_resp b r = elim (lookup r.id b.pending) [
  | none ↦ b
  | some ch ↦ record b {
    pending = insert r.id (offer (record { resp = r; local = false }) ch) b.pending;
  }
]

unfoldable pub handle_stream : Cipher → Bridge → StreamChunk → Bridge
handle_stream cipher b c = elim (lookup c.id b.stream_cbs) [
  | none ↦ b
  | some recv ↦ record b {
    stream_cbs = insert c.id (receive_chunk cipher b.sess recv c) b.stream_cbs;
  }
]

unfoldable pub handle_inbound : Cipher → Bridge → Inbound → Bridge
unfolding handle_resp handle_stream
handle_inbound cipher b (tool_resp r) = handle_resp b r
handle_inbound cipher b (tool_stream c) = handle_stream cipher b c
handle_inbound cipher b undecodable = b

-- callToolInner's registration, and what it leaves undone by defer.
abbrev pub fresh_id : Bridge → ℕ
fresh_id b = (b.next_id + 1) % 18446744073709551616

unfoldable pub register_call : Bool → Bridge → Bridge
register_call streaming b = record b {
  next_id = fresh_id b;
  pending = insert (fresh_id b) none b.pending;
  stream_cbs = if streaming then insert (fresh_id b) new_stream_recv b.stream_cbs else b.stream_cbs;
}

unfoldable pub return_call : ℕ → Bool → Bridge → Bridge
return_call id streaming b = record b {
  pending = delete id b.pending;
  stream_cbs = if streaming then delete id b.stream_cbs else b.stream_cbs;
}

-- What other goroutines do to the bridge; `registered` and `returned` are of another call.
pub data Event : Type 0 where
  inbound : Inbound → Event
  disconnected : Option Bytes → Event
  swapped : ℕ → Session → Event
  registered : Bool → Event
  returned : ℕ → Bool → Event
  sent : ℕ → Outgoing → Event

unfoldable pub step : Cipher → Bridge → Event → Bridge
unfolding handle_inbound disconnect swap_conn register_call return_call
step cipher b (inbound m) = handle_inbound cipher b m
step cipher b (disconnected err) = disconnect b err
step cipher b (swapped conn sess) = swap_conn b conn sess
step cipher b (registered streaming) = register_call streaming b
step cipher b (returned id streaming) = return_call id streaming b
step cipher b (sent conn m) = record b { outbox = (conn, m) ∷ b.outbox }

unfoldable pub run : Cipher → List Event → Bridge → Bridge
unfolding step
run cipher [] b = b
run cipher (e ∷ es) b = run cipher es (step cipher b e)
