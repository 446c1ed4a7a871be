-- ===== src/Mcp/Bridge/Call.antt =====
-- internal/mcp/bridge.go: callToolInner, the course of one call.
use remote_assist_tool.Base.{
  ℕ, Bool, not, ◌&&◌, ltb, List, [], ◌∷◌, Option, none, some, if◌then◌else◌,
}
use remote_assist_tool.Base.Dict.{lookup}
use remote_assist_tool.Proto.Aad.{Bytes}
use remote_assist_tool.Proto.Session.{
  Cipher, Session, active, require_sealed_resp, require_stream_terminator, req_aad, resp_aad,
  aead_seal_json, aead_open_json,
}
use remote_assist_tool.Mcp.Stream.{new_stream_recv, StreamRecv, is_empty, status, settled}
use remote_assist_tool.Mcp.Bridge.{
  ToolReq, ToolResp, ToolReply, CancelReason, ctx_cancelled, deadline_exceeded, tool_req,
  tool_cancel, Bridge, fresh_id, register_call, return_call, Event, run,
}

pub data CallError : Type 0 where
  not_connected : CallError
  seal_failed : CallError
  send_failed : CallError
  no_response : CallError  -- the deadline is over
  cancelled : CallError
  lost : Bytes → Bytes → CallError  -- Disconnect's reply
  unsealed : CallError
  not_authentic : CallError
  remote : Bytes → Bytes → CallError  -- the code and the text that the other side sent
  no_end : ℕ → CallError  -- stream_incomplete without a terminator
  gaps : ℕ → CallError  -- stream_incomplete

pub data CallEnd : Type 0 where
  done : Bytes → CallEnd
  failed : CallError → CallEnd

-- What wakes the select.
pub data Wake : Type 0 where
  by_reply : Wake
  by_deadline : Wake
  by_cancel : Wake

-- What happens outside while a call goes on: the other goroutines before it registers itself,
-- until it looks at `closed` again, until it reads the connection, while it waits, and between two
-- readings of the stream's status; a nonce for the request, `none` if there is no random source;
-- whether SendMessage succeeds.
pub record Course : Type 0 where
  pub entering : List Event
  pub stored : List Event
  pub asking : List Event
  pub nonce : Option ℕ
  pub sends : Bool
  pub waiting : List Event
  pub wake : Wake
  pub settling : List (List Event)

-- "{}"
abbrev pub plain_args : Bytes → Bytes
plain_args args = if is_empty args then 123 ∷ 125 ∷ [] else args

unfoldable pub make_request : Cipher → Session → ℕ → Bytes → Bytes → Option ℕ → Option ToolReq
unfolding req_aad aead_seal_json
make_request cipher sess id tool args nonce =
    let req : ToolReq = record { id = id; tool = tool; args = args; deadline_ms = 0 } in
    if active sess
    then elim nonce [
      | none ↦ none
      | some n ↦ some (record req {
        args =
            aead_seal_json cipher sess.key n (plain_args args)
              (req_aad sess req.id req.tool req.deadline_ms);
      })
    ]
    else some req

abbrev pub judge : ToolResp → Bytes → CallEnd
judge resp result = if resp.ok then done result else failed (remote resp.error_code resp.error_msg)

abbrev pub judge_opened : ToolResp → Option Bytes → CallEnd
judge_opened resp none = failed not_authentic
judge_opened resp (some plain) = judge resp plain

unfoldable pub check_resp : Cipher → Session → ToolResp → CallEnd
check_resp cipher sess resp =
    if active sess && is_empty resp.result && require_sealed_resp sess
    then failed unsealed
    else if active sess && not (is_empty resp.result)
    then judge_opened resp (
        aead_open_json cipher sess.key resp.result
          (resp_aad sess resp.id resp.ok resp.error_code resp.error_msg))
    else judge resp resp.result

unfoldable pub check_stream : Session → ℕ × Bool → Bytes → CallEnd
check_stream sess (n, finished) result =
    if not finished && require_stream_terminator sess
    then failed (no_end n)
    else if ltb 0 n
    then failed (gaps n)
    else done result

-- The streamRecv that the call has registered.
abbrev pub recv_of : ℕ → Bridge → StreamRecv
recv_of id b = elim (lookup id b.stream_cbs) [ none ↦ new_stream_recv | some recv ↦ recv ]

-- settledStatus: readings until one is settled or the time is over.
unfoldable pub settled_status : Cipher → Bool → ℕ → List (List Event) → Bridge → Bridge × (ℕ × Bool)
unfolding run status
settled_status cipher need id [] b = (b, status (recv_of id b))
settled_status cipher need id (es ∷ rest) b =
    let later = settled_status cipher need id rest (run cipher es b) in
    if settled need (status (recv_of id b)) then (b, status (recv_of id b)) else later

-- What is left when the response has passed.
unfoldable pub after_check :
    Cipher → Bool → ℕ → Session → List (List Event) → Bridge → CallEnd → Bridge × CallEnd
unfolding settled_status check_stream
after_check cipher streaming id sess settling b (failed e) = (b, failed e)
after_check cipher streaming id sess settling b (done result) =
    let (b', st) = settled_status cipher (require_stream_terminator sess) id settling b in
    if streaming then (b', check_stream sess st result) else (b, done result)

-- The end of a call that has its reply.
unfoldable pub conclude :
    Cipher → Bool → ℕ → Session → List (List Event) → ToolReply → Bridge → Bridge × CallEnd
unfolding after_check
conclude cipher streaming id sess settling reply b =
    if reply.local
    then (b, failed (lost reply.resp.error_code reply.resp.error_msg))
    else after_check cipher streaming id sess settling b (check_resp cipher sess reply.resp)

-- The call's channel.
abbrev pub reply_of : ℕ → Bridge → Option ToolReply
reply_of id b = elim (lookup id b.pending) [ none ↦ none | some ch ↦ ch ]

abbrev pub send_cancel : ℕ → CancelReason → Bridge → Bridge
send_cancel id reason b = record b { outbox = (b.conn, tool_cancel id reason) ∷ b.outbox }

-- The select; without a reply it goes on waiting.
unfoldable pub await :
    Cipher → Bool → ℕ → Session → List (List Event) → Wake → Bridge → Bridge × Option CallEnd
unfolding conclude
await cipher streaming id sess settling by_deadline b =
    (send_cancel id deadline_exceeded b, some (failed no_response))
await cipher streaming id sess settling by_cancel b =
    (send_cancel id ctx_cancelled b, some (failed cancelled))
await cipher streaming id sess settling by_reply b = elim (reply_of id b) [
  | none ↦ (b, none)
  | some reply ↦
      let (b', end) = conclude cipher streaming id sess settling reply b in (b', some end)
]

-- The bridge when it has sent the request.
abbrev pub sent_bridge : Cipher → ℕ → Bytes → Bytes → Option ℕ → Bridge → Bridge
sent_bridge cipher id tool args nonce b = elim (make_request cipher b.sess id tool args nonce) [
  | none ↦ b
  | some req ↦ record b { outbox = (b.conn, tool_req req) ∷ b.outbox }
]

-- From the snapshot on.
unfoldable pub ask : Cipher → Bool → ℕ → Bytes → Bytes → Course → Bridge → Bridge × Option CallEnd
ask cipher streaming id tool args k b =
    let asked = sent_bridge cipher id tool args k.nonce b in
    let rest = await cipher streaming id b.sess k.settling k.wake (run cipher k.waiting asked) in
    elim (make_request cipher b.sess id tool args k.nonce) [
      | none ↦ (b, some (failed seal_failed))
      | some req ↦ if k.sends then rest else (asked, some (failed send_failed))
    ]

-- The number of the call, and the bridge when it looks at `closed` again and when it reads the
-- connection.
abbrev pub call_id : Cipher → Course → Bridge → ℕ
call_id cipher k b = fresh_id (run cipher k.entering b)

abbrev pub stored_bridge : Cipher → Bool → Course → Bridge → Bridge
stored_bridge cipher streaming k b =
    run cipher k.stored (register_call streaming (run cipher k.entering b))

abbrev pub asking_bridge : Cipher → Bool → Course → Bridge → Bridge
asking_bridge cipher streaming k b = run cipher k.asking (stored_bridge cipher streaming k b)

-- The defers of a call that has returned.
unfoldable pub finish_call : ℕ → Bool → Bridge × Option CallEnd → Bridge × Option CallEnd
finish_call id streaming (b, none) = (b, none)
finish_call id streaming (b, some end) = (return_call id streaming b, some end)

unfoldable pub call_tool_inner :
    Cipher → Bool → Bytes → Bytes → Course → Bridge → Bridge × Option CallEnd
call_tool_inner cipher streaming tool args k b =
    let id = call_id cipher k b in
    let again = stored_bridge cipher streaming k b in
    if b.closed
    then (b, some (failed not_connected))
    else finish_call id streaming (
        if again.closed
        then (again, some (failed not_connected))
        else ask cipher streaming id tool args k (asking_bridge cipher streaming k b))
