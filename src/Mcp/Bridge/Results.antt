-- ===== src/Mcp/Bridge/Results.antt =====
-- internal/mcp/bridge.go: what a call has checked when it returns a result.
use remote_assist_tool.Base.{
  ℕ, ◌≡◌, ap, subst, arith, Bool, true, false, not, ◌||◌, List, Option, none, some, Bool-cases,
  Option-cases, inl, inr,
}
use remote_assist_tool.Base.Dict.{lookup}
use remote_assist_tool.Proto.Aad.{Bytes, tool_resp_aad}
use remote_assist_tool.Proto.Session.{
  Cipher, Session, active, legacy, require_stream_terminator, resp_aad, aead_open_json,
}
use remote_assist_tool.Mcp.Stream.{is_empty}
use remote_assist_tool.Mcp.Bridge.{ToolResp, ToolReply, Bridge, Event}
use remote_assist_tool.Mcp.Bridge.Call.{
  CallEnd, done, failed, Wake, by_reply, by_deadline, by_cancel, judge, judge_opened, check_resp,
  check_stream, settled_status, after_check, conclude, reply_of, await,
}
use remote_assist_tool.Mcp.Bridge.Heard.{Heard}

-- The response that gives a call its result: it is one of those that the events brought in, it bears
-- the call's number and says that the call has gone well, and its ciphertext opens to the result
-- with just these as authenticated data.
pub record Sealed (cipher : Cipher) (sess : Session) (id : ℕ) (es : List Event) (result : Bytes)
    : Type 0 where
  pub resp : ToolResp
  pub heard : Heard resp es
  pub mine : resp.id ≡ id
  pub well : resp.ok ≡ true
  pub opens :
      aead_open_json cipher sess.key resp.result
        (tool_resp_aad id true resp.error_code resp.error_msg)
      ≡ some result

judge-done : (resp : ToolResp) (x y : Bytes) → judge resp x ≡ done y → (resp.ok ≡ true) × (x ≡ y)
judge-done resp x y e = ground (arith, e)

judge_opened-done :
    (resp : ToolResp) (content : Option Bytes) (y : Bytes)
    → judge_opened resp content ≡ done y
    → (resp.ok ≡ true) × (content ≡ some y)
judge_opened-done resp none y e = absurd (ground (arith, e))
judge_opened-done resp (some x) y e = let both = judge-done resp x y e in (both.0, ap some both.1)

check_stream-done :
    (sess : Session) (st : ℕ × Bool) (x y : Bytes)
    → check_stream sess st x ≡ done y
    → (x ≡ y) × (st.0 ≡ 0) × ((st.1 || not (require_stream_terminator sess)) ≡ true)
unfolding check_stream
check_stream-done sess (n, finished) x y e = ground (arith, e)

-- A stream that is whole when its status has settled.
abbrev pub StreamWhole : Cipher → Bool → ℕ → Session → List (List Event) → Bridge → Type 0
StreamWhole cipher streaming id sess settling b =
    let st = (settled_status cipher (require_stream_terminator sess) id settling b).1 in
    streaming ≡ true → (st.0 ≡ 0) × ((st.1 || not (require_stream_terminator sess)) ≡ true)

after_check-done :
    (cipher : Cipher) (streaming : Bool) (id : ℕ) (sess : Session) (settling : List (List Event))
    (b : Bridge) (end : CallEnd) (result : Bytes)
    → (after_check cipher streaming id sess settling b end).1 ≡ done result
    → (end ≡ done result) × StreamWhole cipher streaming id sess settling b
unfolding after_check
after_check-done cipher streaming id sess settling b (failed why) result e =
    absurd (ground (arith, e))
after_check-done cipher true id sess settling b (done x) result e =
    let st = (settled_status cipher (require_stream_terminator sess) id settling b).1 in
    let whole = check_stream-done sess st x result e in (ap done whole.0, λ h. (whole.1, whole.2))
after_check-done cipher false id sess settling b (done x) result e =
    (e, λ h. absurd (ground (arith, h)))

-- A call that returns a result got it in a reply from the tunnel that passed, and, if it streams, with
-- a stream that was whole.
pub await-done :
    (cipher : Cipher) (streaming : Bool) (id : ℕ) (sess : Session) (settling : List (List Event))
    (wake : Wake) (b : Bridge) (result : Bytes)
    → (await cipher streaming id sess settling wake b).1 ≡ some (done result)
    → (reply : ToolReply) × (lookup id b.pending ≡ some (some reply))
      × (reply.local ≡ false)
      × (check_resp cipher sess reply.resp ≡ done result)
      × StreamWhole cipher streaming id sess settling b
unfolding await conclude
await-done cipher streaming id sess settling by_deadline b result e = absurd (ground (arith, e))
await-done cipher streaming id sess settling by_cancel b result e = absurd (ground (arith, e))
await-done cipher streaming id sess settling by_reply b result e =
    elim (Option-cases (reply_of id b)) [
      | inl absent ↦ absurd (ground (arith, e, absent))
      | inr (reply, full) ↦ elim (Bool-cases reply.local) [
        | inl own ↦ absurd (ground (arith, e, full, own))
        | inr far ↦
            let ends =
              after_check-done cipher streaming id sess settling b
                (check_resp cipher sess reply.resp) result (ground (arith, e, full, far)) in
            (reply, ground (arith, full), far, ends.0, ends.1)
      ]
    ]

module _ (cipher : Cipher) (sess : Session) (on : active sess ≡ true)
    (v2 : legacy sess ≡ false) where
  pub check_resp_opens :
      (resp : ToolResp) (result : Bytes)
      → check_resp cipher sess resp ≡ done result
      → (resp.ok ≡ true)
        × (aead_open_json cipher sess.key resp.result
              (tool_resp_aad resp.id true resp.error_code resp.error_msg)
            ≡ some result)
  unfolding check_resp resp_aad
  check_resp_opens resp result e = elim (Bool-cases (is_empty resp.result)) [
    | inl empty ↦ absurd (ground (arith, e, on, v2, empty))
    | inr full ↦
        let both =
          judge_opened-done resp
            (aead_open_json cipher sess.key resp.result
              (resp_aad sess resp.id resp.ok resp.error_code resp.error_msg))
            result (ground (arith, e, on, v2, full)) in
        (both.0, ground (arith, both.0, both.1, v2))
  ]

  pub check_resp-Sealed :
      (id : ℕ) (es : List Event) (resp : ToolResp) (result : Bytes)
      → Heard resp es
      → resp.id ≡ id
      → check_resp cipher sess resp ≡ done result
      → Sealed cipher sess id es result
  check_resp-Sealed id es resp result heard mine e =
      let both = check_resp_opens resp result e in
      record {
        resp = resp;
        heard = heard;
        mine = mine;
        well = both.0;
        opens =
            subst
              (λ i.
                aead_open_json cipher sess.key resp.result
                  (tool_resp_aad i true resp.error_code resp.error_msg)
                ≡ some result)
              mine both.1;
      }
