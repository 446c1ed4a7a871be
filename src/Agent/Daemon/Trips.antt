-- ===== src/Agent/Daemon/Trips.antt =====
-- internal/agent/agent.go and internal/mcp/bridge.go: a request and a response on their way through a
-- relay that does not change them.
use remote_assist_tool.Base.{ℕ, ◌≡◌, refl, subst, arith, true, false, [], ◌∷◌, some, if◌then◌else◌}
use remote_assist_tool.Proto.Aad.{Bytes}
use remote_assist_tool.Proto.Session.{
  Cipher, Session, active, legacy, req_aad, resp_aad, aead_seal_json, aead_open_json-aead_seal_json,
  aead_seal_json-quote,
}
use remote_assist_tool.Mcp.Stream.{is_empty}
use remote_assist_tool.Mcp.Bridge.{ToolReq, ToolResp}
use remote_assist_tool.Mcp.Bridge.Call.{done, failed, remote, plain_args, make_request, check_resp}
use remote_assist_tool.Agent.Daemon.{
  is_null, trim_left, space_width, is_blank_args, admitted, open_args, plain_result, seal_resp,
}

quote_is_null : (rest : Bytes) → is_null (34 ∷ rest) ≡ false
quote_is_null [] = refl
quote_is_null (a ∷ []) = refl
quote_is_null (a ∷ b ∷ []) = refl
quote_is_null (a ∷ b ∷ c ∷ rest) = refl

quoted-is_blank_args : (raw rest : Bytes) → raw ≡ 34 ∷ rest → is_blank_args raw ≡ false
unfolding is_blank_args trim_left space_width
quoted-is_blank_args raw rest e = rw e (quote_is_null rest)

quoted-is_empty : (raw rest : Bytes) → raw ≡ 34 ∷ rest → is_empty raw ≡ false
quoted-is_empty raw rest e = rw e refl

module _ (cipher : Cipher) (sess : Session) (on : active sess ≡ true) where
  -- The request that the bridge makes.
  abbrev sealed : ℕ → ℕ → Bytes → Bytes → ToolReq
  sealed id n tool args = record {
    id = id;
    tool = tool;
    args = aead_seal_json cipher sess.key n (plain_args args) (req_aad sess id tool 0);
    deadline_ms = 0;
  }

  open_args-sealed :
      (id n : ℕ) (tool args : Bytes)
      → open_args cipher sess (sealed id n tool args)
        ≡ admitted (record { id = id; tool = tool; args = plain_args args; deadline_ms = 0 })
  unfolding open_args
  open_args-sealed id n tool args =
      let quote =
        aead_seal_json-quote cipher sess.key n (plain_args args) (req_aad sess id tool 0) in
      let opens =
        aead_open_json-aead_seal_json cipher sess.key n (plain_args args)
          (req_aad sess id tool 0) in
      ground (arith, opens, quoted-is_blank_args (sealed id n tool args).args quote.0 quote.1)

  make_request-sealed :
      (id n : ℕ) (tool args : Bytes) (req : ToolReq)
      → make_request cipher sess id tool args (some n) ≡ some req
      → sealed id n tool args ≡ req
  unfolding make_request
  make_request-sealed id n tool args req e = ground (arith, on, e)

  -- In an active session, the agent takes what the bridge asks: the arguments that it opens are those
  -- of the call, with "{}" for none.
  pub open_args-make_request :
      (id n : ℕ) (tool args : Bytes) (req : ToolReq)
      → make_request cipher sess id tool args (some n) ≡ some req
      → open_args cipher sess req
        ≡ admitted (record { id = id; tool = tool; args = plain_args args; deadline_ms = 0 })
  open_args-make_request id n tool args req e =
      subst
        (λ r.
          open_args cipher sess r
          ≡ admitted (record { id = id; tool = tool; args = plain_args args; deadline_ms = 0 }))
        (make_request-sealed id n tool args req e) (open_args-sealed id n tool args)

  -- In an active session that is not of version 1, the bridge makes of the agent's sealed response what
  -- the response says: its result, with "{}" for none, or its error.
  pub check_resp-seal_resp :
      (n : ℕ) (resp : ToolResp)
      → legacy sess ≡ false
      → check_resp cipher sess (seal_resp cipher sess (some n) resp) ≡ (
          if resp.ok
          then done (plain_result resp.result)
          else failed (remote resp.error_code resp.error_msg))
  unfolding check_resp seal_resp
  check_resp-seal_resp n resp v2 =
      let aad = resp_aad sess resp.id resp.ok resp.error_code resp.error_msg in
      let quote = aead_seal_json-quote cipher sess.key n (plain_result resp.result) aad in
      let opens = aead_open_json-aead_seal_json cipher sess.key n (plain_result resp.result) aad in
      let full =
        quoted-is_empty (aead_seal_json cipher sess.key n (plain_result resp.result) aad) quote.0
          quote.1 in
      ground (arith, on, v2, opens, full)
