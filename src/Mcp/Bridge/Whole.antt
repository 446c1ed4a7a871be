-- ===== src/Mcp/Bridge/Whole.antt =====
-- internal/mcp/bridge.go: a whole call, whatever the other goroutines do between its steps, and that it wakes.
use remote_assist_tool.Base.{
  ℕ, ◌≡◌, refl, ◌∙◌, sym, ap, arith, Bool, true, false, Option, none, some, Bool-cases,
  Option-cases, inl, inr, if_true, if_false,
}
use remote_assist_tool.Proto.Aad.{Bytes}
use remote_assist_tool.Proto.Session.{Cipher, Session}
use remote_assist_tool.Mcp.Bridge.{ToolReq, Bridge, register_call, run}
use remote_assist_tool.Mcp.Bridge.Call.{
  CallEnd, done, failed, not_connected, Course, Wake, by_reply, by_deadline, by_cancel,
  make_request, await, reply_of, sent_bridge, ask, call_id, finish_call, stored_bridge,
  asking_bridge, call_tool_inner,
}
use remote_assist_tool.Mcp.Bridge.Waiting.{
  AllForeign, Held, run-Held, register_call-Held, Held-closed,
}

-- A call that has failed.
abbrev is_failed : Option CallEnd → Bool
is_failed none = false
is_failed (some (done result)) = false
is_failed (some (failed why)) = true

finish_call-end :
    (id : ℕ) (streaming : Bool) (x : Bridge × Option CallEnd) → (finish_call id streaming x).1 ≡ x.1
unfolding finish_call
finish_call-end id streaming (b, none) = refl
finish_call-end id streaming (b, some end) = refl

module _ (cipher : Cipher) (streaming : Bool) (tool args : Bytes) (k : Course) (b : Bridge) where
  -- The session of the snapshot, and the bridge when the select is woken.
  abbrev pub asking_session : Session
  asking_session = (asking_bridge cipher streaming k b).sess

  abbrev pub waiting_from : Bridge
  waiting_from =
      sent_bridge cipher (call_id cipher k b) tool args k.nonce (asking_bridge cipher streaming k b)

  abbrev pub waiting_bridge : Bridge
  waiting_bridge = run cipher k.waiting waiting_from

  ask_sent :
      (id : ℕ) (asking : Bridge) (req : ToolReq)
      → make_request cipher asking.sess id tool args k.nonce ≡ some req
      → k.sends ≡ true
      → ask cipher streaming id tool args k asking
        ≡ await cipher streaming id asking.sess k.settling k.wake
            (run cipher k.waiting (sent_bridge cipher id tool args k.nonce asking))
  unfolding ask
  ask_sent id asking req made sends = ground (arith, made, sends)

  ask-await :
      (id : ℕ) (asking : Bridge) (o : Option CallEnd)
      → is_failed o ≡ false
      → (ask cipher streaming id tool args k asking).1 ≡ o
      → (await cipher streaming id asking.sess k.settling k.wake
          (run cipher k.waiting (sent_bridge cipher id tool args k.nonce asking))).1
        ≡ o
  unfolding ask
  ask-await id asking o well e =
      elim (Option-cases (make_request cipher asking.sess id tool args k.nonce)) [
        | inl none_made ↦ absurd (ground (arith, well, e, none_made))
        | inr (req, made) ↦ elim (Bool-cases k.sends) [
          | inl sends ↦ ap (λ x. x.1) (sym (ask_sent id asking req made sends)) ∙ e
          | inr fails ↦ absurd (ground (arith, well, e, made, fails))
        ]
      ]

  call_shut :
      b.closed ≡ false
      → (stored_bridge cipher streaming k b).closed ≡ true
      → (call_tool_inner cipher streaming tool args k b).1 ≡ some (failed not_connected)
  unfolding call_tool_inner
  call_shut up shut =
      ap (λ (x : Bridge × Option CallEnd). x.1) (if_false b.closed _ _ up)
      ∙ ap (λ (x : Bridge × Option CallEnd). (finish_call (call_id cipher k b) streaming x).1)
          (if_true (stored_bridge cipher streaming k b).closed _ _ shut)
      ∙ finish_call-end (call_id cipher k b) streaming _

  call_open :
      b.closed ≡ false
      → (stored_bridge cipher streaming k b).closed ≡ false
      → (call_tool_inner cipher streaming tool args k b).1
        ≡ (ask cipher streaming
            (call_id cipher k b)
            tool
            args
            k
            (asking_bridge cipher streaming k b)).1
  unfolding call_tool_inner
  call_open up still =
      ap (λ (x : Bridge × Option CallEnd). x.1) (if_false b.closed _ _ up)
      ∙ ap (λ (x : Bridge × Option CallEnd). (finish_call (call_id cipher k b) streaming x).1)
          (if_false (stored_bridge cipher streaming k b).closed _ _ still)
      ∙ finish_call-end (call_id cipher k b) streaming _

  -- A call that does not fail has found the bridge open twice and goes on waiting, or ends, in its
  -- select.
  pub call-await :
      (o : Option CallEnd)
      → is_failed o ≡ false
      → (call_tool_inner cipher streaming tool args k b).1 ≡ o
      → ((stored_bridge cipher streaming k b).closed ≡ false)
        × ((await cipher streaming
              (call_id cipher k b)
              asking_session
              k.settling
              k.wake
              waiting_bridge).1
            ≡ o)
  unfolding call_tool_inner
  call-await o well e = elim (Bool-cases b.closed) [
    | inl shut ↦ absurd (ground (arith, well, e, shut))
    | inr up ↦ elim (Bool-cases (stored_bridge cipher streaming k b).closed) [
      | inl shut ↦ absurd (ground (arith, well, e, call_shut up shut))
      | inr still ↦ (
        still,
        ask-await (call_id cipher k b) (asking_bridge cipher streaming k b) o well
            (sym (call_open up still) ∙ e),
      )
    ]
  ]

  pub sent_bridge-pending :
      (id : ℕ) (asking : Bridge)
      → (sent_bridge cipher id tool args k.nonce asking).pending ≡ asking.pending
  sent_bridge-pending id asking = ground arith

  sent_bridge-closed :
      (id : ℕ) (asking : Bridge)
      → (sent_bridge cipher id tool args k.nonce asking).closed ≡ asking.closed
  sent_bridge-closed id asking = ground arith

  await-none :
      (id : ℕ) (wake : Wake) (now : Bridge)
      → (await cipher streaming id asking_session k.settling wake now).1 ≡ none
      → reply_of id now ≡ none
  unfolding await
  await-none id by_deadline now e = absurd (ground (arith, e))
  await-none id by_cancel now e = absurd (ground (arith, e))
  await-none id by_reply now e = ground (arith, e)

  -- No other call has the number of this one while it goes on.
  abbrev pub OwnNumber : Type 0
  OwnNumber =
      AllForeign cipher (call_id cipher k b) (register_call streaming (run cipher k.entering b))
        k.stored
      × AllForeign cipher (call_id cipher k b) (stored_bridge cipher streaming k b) k.asking
      × AllForeign cipher (call_id cipher k b) waiting_from k.waiting

  sent_bridge-Held :
      (id : ℕ) (asking : Bridge)
      → Held id asking
      → Held id (sent_bridge cipher id tool args k.nonce asking)
  sent_bridge-Held id asking held =
      rw (sent_bridge-pending id asking, sent_bridge-closed id asking) held

  waiting_bridge-Held :
      OwnNumber
      → (stored_bridge cipher streaming k b).closed ≡ false
      → Held (call_id cipher k b) waiting_bridge
  waiting_bridge-Held f still =
      let id = call_id cipher k b in
      let entered = run cipher k.entering b in
      run-Held cipher id k.waiting waiting_from f.2 (
        sent_bridge-Held id (asking_bridge cipher streaming k b) (
          run-Held cipher id k.asking (stored_bridge cipher streaming k b) f.1 (
            run-Held cipher id k.stored (register_call streaming entered) f.0
              (register_call-Held cipher streaming k.stored entered still))))

  -- A call never waits on a bridge that Disconnect has closed, whenever that happened: if no other call
  -- has its number and it has not returned, the bridge is open.
  pub call_wakes :
      OwnNumber
      → (call_tool_inner cipher streaming tool args k b).1 ≡ none
      → waiting_bridge.closed ≡ false
  call_wakes f e =
      let here = call-await none refl e in
      Held-closed (call_id cipher k b) waiting_bridge (waiting_bridge-Held f here.0)
        (await-none (call_id cipher k b) k.wake waiting_bridge here.1)
