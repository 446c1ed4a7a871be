-- ===== src/Mcp/Bridge/Provenance.antt =====
-- internal/mcp/bridge.go: where the result of a whole call comes from.
use remote_assist_tool.Base.{◌≡◌, refl, subst, arith, Bool, true, false, List, ◌++◌, some, inl, inr}
use remote_assist_tool.Proto.Aad.{Bytes}
use remote_assist_tool.Proto.Session.{Cipher, Session, active, legacy}
use remote_assist_tool.Mcp.Bridge.{ToolReply, Bridge, fresh_id, register_call, run}
use remote_assist_tool.Mcp.Bridge.Call.{
  done, Course, call_id, stored_bridge, asking_bridge, call_tool_inner,
}
use remote_assist_tool.Mcp.Bridge.Heard.{Heard, Heard-left, Heard-right, run-Brought}
use remote_assist_tool.Mcp.Bridge.Results.{Sealed, await-done, check_resp-Sealed}
use remote_assist_tool.Mcp.Bridge.Waiting.{none_yet}
use remote_assist_tool.Base.Dict.{lookup, lookup-insert_self}
use remote_assist_tool.Mcp.Bridge.{Event}
use remote_assist_tool.Mcp.Bridge.Whole.{
  asking_session, waiting_from, waiting_bridge, sent_bridge-pending, call-await,
}

module _ (cipher : Cipher) (streaming : Bool) (tool args : Bytes) (k : Course) (b : Bridge) where
  abbrev session : Session
  session = asking_session cipher streaming tool args k b

  abbrev from : Bridge
  from = waiting_from cipher streaming tool args k b

  abbrev now : Bridge
  now = waiting_bridge cipher streaming tool args k b

  -- What the other goroutines do from the registration of the call on, until its select is woken.
  abbrev pub meanwhile : List Event
  meanwhile = k.stored ++ (k.asking ++ k.waiting)

  registered_empty :
      (r : ToolReply)
      → lookup (call_id cipher k b) (register_call streaming (run cipher k.entering b)).pending
        ≡ some (some r)
      → true ≡ false
  unfolding register_call
  registered_empty r e =
      let entered = run cipher k.entering b in
      ground (arith, e, lookup-insert_self (fresh_id entered) none_yet entered.pending)

  replied-Heard :
      (r : ToolReply)
      → r.local ≡ false
      → lookup (call_id cipher k b) now.pending ≡ some (some r)
      → Heard r.resp meanwhile × (r.resp.id ≡ call_id cipher k b)
  replied-Heard r far there =
      let id = call_id cipher k b in
      let first = register_call streaming (run cipher k.entering b) in
      let stored = stored_bridge cipher streaming k b in
      let asking = asking_bridge cipher streaming k b in
      elim (run-Brought cipher id r k.waiting from far there) [
        | inr (heard, mine) ↦ (
          Heard-right r.resp k.stored (k.asking ++ k.waiting)
              (Heard-right r.resp k.asking k.waiting heard),
          mine,
        )
        | inl before ↦
            let sent_before =
              subst (λ p. lookup id p ≡ some (some r))
                (sent_bridge-pending cipher streaming tool args k b id asking) before in
            elim (run-Brought cipher id r k.asking stored far sent_before) [
              | inr (heard, mine) ↦ (
                Heard-right r.resp k.stored (k.asking ++ k.waiting)
                    (Heard-left r.resp k.asking k.waiting heard),
                mine,
              )
              | inl earlier ↦ elim (run-Brought cipher id r k.stored first far earlier) [
                | inr (heard, mine) ↦
                    (Heard-left r.resp k.stored (k.asking ++ k.waiting) heard, mine)
                | inl at_first ↦ absurd (ground (arith, registered_empty r at_first))
              ]
            ]
      ]

  -- When a call whose session is active and not of version 1 returns a result, then of the responses
  -- that came in from the tunnel since the call was registered there is one with its number that
  -- says ok, and whose ciphertext opens to this result with that number, that ok and the
  -- response's error fields as authenticated data, whatever the other goroutines did meanwhile.
  pub call_result-Sealed :
      (result : Bytes)
      → active session ≡ true
      → legacy session ≡ false
      → (call_tool_inner cipher streaming tool args k b).1 ≡ some (done result)
      → Sealed cipher session (call_id cipher k b) meanwhile result
  call_result-Sealed result on v2 e =
      let id = call_id cipher k b in
      let (reply, there, far, passed, whole) =
        await-done cipher streaming id session k.settling k.wake now result
          (call-await cipher streaming tool args k b (some (done result)) refl e).1 in
      let (heard, mine) = replied-Heard reply far there in
      check_resp-Sealed cipher session on v2 id meanwhile reply.resp result heard mine passed
