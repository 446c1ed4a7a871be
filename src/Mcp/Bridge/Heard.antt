-- ===== src/Mcp/Bridge/Heard.antt =====
-- internal/mcp/bridge.go: where the reply of a call comes from.
use remote_assist_tool.Base.{
  ℕ, ◌≡◌, arith, true, false, ◌⊎◌, inl, inr, List, [], ◌∷◌, ◌++◌, Option, ◌==◌, Bool-cases,
  Option-cases,
}
use remote_assist_tool.Base.Dict.{lookup, lookup-insert, lookup-delete}
use remote_assist_tool.Proto.Aad.{Bytes}
use remote_assist_tool.Proto.Session.{Cipher}
use remote_assist_tool.Mcp.Bridge.{
  ToolResp, ToolReply, Bridge, disconnect, tool_resp, tool_stream, undecodable, handle_resp,
  handle_inbound, fresh_id, register_call, return_call, swap_conn, Event, inbound, disconnected,
  swapped, registered, returned, sent, step, run,
}
use remote_assist_tool.Mcp.Bridge.Replies.{handle_stream-pending}
use remote_assist_tool.Mcp.Bridge.Waiting.{
  none_yet, tunnel_reply, Replied, lookup-handle_resp, lookup-disconnect,
}

-- The response is one of those that the events bring in from the tunnel.
abbrev pub Heard : ToolResp → List Event → Type 0
Heard m [] = true ≡ false
Heard m (e ∷ es) = (e ≡ inbound (tool_resp m)) ⊎ Heard m es

pub Heard-left : (m : ToolResp) (xs ys : List Event) → Heard m xs → Heard m (xs ++ ys)
Heard-left m [] ys h = absurd (ground (arith, h))
Heard-left m (x ∷ xs) ys (inl here) = inl here
Heard-left m (x ∷ xs) ys (inr later) = inr (Heard-left m xs ys later)

pub Heard-right : (m : ToolResp) (xs ys : List Event) → Heard m ys → Heard m (xs ++ ys)
Heard-right m [] ys h = h
Heard-right m (x ∷ xs) ys h = inr (Heard-right m xs ys h)

-- A reply of the tunnel was there before, or this event brought it in under the number of the call.
abbrev Brought : ℕ → ToolReply → Bridge → Event → Type 0
Brought id r b e = Replied id r b ⊎ ((e ≡ inbound (tool_resp r.resp)) × (r.resp.id ≡ id))

module _ (id : ℕ) (b : Bridge) (r : ToolReply) (far : r.local ≡ false) where
  resp-Brought :
      (m : ToolResp) → Replied id r (handle_resp b m) → Brought id r b (inbound (tool_resp m))
  resp-Brought m after = elim (Bool-cases (m.id == id)) [
    | inr other ↦ inl (ground (arith, after, other, lookup-handle_resp id b m))
    | inl mine ↦ elim (Option-cases (lookup id b.pending)) [
      | inl absent ↦ absurd (ground (arith, after, mine, absent, lookup-handle_resp id b m))
      | inr (ch, there) ↦ elim (Option-cases ch) [
        | inl empty ↦
            let it : tunnel_reply m ≡ r =
              ground (arith, after, mine, there, empty, lookup-handle_resp id b m) in
            inr (ground (arith, it), ground (arith, it, mine))
        | inr (q, full) ↦ inl (ground (arith, after, mine, there, full, lookup-handle_resp id b m))
      ]
    ]
  ]

  disconnect-Brought : (err : Option Bytes) → Replied id r (disconnect b err) → Replied id r b
  disconnect-Brought err after = elim (Option-cases (lookup id b.pending)) [
    | inl absent ↦ absurd (ground (arith, after, absent, lookup-disconnect id b err))
    | inr (ch, there) ↦ elim (Option-cases ch) [
      | inl empty ↦ absurd (ground (arith, after, far, there, empty, lookup-disconnect id b err))
      | inr (q, full) ↦ ground (arith, after, there, full, lookup-disconnect id b err)
    ]
  ]

  step-Brought : (cipher : Cipher) (e : Event) → Replied id r (step cipher b e) → Brought id r b e
  unfolding step handle_inbound swap_conn register_call return_call
  step-Brought cipher (inbound (tool_resp m)) after = resp-Brought m after
  step-Brought cipher (inbound (tool_stream c)) after =
      inl (ground (arith, after, handle_stream-pending cipher b c))
  step-Brought cipher (inbound undecodable) after = inl after
  step-Brought cipher (disconnected err) after = inl (disconnect-Brought err after)
  step-Brought cipher (swapped conn sess) after = inl after
  step-Brought cipher (registered streaming) after =
      inl (ground (arith, after, lookup-insert (fresh_id b) id none_yet b.pending))
  step-Brought cipher (returned j streaming) after =
      inl (ground (arith, after, lookup-delete j id b.pending))
  step-Brought cipher (sent conn m) after = inl after

-- A reply of the tunnel was there before the events, or one of them brought it in.
pub run-Brought :
    (cipher : Cipher) (id : ℕ) (r : ToolReply) (es : List Event) (b : Bridge)
    → r.local ≡ false
    → Replied id r (run cipher es b)
    → Replied id r b ⊎ (Heard r.resp es × (r.resp.id ≡ id))
unfolding run
run-Brought cipher id r [] b far after = inl after
run-Brought cipher id r (e ∷ es) b far after =
    elim (run-Brought cipher id r es (step cipher b e) far after) [
      | inr (heard, mine) ↦ inr (inr heard, mine)
      | inl before ↦ elim (step-Brought id b r far cipher e before) [
        | inl there ↦ inl there
        | inr (here, mine) ↦ inr (inl here, mine)
      ]
    ]
