-- ===== src/Mcp/Bridge/Waiting.antt =====
-- internal/mcp/bridge.go: a call that waits, and what the other goroutines do meanwhile.
use remote_assist_tool.Base.{
  ℕ, ◌≡◌, ◌∙◌, arith, Bool, true, false, ◌⊎◌, inl, inr, List, [], ◌∷◌, Option, none, some, ◌==◌,
  if◌then◌else◌, Bool-cases, Option-cases,
}
use remote_assist_tool.Base.Dict.{lookup, lookup-insert, lookup-insert_self, lookup-delete}
use remote_assist_tool.Proto.Aad.{Bytes}
use remote_assist_tool.Proto.Session.{Cipher}
use remote_assist_tool.Mcp.Stream.{StreamChunk}
use remote_assist_tool.Mcp.Bridge.{
  ToolResp, ToolReply, Bridge, offer, lost_reply, disconnect, tool_resp, tool_stream, undecodable,
  handle_resp, handle_stream, handle_inbound, fresh_id, register_call, return_call, swap_conn,
  Event, inbound, disconnected, swapped, registered, returned, sent, step, run,
}
use remote_assist_tool.Mcp.Bridge.Call.{reply_of}
use remote_assist_tool.Mcp.Bridge.Replies.{woken, lookup-wake_all, handle_stream-pending}

-- An event of a call with another number.
abbrev pub Foreign : ℕ → Bridge → Event → Type 0
Foreign id b (registered streaming) = (fresh_id b == id) ≡ false
Foreign id b (returned j streaming) = (j == id) ≡ false
Foreign id b (inbound m) = Unit
Foreign id b (disconnected err) = Unit
Foreign id b (swapped conn sess) = Unit
Foreign id b (sent conn m) = Unit

abbrev pub AllForeign : Cipher → ℕ → Bridge → List Event → Type 0
AllForeign cipher id b [] = Unit
AllForeign cipher id b (e ∷ es) = Foreign id b e × AllForeign cipher id (step cipher b e) es

-- The call's channel is there, and if the bridge is closed it has a reply.
abbrev pub Held : ℕ → Bridge → Type 0
Held id b =
    ((lookup id b.pending ≡ some none) × (b.closed ≡ false))
    ⊎ ((r : ToolReply) × (lookup id b.pending ≡ some (some r)))

-- The reply that a call has stays.
abbrev pub Replied : ℕ → ToolReply → Bridge → Type 0
Replied id r b = lookup id b.pending ≡ some (some r)

abbrev pub none_yet : Option ToolReply
none_yet = none

abbrev pub tunnel_reply : ToolResp → ToolReply
tunnel_reply m = record { resp = m; local = false }

module _ (id : ℕ) (b : Bridge) where
  pub lookup-handle_resp :
      (m : ToolResp)
      → lookup id (handle_resp b m).pending
        ≡ (if m.id == id then woken (tunnel_reply m) (lookup id b.pending) else lookup id b.pending)
  unfolding handle_resp
  lookup-handle_resp m = elim (Option-cases (lookup m.id b.pending)) [
    | inl absent ↦ ground (arith, absent)
    | inr (ch, there) ↦
        ground (arith, there, lookup-insert m.id id (offer (tunnel_reply m) ch) b.pending)
  ]

  pub lookup-disconnect :
      (err : Option Bytes)
      → lookup id (disconnect b err).pending
        ≡ (if b.closed then lookup id b.pending else woken (lost_reply err) (lookup id b.pending))
  unfolding disconnect
  lookup-disconnect err = ground (arith, lookup-wake_all (lost_reply err) id b.pending)

  handle_resp-closed : (m : ToolResp) → (handle_resp b m).closed ≡ b.closed
  unfolding handle_resp
  handle_resp-closed m = ground arith

  handle_stream-closed :
      (cipher : Cipher) (c : StreamChunk) → (handle_stream cipher b c).closed ≡ b.closed
  unfolding handle_stream
  handle_stream-closed cipher c = ground arith

  step_keeps_closed :
      (cipher : Cipher) (e : Event) → b.closed ≡ true → (step cipher b e).closed ≡ true
  unfolding step handle_inbound disconnect swap_conn register_call return_call
  step_keeps_closed cipher (inbound (tool_resp m)) h = handle_resp-closed m ∙ h
  step_keeps_closed cipher (inbound (tool_stream c)) h = handle_stream-closed cipher c ∙ h
  step_keeps_closed cipher (inbound undecodable) h = h
  step_keeps_closed cipher (disconnected err) h = ground (arith, h)
  step_keeps_closed cipher (swapped conn sess) h = h
  step_keeps_closed cipher (registered streaming) h = h
  step_keeps_closed cipher (returned j streaming) h = h
  step_keeps_closed cipher (sent conn m) h = h

  pub step-Replied :
      (cipher : Cipher) (r : ToolReply) (e : Event)
      → Foreign id b e
      → Replied id r b
      → Replied id r (step cipher b e)
  unfolding step handle_inbound swap_conn register_call return_call
  step-Replied cipher r (inbound (tool_resp m)) f there =
      ground (arith, there, lookup-handle_resp m)
  step-Replied cipher r (inbound (tool_stream c)) f there =
      rw (handle_stream-pending cipher b c) there
  step-Replied cipher r (inbound undecodable) f there = there
  step-Replied cipher r (disconnected err) f there = ground (arith, there, lookup-disconnect err)
  step-Replied cipher r (swapped conn sess) f there = there
  step-Replied cipher r (registered streaming) f there =
      ground (arith, there, f, lookup-insert (fresh_id b) id none_yet b.pending)
  step-Replied cipher r (returned j streaming) f there =
      ground (arith, there, f, lookup-delete j id b.pending)
  step-Replied cipher r (sent conn m) f there = there

  pub step-Held :
      (cipher : Cipher) (e : Event) → Foreign id b e → Held id b → Held id (step cipher b e)
  unfolding step handle_inbound swap_conn register_call return_call
  step-Held cipher e f (inr (r, there)) = inr (r, step-Replied cipher r e f there)
  step-Held cipher (inbound (tool_resp m)) f (inl empty) = elim (Bool-cases (m.id == id)) [
    | inl mine ↦ inr (tunnel_reply m, ground (arith, empty, mine, lookup-handle_resp m))
    | inr other ↦ inl (ground (arith, empty, other, lookup-handle_resp m, handle_resp-closed m))
  ]
  step-Held cipher (inbound (tool_stream c)) f (inl empty) =
      rw (handle_stream-pending cipher b c, handle_stream-closed cipher c) (inl empty)
  step-Held cipher (inbound undecodable) f (inl empty) = inl empty
  step-Held cipher (disconnected err) f (inl empty) =
      inr (lost_reply err, ground (arith, empty, lookup-disconnect err))
  step-Held cipher (swapped conn sess) f (inl empty) = inl empty
  step-Held cipher (registered streaming) f (inl empty) =
      inl (ground (arith, empty, f, lookup-insert (fresh_id b) id none_yet b.pending))
  step-Held cipher (returned j streaming) f (inl empty) =
      inl (ground (arith, empty, f, lookup-delete j id b.pending))
  step-Held cipher (sent conn m) f (inl empty) = inl empty

pub run-Replied :
    (cipher : Cipher) (id : ℕ) (r : ToolReply) (es : List Event) (b : Bridge)
    → AllForeign cipher id b es
    → Replied id r b
    → Replied id r (run cipher es b)
unfolding run
run-Replied cipher id r [] b f there = there
run-Replied cipher id r (e ∷ es) b f there =
    run-Replied cipher id r es (step cipher b e) f.1 (step-Replied id b cipher r e f.0 there)

pub run-Held :
    (cipher : Cipher) (id : ℕ) (es : List Event) (b : Bridge)
    → AllForeign cipher id b es
    → Held id b
    → Held id (run cipher es b)
unfolding run
run-Held cipher id [] b f held = held
run-Held cipher id (e ∷ es) b f held =
    run-Held cipher id es (step cipher b e) f.1 (step-Held id b cipher e f.0 held)

pub run_keeps_closed :
    (cipher : Cipher) (es : List Event) (b : Bridge)
    → b.closed ≡ true
    → (run cipher es b).closed ≡ true
unfolding run
run_keeps_closed cipher [] b h = h
run_keeps_closed cipher (e ∷ es) b h =
    run_keeps_closed cipher es (step cipher b e) (step_keeps_closed 0 b cipher e h)

-- A bridge that is open later was open when the call was registered, so its channel is held.
pub register_call-Held :
    (cipher : Cipher) (streaming : Bool) (es : List Event) (b : Bridge)
    → (run cipher es (register_call streaming b)).closed ≡ false
    → Held (fresh_id b) (register_call streaming b)
unfolding register_call
register_call-Held cipher streaming es b open_later = elim (Bool-cases b.closed) [
  | inl shut ↦
      absurd
        (ground (arith, open_later, run_keeps_closed cipher es (register_call streaming b) shut))
  | inr up ↦ inl (lookup-insert_self (fresh_id b) none_yet b.pending, up)
]

-- A channel that is held and has no reply belongs to an open bridge.
pub Held-closed : (id : ℕ) (b : Bridge) → Held id b → reply_of id b ≡ none → b.closed ≡ false
Held-closed id b (inl empty) h = empty.1
Held-closed id b (inr (r, there)) h = absurd (ground (arith, h, there))
