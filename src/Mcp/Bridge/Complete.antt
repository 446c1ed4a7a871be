-- ===== src/Mcp/Bridge/Complete.antt =====
-- internal/mcp/bridge.go: a whole streaming call, and the frames that it has had when it ends.
use remote_assist_tool.Base.{
  ℕ, ◌≤◌, ◌≡◌, refl, ◌∙◌, sym, ap, subst, arith, Bool, true, not, ◌||◌, List, [], some,
}
use remote_assist_tool.Base.Dict.{lookup-insert_self}
use remote_assist_tool.Proto.Aad.{Bytes}
use remote_assist_tool.Proto.Session.{Cipher, Session, legacy, require_stream_terminator}
use remote_assist_tool.Mcp.Stream.{Frame, new_stream_recv, receive_all, status}
use remote_assist_tool.Mcp.Stream.Tracks.{AllSmall, arrived}
use remote_assist_tool.Mcp.Stream.Complete.{broken, ended, receive_all-Accounts, gap_count_complete}
use remote_assist_tool.Mcp.Bridge.{Bridge, register_call, run}
use remote_assist_tool.Mcp.Bridge.Call.{
  done, Course, sent_bridge, call_id, stored_bridge, asking_bridge, call_tool_inner,
}
use remote_assist_tool.Mcp.Bridge.Results.{await-done}
use remote_assist_tool.Mcp.Bridge.Streaming.{
  HasHad, frames, settled_frames, SettlingForeign, run-HasHad, settled_status-frames,
}
use remote_assist_tool.Mcp.Bridge.Whole.{
  asking_session, waiting_from, waiting_bridge, OwnNumber, call-await,
}

ended_or : (p q x : Bool) → x ≡ p → (x || not (not q)) ≡ true → (p || q) ≡ true
ended_or p q x e h = ground (arith, e, h)

module _ (cipher : Cipher) (streaming : Bool) (tool args : Bytes) (k : Course) (b : Bridge) where
  abbrev session : Session
  session = asking_session cipher streaming tool args k b

  abbrev from : Bridge
  from = waiting_from cipher streaming tool args k b

  abbrev now : Bridge
  now = waiting_bridge cipher streaming tool args k b

  abbrev Apart : Type 0
  Apart = OwnNumber cipher streaming tool args k b

  -- The frames that the call gets until the select is woken, and until the status has settled.
  abbrev pub waited_frames : List Frame
  waited_frames =
      let id = call_id cipher k b in
      frames cipher id k.waiting from (
        frames cipher id k.asking (stored_bridge cipher streaming k b)
          (frames cipher id k.stored (register_call streaming (run cipher k.entering b)) []))

  abbrev pub call_frames : List Frame
  call_frames =
      settled_frames cipher (require_stream_terminator session) (call_id cipher k b) k.settling now
        waited_frames

  sent_bridge-stream_cbs :
      (id : ℕ) (asking : Bridge)
      → (sent_bridge cipher id tool args k.nonce asking).stream_cbs ≡ asking.stream_cbs
  sent_bridge-stream_cbs id asking = ground arith

  sent_bridge-HasHad :
      (id : ℕ) (fs : List Frame) (asking : Bridge)
      → HasHad cipher id fs asking
      → HasHad cipher id fs (sent_bridge cipher id tool args k.nonce asking)
  sent_bridge-HasHad id fs asking had = rw (sent_bridge-stream_cbs id asking) had

  waiting_bridge-HasHad :
      Apart → streaming ≡ true → HasHad cipher (call_id cipher k b) waited_frames now
  unfolding register_call receive_all
  waiting_bridge-HasHad f streams =
      let id = call_id cipher k b in
      let entered = run cipher k.entering b in
      let first = register_call streaming entered in
      let fs0 = frames cipher id k.stored first [] in
      let fs1 = frames cipher id k.asking (stored_bridge cipher streaming k b) fs0 in
      let start : HasHad cipher id [] first =
        rw streams (lookup-insert_self id new_stream_recv entered.stream_cbs) in
      run-HasHad cipher id k.waiting fs1 from
        (sent_bridge-HasHad id fs1 (asking_bridge cipher streaming k b) (
          run-HasHad cipher id k.asking fs0 (stored_bridge cipher streaming k b)
            (run-HasHad cipher id k.stored [] first start f.0) f.1))
        f.2

  -- When a streaming call returns a result, and no other call has its number, then of its frames, which
  -- came in any order and through any change of the connection, every one opened, none is left out
  -- below one that came, and, unless the session is of version 1, one that opened ended the stream.
  pub stream_call_complete :
      (result : Bytes)
      → streaming ≡ true
      → Apart
      → SettlingForeign cipher (call_id cipher k b) now k.settling
      → AllSmall call_frames
      → (call_tool_inner cipher streaming tool args k b).1 ≡ some (done result)
      → (broken cipher call_frames ≡ 0)
        × ((last y : ℕ) → arrived last call_frames ≡ true → y ≤ last → arrived y call_frames ≡ true)
        × ((ended cipher call_frames || legacy session) ≡ true)
  unfolding status
  stream_call_complete result streams f settles small e =
      let id = call_id cipher k b in
      let (reply, there, far, passed, whole) =
        await-done cipher streaming id session k.settling k.wake now result
          (call-await cipher streaming tool args k b (some (done result)) refl e).1 in
      let seen =
        settled_status-frames cipher (require_stream_terminator session) id k.settling waited_frames
          now (waiting_bridge-HasHad f streams) settles in
      let good = whole streams in
      let complete =
        gap_count_complete cipher call_frames small
          (ap (λ (x : ℕ × Bool). x.0) (sym seen) ∙ good.0) in
      (
        complete.0,
        complete.1,
        ended_or (ended cipher call_frames) (legacy session)
            (receive_all cipher call_frames).finished (receive_all-Accounts cipher call_frames).1
            (subst (λ (x : ℕ × Bool). (x.1 || not (require_stream_terminator session)) ≡ true) seen
              good.1),
      )
