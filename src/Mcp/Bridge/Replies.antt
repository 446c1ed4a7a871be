-- ===== src/Mcp/Bridge/Replies.antt =====
-- internal/mcp/bridge.go: what the operations of the bridge do to the channels that wait.
use remote_assist_tool.Base.{ℕ, ◌≡◌, refl, arith, [], ◌∷◌, Option, none, some}
use remote_assist_tool.Base.Dict.{Dict, lookup}
use remote_assist_tool.Proto.Session.{Cipher}
use remote_assist_tool.Mcp.Stream.{StreamChunk}
use remote_assist_tool.Mcp.Bridge.{ToolReply, Bridge, offer, wake_all, handle_stream}

abbrev pub woken : ToolReply → Option (Option ToolReply) → Option (Option ToolReply)
woken reply none = none
woken reply (some ch) = some (offer reply ch)

pub lookup-wake_all :
    (reply : ToolReply) (j : ℕ) (pending : Dict (Option ToolReply))
    → lookup j (wake_all reply pending) ≡ woken reply (lookup j pending)
unfolding lookup wake_all
lookup-wake_all reply j [] = refl
lookup-wake_all reply j ((i, ch) ∷ t) = ground (arith, lookup-wake_all reply j t)

pub handle_stream-pending :
    (cipher : Cipher) (b : Bridge) (c : StreamChunk)
    → (handle_stream cipher b c).pending ≡ b.pending
unfolding handle_stream
handle_stream-pending cipher b c = ground arith
