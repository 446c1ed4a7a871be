-- ===== src/Examples/Agent.antt =====
-- The agent at one request, its response and its stream.
use remote_assist_tool.Base.{◌≤◌, ◌≡◌, refl, true, false, List, [], ◌∷◌, some, arith}
use remote_assist_tool.Proto.Session.{aead_seal_json}
use remote_assist_tool.Mcp.Stream.{gap_count, receive_all}
use remote_assist_tool.Mcp.Bridge.{ToolReq, ToolResp}
use remote_assist_tool.Mcp.Bridge.Call.{done, make_request, check_resp}
use remote_assist_tool.Agent.Replay.{ReplayGuard, no_bits, reset}
use remote_assist_tool.Agent.Daemon.{admitted, open_args, seal_resp, new_sink}
use remote_assist_tool.Agent.Daemon.Trips.{open_args-make_request, check_resp-seal_resp}
use remote_assist_tool.Agent.Daemon.Once.{times_admitted, times_admitted_once}
use remote_assist_tool.Agent.Daemon.Emit.{Piece, stream_frames, pieces}
use remote_assist_tool.Agent.Daemon.Sink.{stream_frames_arrive}
use remote_assist_tool.Examples.Mcp.{toy, sess}

abbrev request : ToolReq
request = record { id = 3; tool = 7 ∷ []; args = 34 ∷ 5 ∷ 8 ∷ []; deadline_ms = 0 }

requested : make_request toy sess 3 (7 ∷ []) (8 ∷ []) (some 9) ≡ some request
unfolding make_request aead_seal_json
requested = refl

open_args-make_request_example :
    open_args toy sess request
    ≡ admitted (record { id = 3; tool = 7 ∷ []; args = 8 ∷ []; deadline_ms = 0 })
open_args-make_request_example =
    open_args-make_request toy sess refl 3 9 (7 ∷ []) (8 ∷ []) request requested

abbrev answer : ToolResp
answer = record { id = 3; ok = true; result = []; error_code = []; error_msg = [] }

check_resp-seal_resp_example :
    check_resp toy sess (seal_resp toy sess (some 9) answer) ≡ done (123 ∷ 125 ∷ [])
check_resp-seal_resp_example = check_resp-seal_resp toy sess refl 9 answer refl

abbrev guard : ReplayGuard
guard = record { started = false; highest = 0; bits = no_bits }

times_admitted_once_example : times_admitted toy sess (reset guard) (request ∷ request ∷ []) 3 ≤ 1
times_admitted_once_example =
    times_admitted_once toy sess refl refl guard (request ∷ request ∷ []) 3
      (omega arith, (omega arith, tt))

abbrev two_pieces : List Piece
two_pieces = (9, 1 ∷ [], 65 ∷ 66 ∷ []) ∷ (9, 1 ∷ [], []) ∷ []

stream_frames_arrive_example :
    (gap_count (receive_all toy (stream_frames toy sess 9 (new_sink 3 false) two_pieces)) ≡ 0)
    × ((receive_all toy (stream_frames toy sess 9 (new_sink 3 false) two_pieces)).finished ≡ true)
    × ((receive_all toy (stream_frames toy sess 9 (new_sink 3 false) two_pieces)).out
        ≡ pieces two_pieces)
stream_frames_arrive_example =
    stream_frames_arrive toy sess refl 3 9 false two_pieces (omega arith) refl
