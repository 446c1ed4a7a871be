-- ===== src/Examples/Server.antt =====
-- The server at a short history: two connections come, one registers, the other joins.
use remote_assist_tool.Base.{
  ℕ, ◌+◌, ◌<◌, ◌≤◌, ◌≡◌, ◌≢◌, ◌⊎◌, refl, true, false, List, [], ◌∷◌, Option, none, some, arith,
  length,
}
use remote_assist_tool.Base.Int.{pos, pos_part}
use remote_assist_tool.Base.Dict.{lookup, size, count_if, count_at, insert}
use remote_assist_tool.Relay.Limits as RelayLimits
use remote_assist_tool.P2p.Limits as UdpLimits
use remote_assist_tool.Relay.Session.Addresses.{Net}
use remote_assist_tool.Relay.Server.State.{
  Client, ConnState, Config, Server, Env, Message, register_request, join_request, tunnel_data,
  tool, ToolKind, new_server, make_server, with_defaults,
}
use remote_assist_tool.Relay.Server.Serve.{
  new_client, Event, connects, receives, leaves, serve, serve_all,
}
use remote_assist_tool.Relay.Session.Teardown.{disconnect_client}
use remote_assist_tool.P2p.Udp.Relay.{key}
use remote_assist_tool.Relay.Server.Slots.{comes_from}
use remote_assist_tool.Ratelimit.Keyed.{new_keyed_limiter}
use remote_assist_tool.Ratelimit.Bucket.{new_bucket}
use remote_assist_tool.Relay.Code.{normalize_code, format_code}
use remote_assist_tool.Relay.Session.State.{new_session_manager}
use remote_assist_tool.Relay.Session.Create.{draw_session_id}
use remote_assist_tool.Relay.Session.Step.{run}
use remote_assist_tool.Relay.Session.Invariant.Defs.{Inv}
use remote_assist_tool.Relay.Server.Limiters.{Waiting, tool_round, tool_loop, allow_tool_message}
use remote_assist_tool.Relay.Server.Join.{handle_join}
use remote_assist_tool.Relay.Server.Joins.{
  IsRejection, IsPairing, limit_of, handle_join_either, handle_join-format_code,
}
use remote_assist_tool.Relay.Server.Handle.{handle_message}
use remote_assist_tool.Relay.Server.Roles.{handle_message_role}
use remote_assist_tool.Relay.Server.Patience.{Attempt, AllRefused, refused_joins_bounded}
use remote_assist_tool.Relay.Server.Throttle.{IsHonest, tool_frame-IsHonest, tool_loop_pays_once}
use remote_assist_tool.Relay.Server.Refines.Ran.{Ran}
use remote_assist_tool.Relay.Session.Pairing.{is_active_data_session}
use remote_assist_tool.Relay.Server.Refines.Ending.{AllProper}
use remote_assist_tool.Relay.Server.Safety.{serve_slots, serve_sessions}

-- An address is its own host.
abbrev net : Net
net = record { split_host_port = λ a. some a; parse_ip = λ h. some h }

abbrev cfg : Config
cfg = record {
  code_ttl = 0;
  code_length = pos 0;
  no_auth = true;
  disable_source_ip_limits = false;
  limits = RelayLimits.default_limits;
}

abbrev env : Env
env = record {
  now = 1000;
  id_draws = 71 ∷ [];
  code_draws = λ i. some 0;
  late = λ i. 0;
  meanwhile = [];
  sanitize = λ t. t;
  legacy_help_host = λ t. t;
  legacy_share_host = λ t. t;
  split_port = λ a. a;
  join_host_port = λ h p. h + p;
}

abbrev started : Server
started = make_server (with_defaults cfg) none 0 0

abbrev registers : Message
registers =
    register_request
      (some (record { client_id = 5; version = 1; host = 2; supports_update_notice = true }))

-- "noauth"
abbrev typed : List ℕ
typed = 110 ∷ 111 ∷ 97 ∷ 117 ∷ 116 ∷ 104 ∷ []

abbrev asks : Message
asks =
    join_request
      (some (record { code = typed; version = 1; host = 3; supports_update_notice = true }))

abbrev history : List Event
history =
    connects 1 9 (11 ∷ [])
    ∷ connects 2 9 (11 ∷ 12 ∷ [])
    ∷ receives 11 registers env
    ∷ receives 12 asks env
    ∷ []

starts : new_server cfg none 0 0 ≡ some started
unfolding new_server RelayLimits.normalize_limits UdpLimits.normalize_limits
    UdpLimits.default_limits RelayLimits.default_limits UdpLimits.first_bad
    UdpLimits.validate_limits UdpLimits.is_zero_value
starts = refl

abbrev type_of : Option Client → ConnState
type_of none = ConnState.new
type_of (some c) = c.type

abbrev after_history : Server
after_history = serve_all net started history

helper_joins : type_of (lookup 12 after_history.clients) ≡ ConnState.help
unfolding serve_all lookup make_server RelayLimits.normalize_limits insert new_keyed_limiter size
    new_bucket new_session_manager draw_session_id run
helper_joins = refl

data_plane_open : is_active_data_session after_history.sessions 71 ≡ true
unfolding serve_all is_active_data_session lookup make_server RelayLimits.normalize_limits insert
    new_keyed_limiter size new_bucket new_session_manager draw_session_id run
data_plane_open = refl

nonzero : (n : ℕ) → 0 < n → n ≢ 0
nonzero n h e = ground (arith, h, e)

history-AllProper : AllProper (with_defaults cfg) history
history-AllProper = (
  (nonzero 11 (omega arith), tt),
  ((nonzero 11 (omega arith), (nonzero 12 (omega arith), tt)), ((tt, tt), ((tt, tt), tt))),
)

serve_slots_example :
    (after_history.conn_total ≡ size after_history.clients)
    × (count_at 9 after_history.conn_per_ip ≡ count_if (comes_from net 9) after_history.clients)
    × (size after_history.clients ≤ pos_part (with_defaults cfg).limits.max_connections_total)
    × (cfg.disable_source_ip_limits ≡ false
        → count_if (comes_from net 9) after_history.clients
          ≤ pos_part (with_defaults cfg).limits.max_connections_per_ip)
serve_slots_example = serve_slots net cfg none 0 0 started history starts history-AllProper 9

serve_sessions_example :
    Ran net
      (with_defaults cfg)
      (new_session_manager (with_defaults cfg).code_ttl)
      after_history.sessions
    × Inv after_history.sessions
    × ((id at_ : ℕ) (c : Client)
        → lookup id after_history.clients ≡ some c
        → (serve net after_history (leaves id at_)).0.sessions
          ≡ (disconnect_client after_history.sessions at_ id).0)
serve_sessions_example = serve_sessions net cfg none 0 0 started history starts history-AllProper

abbrev share_now : Client
share_now = record {
  conn = record { ptr = 1; id = 11; version = 1; host = 2; remote_addr = 9 };
  type = ConnState.share;
  client_id = 5;
  supports_update_notice = true;
  join_failures = 0;
}

abbrev stranger : Client
stranger = record {
  conn = record { ptr = 3; id = 13; version = 0; host = 0; remote_addr = 9 };
  type = ConnState.new;
  client_id = 0;
  supports_update_notice = false;
  join_failures = 0;
}

handle_join_either_example :
    IsRejection env after_history
      (key (normalize_code typed))
      stranger
      (handle_join net env after_history stranger typed)
    ⊎ IsPairing env after_history
        (key (normalize_code typed))
        stranger
        (handle_join net env after_history stranger typed)
handle_join_either_example = handle_join_either net env stranger after_history typed

-- Nobody has registered at the server that has just started, so a guess fails.
abbrev guesses : List Attempt
guesses =
    record {
      env = env;
      server = started;
      req = record { code = typed; version = 1; host = 3; supports_update_notice = true };
    }
    ∷ []

five_failures : limit_of started ≡ 5
unfolding RelayLimits.normalize_limits RelayLimits.default_limits make_server
five_failures = refl

guesses-AllRefused : AllRefused net 5 (new_client 3 9 13) guesses
unfolding handle_message make_server RelayLimits.normalize_limits lookup insert new_keyed_limiter
    size new_bucket new_session_manager
guesses-AllRefused = (five_failures, refl, refl, tt)

refused_joins_bounded_example : length guesses < 5
refused_joins_bounded_example =
    refused_joins_bounded net 5 3 9 13 guesses (omega arith) guesses-AllRefused

handle_join-format_code_example :
    handle_join net env after_history stranger (format_code typed)
    ≡ handle_join net env after_history stranger typed
handle_join-format_code_example = handle_join-format_code net env stranger after_history typed refl

handle_message_role_run :
    (handle_message net env after_history share_now (tunnel_data (7 ∷ []))).client ≡ share_now
handle_message_role_run =
    handle_message_role net env after_history share_now (tunnel_data (7 ∷ [])) refl

tool_frame-IsHonest_example :
    (w : Waiting) × (allow_tool_message after_history.tool_limiter_per_conn
        after_history.tool_limiter_global env.now env.late share_now.conn.id 1
      ≡ some w)
    × IsHonest after_history share_now
        (tool ToolKind.resp (7 ∷ []))
        w
        (handle_message net env after_history share_now (tool ToolKind.resp (7 ∷ [])))
tool_frame-IsHonest_example =
    tool_frame-IsHonest net env after_history share_now ToolKind.resp (7 ∷ []) refl

-- A frame that has paid and is still waiting.
abbrev waiting : Waiting
waiting = record {
  own = after_history.tool_limiter_per_conn;
  global = new_bucket 0 5 0;
  per_conn_paid = true;
  accepted = false;
}

still_waits : tool_loop 1 (λ i. 5) 0 5 11 16 waiting ≡ some (tool_round 5 11 16 waiting)
unfolding tool_loop tool_round new_bucket
still_waits = refl

tool_loop_pays_once_run : (tool_round 5 11 16 waiting).own ≡ waiting.own
tool_loop_pays_once_run =
    tool_loop_pays_once 1 (λ i. 5) 0 5 11 16 waiting (tool_round 5 11 16 waiting) refl still_waits
