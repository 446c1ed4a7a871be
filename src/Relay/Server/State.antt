-- ===== src/Relay/Server/State.antt =====
-- internal/relay/server.go: the types of the server and the messages. A `*ClientConn` is the record
-- that the session manager sees with what only the server uses; its code text is a number by `key`,
-- as in the UDP relay. What the server writes to its connections is a list of effects.
use remote_assist_tool.Base.{ℕ, Bool, List, [], Option, none, some, ◌==◌, if◌then◌else◌}
use remote_assist_tool.Base.Dict.{Dict}
use remote_assist_tool.Base.Int.{ℤ, pos_part}
use remote_assist_tool.Ratelimit.Bucket.{Bucket, new_bucket}
use remote_assist_tool.Ratelimit.Keyed.{KeyedLimiter, new_keyed_limiter}
use remote_assist_tool.P2p.Udp.Relay.{StunServer, scaled}
use remote_assist_tool.Relay.Code.{Bytes, CodeManager, new_code_manager}
use remote_assist_tool.Relay.Limits as RelayLimits
use remote_assist_tool.Relay.Limits.{Limits}
use remote_assist_tool.Relay.Session.State.{ClientConn, SessionManager, new_session_manager}
use remote_assist_tool.Relay.Session.Step.{Call}

-- connStateNew, connStateShare, connStateHelp
pub data ConnState : Type 0 where
  new share help : ConnState

-- The rest of ClientConn.
pub record Client : Type 0 where
  pub conn : ClientConn
  pub type : ConnState
  pub client_id : ℕ
  pub supports_update_notice : Bool
  pub join_failures : ℕ

pub data ToolKind : Type 0 where
  hello hello_ack req resp stream cancel : ToolKind

pub record RegisterRequest : Type 0 where
  pub client_id : ℕ
  pub version : ℕ
  pub host : ℕ
  pub supports_update_notice : Bool

pub record JoinRequest : Type 0 where
  pub code : Bytes
  pub version : ℕ
  pub host : ℕ
  pub supports_update_notice : Bool

pub record PeerAddrAdvertise : Type 0 where
  pub public_addr : ℕ
  pub private_addr : ℕ
  pub nat_type : ℕ

-- A message that a client sends. A payload that DecodePayload refuses is `none`.
pub data Message : Type 0 where
  register_request : Option RegisterRequest → Message
  join_request : Option JoinRequest → Message
  tunnel_data : Bytes → Message
  heartbeat : Message
  peer_addr_advertise : Option PeerAddrAdvertise → Message
  p2p_connected : Message
  tool : ToolKind → Bytes → Message
  other : Message

pub data ErrorCode : Type 0 where
  rate_limited server_busy code_gen_failed session_limit client_id_conflict : ErrorCode
  peer_reconnected peer_disconnected : ErrorCode

-- A message that the server sends.
pub data Reply : Type 0 where
  register_response : ℕ → ℕ → ℕ → Reply  -- Code, ExpiresAt, UpdateInfo
  join_response : ℕ → ℕ → ℕ → ℕ → Reply  -- SessionID, PeerVersion, PeerHost, UpdateInfo
  join_failed : Reply
  session_ready : ℕ → ℕ → ℕ → Reply  -- SessionID, PeerVersion, PeerHost
  peer_addr_ready : ℕ → ℕ → Bool → Bool → ℕ → Reply
  heartbeat_at : ℕ → Reply
  forwarded : Message → Reply
  error : ErrorCode → Reply

pub data Effect : Type 0 where
  send : ClientConn → Reply → Effect
  close : ClientConn → Effect

pub record Config : Type 0 where
  pub code_ttl : ℕ
  pub code_length : ℤ
  pub no_auth : Bool
  pub disable_source_ip_limits : Bool
  pub limits : Limits

pub record Server : Type 0 where
  pub config : Config
  pub sessions : SessionManager
  pub codes : CodeManager
  pub clients : Dict Client
  pub stun_server : Option StunServer
  pub conn_total : ℕ
  pub conn_per_ip : Dict ℕ
  pub join_limiter_per_ip : KeyedLimiter
  pub join_limiter_global : Bucket
  pub create_limiter_per_ip : KeyedLimiter
  pub create_limiter_global : Bucket
  pub heartbeat_limiter_per_ip : KeyedLimiter
  pub heartbeat_limiter_global : Bucket
  pub tunnel_data_limiter_per_conn : KeyedLimiter
  pub tunnel_data_limiter_global : Bucket
  pub control_limiter_per_conn : KeyedLimiter
  pub control_limiter_global : Bucket
  pub tool_limiter_per_conn : KeyedLimiter
  pub tool_limiter_global : Bucket
  pub update_info : ℕ

-- ratelimit.NewKeyedLimiter and ratelimit.NewBucket with rates for a second.
abbrev pub keyed : Limits → ℤ → ℤ → KeyedLimiter
keyed l rate burst =
    new_keyed_limiter (pos_part rate) (scaled (pos_part burst)) (pos_part l.limiter_max_keys)
      (scaled (pos_part l.limiter_idle_seconds))

abbrev pub bucket : ℕ → ℤ → ℤ → Bucket
bucket now rate burst = new_bucket (pos_part rate) (scaled (pos_part burst)) now

-- The server that NewServer makes of a configuration whose defaults are filled in.
unfoldable pub make_server : Config → Option StunServer → ℕ → ℕ → Server
make_server cfg stun update_info now =
    let l = cfg.limits in
    record {
      config = cfg;
      sessions = new_session_manager cfg.code_ttl;
      codes = new_code_manager cfg.code_length;
      clients = [];
      stun_server = stun;
      conn_total = 0;
      conn_per_ip = [];
      join_limiter_per_ip = keyed l l.join_rate_per_ip l.join_burst_per_ip;
      join_limiter_global = bucket now l.join_rate_global l.join_burst_global;
      create_limiter_per_ip = keyed l l.create_rate_per_ip l.create_burst_per_ip;
      create_limiter_global = bucket now l.create_rate_global l.create_burst_global;
      heartbeat_limiter_per_ip = keyed l l.heartbeat_rate_per_ip l.heartbeat_burst_per_ip;
      heartbeat_limiter_global = bucket now l.heartbeat_rate_global l.heartbeat_burst_global;
      tunnel_data_limiter_per_conn = keyed l l.data_rate_per_connection l.data_burst_per_connection;
      tunnel_data_limiter_global = bucket now l.data_rate_global l.data_burst_global;
      control_limiter_per_conn =
          keyed l l.control_rate_per_connection l.control_burst_per_connection;
      control_limiter_global = bucket now l.control_rate_global l.control_burst_global;
      tool_limiter_per_conn =
          keyed l l.tool_rate_kib_per_connection l.tool_burst_kib_per_connection;
      tool_limiter_global = bucket now l.tool_rate_kib_global l.tool_burst_kib_global;
      update_info = update_info;
    }

-- `cfg.CodeTTL == 0` stands for 30 minutes.
abbrev pub with_defaults : Config → Config
with_defaults cfg = record cfg {
  code_ttl = if cfg.code_ttl == 0 then 1_800_000_000_000 else cfg.code_ttl;
  limits = RelayLimits.normalize_limits cfg.limits;
}

-- `none` where the limits are refused. The checks of the STUN list and of the path of the update
-- file are left out.
unfoldable pub new_server : Config → Option StunServer → ℕ → ℕ → Option Server
unfolding make_server RelayLimits.validate_limits
new_server cfg stun update_info now =
    elim (RelayLimits.validate_limits (with_defaults cfg).limits) [
      | none ↦ some (make_server (with_defaults cfg) stun update_info now)
      | some invalid ↦ none
    ]

-- What a handler reads from outside: the clock, the random draws of session IDs and codes, how much
-- later than the shortest sleep allows the loop of the tool channel reads the clock, and the calls
-- that other goroutines make on the session manager between two calls of the handler. The texts that
-- sanitize.go and update_notice.go make of a text, and package net of addresses, are functions.
pub record Env : Type 0 where
  pub now : ℕ
  pub id_draws : List ℕ
  pub code_draws : ℕ → Option ℕ
  pub late : ℕ → ℕ
  pub meanwhile : List (ℕ × Call)
  pub sanitize : ℕ → ℕ
  pub legacy_help_host : ℕ → ℕ
  pub legacy_share_host : ℕ → ℕ
  pub split_port : ℕ → ℕ
  pub join_host_port : ℕ → ℕ → ℕ

-- What a handler leaves behind; `closes` is its result closeConn.
pub record Outcome : Type 0 where
  pub server : Server
  pub client : Client
  pub out : List Effect
  pub closes : Bool
