-- ===== src/Relay/Limits.antt =====
-- internal/relay/limits.go: the thresholds of the relay. A float64 of the configuration is a whole
-- number here, and the name of a field in an error message is the position of its check.
pub mod Valid
use remote_assist_tool.Base.{
  ℕ, suc, Bool, true, false, ◌&&◌, List, [], ◌∷◌, Option, none, some, if◌then◌else◌, ◌==◌,
}
use remote_assist_tool.Base.Int.{ℤ, pos, negsuc, ltb_ℤ}
use remote_assist_tool.P2p.Limits as Udp
use remote_assist_tool.P2p.Limits.{is_zero, or_else, first_bad}

-- maxMessageSize / 1024
abbrev pub max_frame_kib : ℤ
max_frame_kib = pos 4096

pub record Limits : Type 0 where
  pub max_connections_total : ℤ
  pub max_connections_per_ip : ℤ
  pub max_join_failures : ℤ
  pub join_rate_per_ip : ℤ
  pub join_burst_per_ip : ℤ
  pub join_rate_global : ℤ
  pub join_burst_global : ℤ
  pub reject_audit_sample_every : ℤ
  pub create_rate_per_ip : ℤ
  pub create_burst_per_ip : ℤ
  pub create_rate_global : ℤ
  pub create_burst_global : ℤ
  pub max_active_sessions_per_ip : ℤ
  pub max_active_sessions_total : ℤ
  pub heartbeat_rate_per_ip : ℤ
  pub heartbeat_burst_per_ip : ℤ
  pub heartbeat_rate_global : ℤ
  pub heartbeat_burst_global : ℤ
  pub data_rate_per_connection : ℤ
  pub data_burst_per_connection : ℤ
  pub data_rate_global : ℤ
  pub data_burst_global : ℤ
  pub tool_rate_kib_per_connection : ℤ
  pub tool_burst_kib_per_connection : ℤ
  pub tool_rate_kib_global : ℤ
  pub tool_burst_kib_global : ℤ
  pub control_rate_per_connection : ℤ
  pub control_burst_per_connection : ℤ
  pub control_rate_global : ℤ
  pub control_burst_global : ℤ
  pub limiter_max_keys : ℤ
  pub limiter_idle_seconds : ℤ
  pub udp : Udp.Limits

unfoldable pub default_limits : Limits
unfolding Udp.default_limits
default_limits = record {
  max_connections_total = pos 2000;
  max_connections_per_ip = pos 128;
  max_join_failures = pos 5;
  join_rate_per_ip = pos 5;
  join_burst_per_ip = pos 20;
  join_rate_global = pos 200;
  join_burst_global = pos 400;
  reject_audit_sample_every = pos 1000;
  create_rate_per_ip = pos 2;
  create_burst_per_ip = pos 10;
  create_rate_global = pos 100;
  create_burst_global = pos 200;
  max_active_sessions_per_ip = pos 10;
  max_active_sessions_total = pos 5000;
  heartbeat_rate_per_ip = pos 10;
  heartbeat_burst_per_ip = pos 20;
  heartbeat_rate_global = pos 500;
  heartbeat_burst_global = pos 1000;
  data_rate_per_connection = pos 100;
  data_burst_per_connection = pos 200;
  data_rate_global = pos 5000;
  data_burst_global = pos 10000;
  tool_rate_kib_per_connection = pos 16384;
  tool_burst_kib_per_connection = pos 32768;
  tool_rate_kib_global = pos 131072;
  tool_burst_kib_global = pos 262144;
  control_rate_per_connection = pos 2;
  control_burst_per_connection = pos 5;
  control_rate_global = pos 1000;
  control_burst_global = pos 2000;
  limiter_max_keys = pos 8192;
  limiter_idle_seconds = pos 600;
  udp = Udp.default_limits;
}

unfoldable pub normalize_limits : Limits → Limits
unfolding default_limits Udp.default_limits
normalize_limits l = record {
  max_connections_total = or_else l.max_connections_total default_limits.max_connections_total;
  max_connections_per_ip = or_else l.max_connections_per_ip default_limits.max_connections_per_ip;
  max_join_failures = or_else l.max_join_failures default_limits.max_join_failures;
  join_rate_per_ip = or_else l.join_rate_per_ip default_limits.join_rate_per_ip;
  join_burst_per_ip = or_else l.join_burst_per_ip default_limits.join_burst_per_ip;
  join_rate_global = or_else l.join_rate_global default_limits.join_rate_global;
  join_burst_global = or_else l.join_burst_global default_limits.join_burst_global;
  reject_audit_sample_every =
      or_else l.reject_audit_sample_every default_limits.reject_audit_sample_every;
  create_rate_per_ip = or_else l.create_rate_per_ip default_limits.create_rate_per_ip;
  create_burst_per_ip = or_else l.create_burst_per_ip default_limits.create_burst_per_ip;
  create_rate_global = or_else l.create_rate_global default_limits.create_rate_global;
  create_burst_global = or_else l.create_burst_global default_limits.create_burst_global;
  max_active_sessions_per_ip =
      or_else l.max_active_sessions_per_ip default_limits.max_active_sessions_per_ip;
  max_active_sessions_total =
      or_else l.max_active_sessions_total default_limits.max_active_sessions_total;
  heartbeat_rate_per_ip = or_else l.heartbeat_rate_per_ip default_limits.heartbeat_rate_per_ip;
  heartbeat_burst_per_ip = or_else l.heartbeat_burst_per_ip default_limits.heartbeat_burst_per_ip;
  heartbeat_rate_global = or_else l.heartbeat_rate_global default_limits.heartbeat_rate_global;
  heartbeat_burst_global = or_else l.heartbeat_burst_global default_limits.heartbeat_burst_global;
  data_rate_per_connection =
      or_else l.data_rate_per_connection default_limits.data_rate_per_connection;
  data_burst_per_connection =
      or_else l.data_burst_per_connection default_limits.data_burst_per_connection;
  data_rate_global = or_else l.data_rate_global default_limits.data_rate_global;
  data_burst_global = or_else l.data_burst_global default_limits.data_burst_global;
  tool_rate_kib_per_connection =
      or_else l.tool_rate_kib_per_connection default_limits.tool_rate_kib_per_connection;
  tool_burst_kib_per_connection =
      or_else l.tool_burst_kib_per_connection default_limits.tool_burst_kib_per_connection;
  tool_rate_kib_global = or_else l.tool_rate_kib_global default_limits.tool_rate_kib_global;
  tool_burst_kib_global = or_else l.tool_burst_kib_global default_limits.tool_burst_kib_global;
  control_rate_per_connection =
      or_else l.control_rate_per_connection default_limits.control_rate_per_connection;
  control_burst_per_connection =
      or_else l.control_burst_per_connection default_limits.control_burst_per_connection;
  control_rate_global = or_else l.control_rate_global default_limits.control_rate_global;
  control_burst_global = or_else l.control_burst_global default_limits.control_burst_global;
  limiter_max_keys = or_else l.limiter_max_keys default_limits.limiter_max_keys;
  limiter_idle_seconds = or_else l.limiter_idle_seconds default_limits.limiter_idle_seconds;
  udp = if Udp.is_zero_value l.udp then default_limits.udp else l.udp;
}

-- The checks, in their order: the position of the first value that is not positive.
abbrev pub values : Limits → List ℤ
values l =
    l.max_connections_total ∷ l.max_connections_per_ip ∷ l.max_join_failures ∷ l.join_rate_per_ip
    ∷ l.join_burst_per_ip ∷ l.join_rate_global ∷ l.join_burst_global ∷ l.reject_audit_sample_every
    ∷ l.create_rate_per_ip ∷ l.create_burst_per_ip ∷ l.create_rate_global ∷ l.create_burst_global
    ∷ l.max_active_sessions_per_ip ∷ l.max_active_sessions_total ∷ l.heartbeat_rate_per_ip
    ∷ l.heartbeat_burst_per_ip ∷ l.heartbeat_rate_global ∷ l.heartbeat_burst_global
    ∷ l.data_rate_per_connection ∷ l.data_burst_per_connection ∷ l.data_rate_global
    ∷ l.data_burst_global ∷ l.tool_rate_kib_per_connection ∷ l.tool_burst_kib_per_connection
    ∷ l.tool_rate_kib_global ∷ l.tool_burst_kib_global ∷ l.control_rate_per_connection
    ∷ l.control_burst_per_connection ∷ l.control_rate_global ∷ l.control_burst_global
    ∷ l.limiter_max_keys ∷ l.limiter_idle_seconds ∷ []

pub data Invalid : Type 0 where
  not_positive : ℕ → Invalid
  too_small_per_connection : Invalid
  too_small_global : Invalid
  udp_not_positive : ℕ → Invalid

abbrev pub udp_error : Option ℕ → Option Invalid
udp_error none = none
udp_error (some i) = some (udp_not_positive i)

unfoldable pub validate_limits : Limits → Option Invalid
unfolding first_bad Udp.validate_limits
validate_limits l = elim (first_bad 0 (values l)) [
  | some i ↦ some (not_positive i)
  | none ↦
      if ltb_ℤ l.tool_burst_kib_per_connection max_frame_kib
      then some too_small_per_connection
      else if ltb_ℤ l.tool_burst_kib_global max_frame_kib
      then some too_small_global
      else udp_error (Udp.validate_limits l.udp)
]
