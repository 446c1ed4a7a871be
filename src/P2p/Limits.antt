-- ===== src/P2p/Limits.antt =====
-- internal/p2p/limits.go: the thresholds of the UDP relay. A float64 of the configuration is a whole
-- number here, and the name of a field in an error message is the position of its check.
pub mod Valid
use remote_assist_tool.Base.{
  ℕ, suc, Bool, true, false, ◌&&◌, List, [], ◌∷◌, Option, none, some, if◌then◌else◌, ◌==◌,
}
use remote_assist_tool.Base.Int.{ℤ, pos, negsuc, ltb_ℤ}

abbrev pub is_zero : ℤ → Bool
is_zero (pos n) = n == 0
is_zero (negsuc n) = false

-- `if l.X == 0 { l.X = d.X }`
abbrev pub or_else : ℤ → ℤ → ℤ
or_else x d = if is_zero x then d else x

-- The loop over the checks, at position `i`: where the first one fails.
unfoldable pub first_bad : ℕ → List ℤ → Option ℕ
first_bad i [] = none
first_bad i (x ∷ xs) = if ltb_ℤ (pos 0) x then first_bad (suc i) xs else some i

pub record Limits : Type 0 where
  pub worker_count : ℤ
  pub task_queue_depth : ℤ
  pub packets_per_ip_rate : ℤ
  pub packets_per_ip_burst : ℤ
  pub packets_global_rate : ℤ
  pub packets_global_burst : ℤ
  pub limiter_max_keys : ℤ
  pub limiter_idle_seconds : ℤ
  pub max_relay_sessions_total : ℤ
  pub max_relay_sessions_per_ip : ℤ
  pub relay_bytes_per_session : ℤ
  pub relay_bytes_burst_session : ℤ
  pub relay_bytes_global : ℤ
  pub relay_bytes_burst_global : ℤ
  pub invalid_log_sample_every : ℤ

unfoldable pub default_limits : Limits
default_limits = record {
  worker_count = pos 4;
  task_queue_depth = pos 256;
  packets_per_ip_rate = pos 1000;
  packets_per_ip_burst = pos 2000;
  packets_global_rate = pos 20000;
  packets_global_burst = pos 40000;
  limiter_max_keys = pos 8192;
  limiter_idle_seconds = pos 600;
  max_relay_sessions_total = pos 5000;
  max_relay_sessions_per_ip = pos 64;
  relay_bytes_per_session = pos 2097152;
  relay_bytes_burst_session = pos 4194304;
  relay_bytes_global = pos 20971520;
  relay_bytes_burst_global = pos 41943040;
  invalid_log_sample_every = pos 1000;
}

unfoldable pub normalize_limits : Limits → Limits
unfolding default_limits
normalize_limits l = record {
  worker_count = or_else l.worker_count default_limits.worker_count;
  task_queue_depth = or_else l.task_queue_depth default_limits.task_queue_depth;
  packets_per_ip_rate = or_else l.packets_per_ip_rate default_limits.packets_per_ip_rate;
  packets_per_ip_burst = or_else l.packets_per_ip_burst default_limits.packets_per_ip_burst;
  packets_global_rate = or_else l.packets_global_rate default_limits.packets_global_rate;
  packets_global_burst = or_else l.packets_global_burst default_limits.packets_global_burst;
  limiter_max_keys = or_else l.limiter_max_keys default_limits.limiter_max_keys;
  limiter_idle_seconds = or_else l.limiter_idle_seconds default_limits.limiter_idle_seconds;
  max_relay_sessions_total =
      or_else l.max_relay_sessions_total default_limits.max_relay_sessions_total;
  max_relay_sessions_per_ip =
      or_else l.max_relay_sessions_per_ip default_limits.max_relay_sessions_per_ip;
  relay_bytes_per_session =
      or_else l.relay_bytes_per_session default_limits.relay_bytes_per_session;
  relay_bytes_burst_session =
      or_else l.relay_bytes_burst_session default_limits.relay_bytes_burst_session;
  relay_bytes_global = or_else l.relay_bytes_global default_limits.relay_bytes_global;
  relay_bytes_burst_global =
      or_else l.relay_bytes_burst_global default_limits.relay_bytes_burst_global;
  invalid_log_sample_every =
      or_else l.invalid_log_sample_every default_limits.invalid_log_sample_every;
}

-- The checks, in their order: the position of the first value that is not positive.
abbrev pub values : Limits → List ℤ
values l =
    l.worker_count ∷ l.task_queue_depth ∷ l.packets_per_ip_rate ∷ l.packets_per_ip_burst
    ∷ l.packets_global_rate ∷ l.packets_global_burst ∷ l.limiter_max_keys ∷ l.limiter_idle_seconds
    ∷ l.max_relay_sessions_total ∷ l.max_relay_sessions_per_ip ∷ l.relay_bytes_per_session
    ∷ l.relay_bytes_burst_session ∷ l.relay_bytes_global ∷ l.relay_bytes_burst_global
    ∷ l.invalid_log_sample_every ∷ []

-- `l == Limits{}`
unfoldable pub all_zero : List ℤ → Bool
all_zero [] = true
all_zero (x ∷ xs) = is_zero x && all_zero xs

unfoldable pub is_zero_value : Limits → Bool
unfolding all_zero
is_zero_value l = all_zero (values l)

unfoldable pub validate_limits : Limits → Option ℕ
unfolding first_bad
validate_limits l = first_bad 0 (values l)
