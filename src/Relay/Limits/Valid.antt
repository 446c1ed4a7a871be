-- ===== src/Relay/Limits/Valid.antt =====
-- Which limits internal/relay/limits.go accepts, and what filling in the defaults does to them.
use remote_assist_tool.Base.{◌≡◌, ◌↔◌, inl, inr, arith, false, none, if◌then◌else◌, Option-cases}
use remote_assist_tool.Base.Int.{ltb_ℤ}
use remote_assist_tool.P2p.Limits as Udp
use remote_assist_tool.P2p.Limits.{is_zero, or_else, first_bad}
use remote_assist_tool.P2p.Limits.Valid as UdpValid
use remote_assist_tool.P2p.Limits.Valid.{
  AllPositive, first_bad-AllPositive, AllPositive-first_bad, or_else-positive,
}
use remote_assist_tool.Relay.Limits.{
  Limits, default_limits, normalize_limits, values, validate_limits, max_frame_kib,
}

-- Both budgets of the tool channel hold the largest message.
pub record IsValid (l : Limits) : Type 0 where
  pub positive : AllPositive (values l)
  pub per_connection : ltb_ℤ l.tool_burst_kib_per_connection max_frame_kib ≡ false
  pub global : ltb_ℤ l.tool_burst_kib_global max_frame_kib ≡ false
  pub udp_positive : AllPositive (Udp.values l.udp)

-- The limits of the relay are accepted exactly when every one of them is positive, those of UDP
-- included, and a message of the greatest size fits into both budgets of the tool channel.
pub relay_limits_iff : (l : Limits) → (validate_limits l ≡ none) ↔ IsValid l
unfolding validate_limits
relay_limits_iff l = (
  λ e. elim (Option-cases (first_bad 0 (values l))) [
    | inr (i, bad) ↦ absurd (ground (arith, bad, e))
    | inl good ↦
        let rest : Udp.validate_limits l.udp ≡ none = ground (arith, good, e) in
        record {
          positive = first_bad-AllPositive 0 (values l) good;
          per_connection = ground (arith, good, e);
          global = ground (arith, good, e);
          udp_positive = (UdpValid.validate_limits_iff l.udp).0 rest;
        }
  ],
  λ v. ground (
    arith,
    AllPositive-first_bad 0 (values l) v.positive,
    v.per_connection,
    v.global,
    (UdpValid.validate_limits_iff l.udp).1 v.udp_positive,
  ),
)

udp_kept :
    (u : Udp.Limits)
    → AllPositive (Udp.values u)
    → (if Udp.is_zero_value u then default_limits.udp else u) ≡ u
unfolding Udp.is_zero_value Udp.all_zero AllPositive
udp_kept u v = ground (arith, v.0)

-- Limits that are accepted stay as they are when the defaults are filled in.
normalize_relay_limits : (l : Limits) → validate_limits l ≡ none → normalize_limits l ≡ l
unfolding normalize_limits AllPositive Udp.is_zero_value Udp.all_zero
normalize_relay_limits l e =
    let w = (relay_limits_iff l).0 e in
    let v = w.positive in
    cc (
      or_else-positive l.max_connections_total default_limits.max_connections_total v.0,
      or_else-positive l.max_connections_per_ip default_limits.max_connections_per_ip v.1.0,
      or_else-positive l.max_join_failures default_limits.max_join_failures v.1.1.0,
      or_else-positive l.join_rate_per_ip default_limits.join_rate_per_ip v.1.1.1.0,
      or_else-positive l.join_burst_per_ip default_limits.join_burst_per_ip v.1.1.1.1.0,
      or_else-positive l.join_rate_global default_limits.join_rate_global v.1.1.1.1.1.0,
      or_else-positive l.join_burst_global default_limits.join_burst_global v.1.1.1.1.1.1.0,
      or_else-positive l.reject_audit_sample_every default_limits.reject_audit_sample_every
          v.1.1.1.1.1.1.1.0,
      or_else-positive l.create_rate_per_ip default_limits.create_rate_per_ip v.1.1.1.1.1.1.1.1.0,
      or_else-positive l.create_burst_per_ip default_limits.create_burst_per_ip
          v.1.1.1.1.1.1.1.1.1.0,
      or_else-positive l.create_rate_global default_limits.create_rate_global
          v.1.1.1.1.1.1.1.1.1.1.0,
      or_else-positive l.create_burst_global default_limits.create_burst_global
          v.1.1.1.1.1.1.1.1.1.1.1.0,
      or_else-positive l.max_active_sessions_per_ip default_limits.max_active_sessions_per_ip
          v.1.1.1.1.1.1.1.1.1.1.1.1.0,
      or_else-positive l.max_active_sessions_total default_limits.max_active_sessions_total
          v.1.1.1.1.1.1.1.1.1.1.1.1.1.0,
      or_else-positive l.heartbeat_rate_per_ip default_limits.heartbeat_rate_per_ip
          v.1.1.1.1.1.1.1.1.1.1.1.1.1.1.0,
      or_else-positive l.heartbeat_burst_per_ip default_limits.heartbeat_burst_per_ip
          v.1.1.1.1.1.1.1.1.1.1.1.1.1.1.1.0,
      or_else-positive l.heartbeat_rate_global default_limits.heartbeat_rate_global
          v.1.1.1.1.1.1.1.1.1.1.1.1.1.1.1.1.0,
      or_else-positive l.heartbeat_burst_global default_limits.heartbeat_burst_global
          v.1.1.1.1.1.1.1.1.1.1.1.1.1.1.1.1.1.0,
      or_else-positive l.data_rate_per_connection default_limits.data_rate_per_connection
          v.1.1.1.1.1.1.1.1.1.1.1.1.1.1.1.1.1.1.0,
      or_else-positive l.data_burst_per_connection default_limits.data_burst_per_connection
          v.1.1.1.1.1.1.1.1.1.1.1.1.1.1.1.1.1.1.1.0,
      or_else-positive l.data_rate_global default_limits.data_rate_global
          v.1.1.1.1.1.1.1.1.1.1.1.1.1.1.1.1.1.1.1.1.0,
      or_else-positive l.data_burst_global default_limits.data_burst_global
          v.1.1.1.1.1.1.1.1.1.1.1.1.1.1.1.1.1.1.1.1.1.0,
      or_else-positive l.tool_rate_kib_per_connection default_limits.tool_rate_kib_per_connection
          v.1.1.1.1.1.1.1.1.1.1.1.1.1.1.1.1.1.1.1.1.1.1.0,
      or_else-positive l.tool_burst_kib_per_connection default_limits.tool_burst_kib_per_connection
          v.1.1.1.1.1.1.1.1.1.1.1.1.1.1.1.1.1.1.1.1.1.1.1.0,
      or_else-positive l.tool_rate_kib_global default_limits.tool_rate_kib_global
          v.1.1.1.1.1.1.1.1.1.1.1.1.1.1.1.1.1.1.1.1.1.1.1.1.0,
      or_else-positive l.tool_burst_kib_global default_limits.tool_burst_kib_global
          v.1.1.1.1.1.1.1.1.1.1.1.1.1.1.1.1.1.1.1.1.1.1.1.1.1.0,
      or_else-positive l.control_rate_per_connection default_limits.control_rate_per_connection
          v.1.1.1.1.1.1.1.1.1.1.1.1.1.1.1.1.1.1.1.1.1.1.1.1.1.1.0,
      or_else-positive l.control_burst_per_connection default_limits.control_burst_per_connection
          v.1.1.1.1.1.1.1.1.1.1.1.1.1.1.1.1.1.1.1.1.1.1.1.1.1.1.1.0,
      or_else-positive l.control_rate_global default_limits.control_rate_global
          v.1.1.1.1.1.1.1.1.1.1.1.1.1.1.1.1.1.1.1.1.1.1.1.1.1.1.1.1.0,
      or_else-positive l.control_burst_global default_limits.control_burst_global
          v.1.1.1.1.1.1.1.1.1.1.1.1.1.1.1.1.1.1.1.1.1.1.1.1.1.1.1.1.1.0,
      or_else-positive l.limiter_max_keys default_limits.limiter_max_keys
          v.1.1.1.1.1.1.1.1.1.1.1.1.1.1.1.1.1.1.1.1.1.1.1.1.1.1.1.1.1.1.0,
      or_else-positive l.limiter_idle_seconds default_limits.limiter_idle_seconds
          v.1.1.1.1.1.1.1.1.1.1.1.1.1.1.1.1.1.1.1.1.1.1.1.1.1.1.1.1.1.1.1.0,
      udp_kept l.udp w.udp_positive,
    )
