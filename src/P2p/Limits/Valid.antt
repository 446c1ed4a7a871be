-- ===== src/P2p/Limits/Valid.antt =====
-- Which limits internal/p2p/limits.go accepts, and what filling in the defaults does to them.
use remote_assist_tool.Base.{
  ℕ, suc, ◌≡◌, ◌↔◌, inl, inr, refl, arith, true, List, [], ◌∷◌, none, Bool-cases,
}
use remote_assist_tool.Base.Int.{ℤ, pos, ltb_ℤ}
use remote_assist_tool.P2p.Limits.{
  Limits, or_else, first_bad, default_limits, normalize_limits, values, validate_limits,
}

unfoldable pub AllPositive : List ℤ → Type 0
AllPositive [] = Unit
AllPositive (x ∷ xs) = (ltb_ℤ (pos 0) x ≡ true) × AllPositive xs

pub first_bad-AllPositive : (i : ℕ) (xs : List ℤ) → first_bad i xs ≡ none → AllPositive xs
unfolding first_bad AllPositive
first_bad-AllPositive i [] e = tt
first_bad-AllPositive i (x ∷ xs) e = elim (Bool-cases (ltb_ℤ (pos 0) x)) [
  | inl y ↦ (y, first_bad-AllPositive (suc i) xs (ground (arith, y, e)))
  | inr n ↦ absurd (ground (arith, n, e))
]

pub AllPositive-first_bad : (i : ℕ) (xs : List ℤ) → AllPositive xs → first_bad i xs ≡ none
unfolding first_bad AllPositive
AllPositive-first_bad i [] h = refl
AllPositive-first_bad i (x ∷ xs) h = ground (arith, h.0, AllPositive-first_bad (suc i) xs h.1)

pub or_else-positive : (x d : ℤ) → ltb_ℤ (pos 0) x ≡ true → or_else x d ≡ x
or_else-positive x d h = ground (arith, h)

-- The limits of the UDP relay are accepted exactly when every one of them is positive.
pub validate_limits_iff : (l : Limits) → (validate_limits l ≡ none) ↔ AllPositive (values l)
unfolding validate_limits
validate_limits_iff l = (first_bad-AllPositive 0 (values l), AllPositive-first_bad 0 (values l))

-- Limits that are accepted stay as they are when the defaults are filled in.
pub normalize_udp_limits : (l : Limits) → validate_limits l ≡ none → normalize_limits l ≡ l
unfolding normalize_limits AllPositive
normalize_udp_limits l e =
    let v = (validate_limits_iff l).0 e in
    cc (
      or_else-positive l.worker_count default_limits.worker_count v.0,
      or_else-positive l.task_queue_depth default_limits.task_queue_depth v.1.0,
      or_else-positive l.packets_per_ip_rate default_limits.packets_per_ip_rate v.1.1.0,
      or_else-positive l.packets_per_ip_burst default_limits.packets_per_ip_burst v.1.1.1.0,
      or_else-positive l.packets_global_rate default_limits.packets_global_rate v.1.1.1.1.0,
      or_else-positive l.packets_global_burst default_limits.packets_global_burst v.1.1.1.1.1.0,
      or_else-positive l.limiter_max_keys default_limits.limiter_max_keys v.1.1.1.1.1.1.0,
      or_else-positive l.limiter_idle_seconds default_limits.limiter_idle_seconds v.1.1.1.1.1.1.1.0,
      or_else-positive l.max_relay_sessions_total default_limits.max_relay_sessions_total
          v.1.1.1.1.1.1.1.1.0,
      or_else-positive l.max_relay_sessions_per_ip default_limits.max_relay_sessions_per_ip
          v.1.1.1.1.1.1.1.1.1.0,
      or_else-positive l.relay_bytes_per_session default_limits.relay_bytes_per_session
          v.1.1.1.1.1.1.1.1.1.1.0,
      or_else-positive l.relay_bytes_burst_session default_limits.relay_bytes_burst_session
          v.1.1.1.1.1.1.1.1.1.1.1.0,
      or_else-positive l.relay_bytes_global default_limits.relay_bytes_global
          v.1.1.1.1.1.1.1.1.1.1.1.1.0,
      or_else-positive l.relay_bytes_burst_global default_limits.relay_bytes_burst_global
          v.1.1.1.1.1.1.1.1.1.1.1.1.1.0,
      or_else-positive l.invalid_log_sample_every default_limits.invalid_log_sample_every
          v.1.1.1.1.1.1.1.1.1.1.1.1.1.1.0,
    )
