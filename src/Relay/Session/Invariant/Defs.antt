-- ===== src/Relay/Session/Invariant/Defs.antt =====
-- The invariant of the session manager (internal/relay/session.go).
use remote_assist_tool.Base.{ℕ, ◌<◌, ◌≡◌, ◌≢◌, ◌⊎◌, Bool, true, false, ◌&&◌, some, ◌==◌}
use remote_assist_tool.Base.Dict.{Dict, lookup, count_if, Distinct}
use remote_assist_tool.Relay.Session.State.{TunnelSession, SessionManager, has_id}
use remote_assist_tool.Relay.Session.Create.{count_of}

-- The session occupies a place in the quota of `ip`.
abbrev pub charged : TunnelSession → ℕ → Bool
charged s ip = s.counted_by_ip && s.creator_ip == ip

-- A session that the table holds under `k`.
pub record IsLive (next : ℕ) (k r : ℕ) (s : TunnelSession) : Type 0 where
  pub own_id : s.id ≡ k
  pub allocated : r < next
  pub open_ : s.closed ≡ false
  pub payer : s.counted_by_ip ≡ true → s.creator_ip ≢ 0
  pub help_named : has_id s.help 0 ≡ false
  pub pending_timed : s.pending_help_id ≢ 0 → s.timer_set ≡ true

abbrev pub InTable : (ℕ → TunnelSession) → Dict ℕ → ℕ → Type 0
InTable h sessions r = lookup (h r).id sessions ≡ some r

-- A connection that the routing table leads to `r` is an end of that session, and no helper that
-- waits for its debounce.
pub record IsRouted (h : ℕ → TunnelSession) (sessions : Dict ℕ) (c r : ℕ) : Type 0 where
  pub in_table : InTable h sessions r
  pub end_of : (has_id (h r).share c ≡ true) ⊎ (has_id (h r).help c ≡ true)
  pub named : c ≢ 0
  pub settled : (h r).pending_help_id ≢ c

pub record Inv (m : SessionManager) : Type 0 where
  pub distinct : Distinct m.sessions
  pub live : (k r : ℕ) → lookup k m.sessions ≡ some r → IsLive m.next k r (m.heap r)
  pub code :
      (c r : ℕ) → lookup c m.by_code ≡ some r → InTable m.heap m.sessions r × ((m.heap r).code ≡ c)
  pub client :
      (c r : ℕ)
      → lookup c m.by_client_id ≡ some r
      → InTable m.heap m.sessions r × ((m.heap r).client_id ≡ c) × (c ≢ 0)
  pub conn : (c r : ℕ) → lookup c m.by_conn_id ≡ some r → IsRouted m.heap m.sessions c r
  pub counts :
      (ip : ℕ)
      → count_of (lookup ip m.session_count_per_ip)
        ≡ count_if (λ r. charged (m.heap r) ip) m.sessions
