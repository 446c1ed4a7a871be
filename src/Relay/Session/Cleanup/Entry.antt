-- ===== src/Relay/Session/Cleanup/Entry.antt =====
-- One round of CleanupExpired (internal/relay/session.go).
use remote_assist_tool.Base.{
  ℕ, ◌<◌, ◌≡◌, ◌≢◌, Bool, true, not, ◌&&◌, ◌||◌, none, some, arith, ◌==◌, ltb, if◌then◌else◌,
}
use remote_assist_tool.Base.Dict.{lookup, delete, lookup-delete}
use remote_assist_tool.Relay.Session.State.{TunnelSession, SessionManager, is_set}
use remote_assist_tool.Relay.Session.Teardown.{Cleanup, cleanup_entry}
use remote_assist_tool.Relay.Session.Invariant.Defs.{Inv}

-- The cleanup leaves this session alone: it has not expired, or both ends use it.
abbrev pub survives : TunnelSession → ℕ → Bool
survives s now = not (ltb s.expires_at now) || (is_set s.share && is_set s.help)

-- No code leads to the session.
abbrev pub Uncoded : SessionManager → ℕ → Type 0
Uncoded m r = (c : ℕ) → lookup c m.by_code ≢ some r

module _ (now k r : ℕ) (c : Cleanup) (v : Inv c.after)
    (found : lookup k c.after.sessions ≡ some r) where
  -- The entries of other sessions stay.
  pub entry_table :
      (i : ℕ)
      → lookup i (cleanup_entry now k r c).after.sessions ≡ (
          if k == i
          then if survives (c.after.heap r) now then some r else none
          else lookup i c.after.sessions)
  unfolding cleanup_entry
  entry_table i = ground (arith, found, lookup-delete k i c.after.sessions)

  pub entry_heap : (x : ℕ) → x ≢ r → (cleanup_entry now k r c).after.heap x ≡ c.after.heap x
  unfolding cleanup_entry
  entry_heap x n = ground (arith, found, n)

  pub entry_heap_self :
      survives (c.after.heap r) now ≡ true → (cleanup_entry now k r c).after.heap r ≡ c.after.heap r
  unfolding cleanup_entry
  entry_heap_self s = ground (arith, found, s)

  pub entry_codes :
      (i x : ℕ)
      → lookup i (cleanup_entry now k r c).after.by_code ≡ some x
      → lookup i c.after.by_code ≡ some x
  unfolding cleanup_entry
  entry_codes i x h = ground (
    arith,
    found,
    h,
    lookup-delete (c.after.heap r).code i c.after.by_code,
    lookup-delete (c.after.heap r).code i (delete (c.after.heap r).code c.after.by_code),
  )

  pub entry_uncodes : (c.after.heap r).expires_at < now → Uncoded (cleanup_entry now k r c).after r
  unfolding cleanup_entry
  entry_uncodes late i h = ground (
    arith,
    found,
    late,
    h,
    v.code i r,
    lookup-delete (c.after.heap r).code i c.after.by_code,
    lookup-delete (c.after.heap r).code i (delete (c.after.heap r).code c.after.by_code),
  )
