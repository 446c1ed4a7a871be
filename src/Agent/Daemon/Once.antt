-- ===== src/Agent/Daemon/Once.antt =====
-- internal/agent/agent.go with internal/agent/replay.go: which requests reach a tool.
use remote_assist_tool.Base.{
  ℕ, ◌+◌, ◌≤◌, ◌<◌, ◌≡◌, refl, sym, subst, arith, ◌⊎◌, Bool, true, false, ◌&&◌, List, [], ◌∷◌, none,
  some, ◌==◌, if◌then◌else◌, inl, inr,
}
use remote_assist_tool.Proto.Session.{Cipher, Session, active, legacy}
use remote_assist_tool.Mcp.Bridge.{ToolReq}
use remote_assist_tool.Agent.Replay.{ReplayGuard, reset, accept}
use remote_assist_tool.Agent.Replay.Refinement.{
  contains, Represents, is_fresh, accept_refines, reset-Represents,
}
use remote_assist_tool.Agent.Daemon.{
  Refusal, replayed, Checked, refused, admitted, open_args, check_replay, check_req,
}

abbrev pub AllSmallIds : List ToolReq → Type 0
AllSmallIds [] = Unit
AllSmallIds (r ∷ rs) = (r.id + 1 < 18446744073709551616) × AllSmallIds rs

abbrev is_admitted : Checked → Bool
is_admitted (refused why) = false
is_admitted (admitted req) = true

-- How often a request with this number reaches a tool.
unfoldable pub times_admitted : Cipher → Session → ReplayGuard → List ToolReq → ℕ → ℕ
times_admitted cipher sess g [] x = 0
times_admitted cipher sess g (r ∷ rs) x = elim (check_req cipher 1024 sess g r) [
  | none ↦ 0
  | some (h, verdict) ↦
      (if is_admitted verdict && r.id == x then 1 else 0) + times_admitted cipher sess h rs x
]

open_args-id :
    (cipher : Cipher) (sess : Session) (r q : ToolReq)
    → open_args cipher sess r ≡ admitted q
    → q.id ≡ r.id
unfolding open_args
open_args-id cipher sess r q e = ground (arith, e)

Checked-cases :
    (c : Checked) → ((why : Refusal) × (c ≡ refused why)) ⊎ ((q : ToolReq) × (c ≡ admitted q))
Checked-cases (refused why) = inl (why, refl)
Checked-cases (admitted q) = inr (q, refl)

is_admitted_if :
    (fresh : Bool) (q : ToolReq)
    → is_admitted (if fresh then admitted q else refused replayed) ≡ fresh
is_admitted_if true q = refl
is_admitted_if false q = refl

module _ (cipher : Cipher) (sess : Session) (on : active sess ≡ true)
    (v2 : legacy sess ≡ false) where
  check_req_refused :
      (g : ReplayGuard) (r : ToolReq) (why : Refusal)
      → open_args cipher sess r ≡ refused why
      → check_req cipher 1024 sess g r ≡ some (g, refused why)
  unfolding check_req check_replay
  check_req_refused g r why e = rw (on, e) refl

  check_req_opened :
      (g h : ReplayGuard) (r q : ToolReq) (fresh : Bool)
      → open_args cipher sess r ≡ admitted q
      → accept 1024 g r.id ≡ some (h, fresh)
      → check_req cipher 1024 sess g r ≡ some (h, if fresh then admitted q else refused replayed)
  unfolding check_req check_replay
  check_req_opened g h r q fresh e a =
      let same = open_args-id cipher sess r q e in
      let here = subst (λ i. accept 1024 g i ≡ some (h, fresh)) (sym same) a in
      rw (on, e, v2, here) refl

  -- After a request the guard stands for the requests that were let through before, with this one if it
  -- was.
  check_req-Represents :
      (g : ReplayGuard) (seen : List ℕ) (r : ToolReq)
      → Represents g seen
      → r.id + 1 < 18446744073709551616
      → (h : ReplayGuard) × (verdict : Checked) × (check_req cipher 1024 sess g r
          ≡ some (h, verdict))
        × ((is_admitted verdict ≡ false) ⊎ (contains r.id seen ≡ false))
        × Represents h (if is_admitted verdict then r.id ∷ seen else seen)
  check_req-Represents g seen r v small = elim (Checked-cases (open_args cipher sess r)) [
    | inl (why, e) ↦ (g, refused why, check_req_refused g r why e, inl refl, v)
    | inr (q, e) ↦
        let (h, a, w) = accept_refines 1024 (ground arith) g seen v r.id small in
        let fresh = is_fresh g seen r.id in
        let same = is_admitted_if fresh q in
        (
          h,
          if fresh then admitted q else refused replayed,
          check_req_opened g h r q fresh e a,
          ground (arith, same),
          subst (λ ok. Represents h (if ok then r.id ∷ seen else seen)) (sym same) w,
        )
  ]

  times_admitted-seen :
      (g : ReplayGuard) (seen : List ℕ) (rs : List ToolReq) (x : ℕ)
      → Represents g seen
      → AllSmallIds rs
      → times_admitted cipher sess g rs x + (if contains x seen then 1 else 0) ≤ 1
  unfolding times_admitted contains
  times_admitted-seen g seen [] x v small = ground arith
  times_admitted-seen g seen (r ∷ rs) x v small =
      let (h, verdict, e, new, w) = check_req-Represents g seen r v small.0 in
      let rest = times_admitted-seen h _ rs x w small.1 in
      rw (times_admitted, e) (ground (arith, rest, new))

  -- In an active session that is not of version 1, whose window has been reset, a request reaches a tool
  -- at most once for each number, whatever requests come in whatever order, with numbers below
  -- 2^64 - 1.
  pub times_admitted_once :
      (g : ReplayGuard) (rs : List ToolReq) (x : ℕ)
      → AllSmallIds rs
      → times_admitted cipher sess (reset g) rs x ≤ 1
  unfolding contains
  times_admitted_once g rs x small =
      ground (arith, times_admitted-seen (reset g) [] rs x (reset-Represents g) small)
