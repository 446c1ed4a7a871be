-- ===== src/Relay/Server/Patience.antt =====
-- How often a connection of internal/relay/server.go may guess a code.
use remote_assist_tool.Base.{
  ℕ, ◌+◌, ◌<◌, ◌≡◌, ◌⊎◌, refl, arith, false, List, [], ◌∷◌, length, some, Bool-cases, inl, inr,
}
use remote_assist_tool.P2p.Udp.Relay.{key}
use remote_assist_tool.Relay.Code.{normalize_code}
use remote_assist_tool.Relay.Session.Addresses.{Net}
use remote_assist_tool.Relay.Server.State.{
  Client, JoinRequest, join_request, join_failed, send, Server, Env, Outcome,
}
use remote_assist_tool.Relay.Server.Join.{handle_join}
use remote_assist_tool.Relay.Server.Joins.{IsRejection, IsPairing, limit_of, handle_join_either}
use remote_assist_tool.Relay.Server.Handle.{is_new, joining, handle_message}
use remote_assist_tool.Relay.Server.Serve.{new_client}

-- A join request, with the server as the connection then finds it.
pub record Attempt : Type 0 where
  pub env : Env
  pub server : Server
  pub req : JoinRequest

abbrev pub attempted : Net → Client → Attempt → Outcome
attempted net c a = handle_message net a.env a.server c (join_request (some a.req))

-- The answer to each is that the join failed, and the connection stays open.
abbrev pub AllRefused : Net → ℕ → Client → List Attempt → Type 0
AllRefused net limit c [] = Unit
AllRefused net limit c (a ∷ as_) =
    let o = attempted net c a in
    (limit_of a.server ≡ limit)
    × (o.out ≡ send o.client.conn join_failed ∷ [])
    × (o.closes ≡ false)
    × AllRefused net limit o.client as_

-- A join that fails counts, and leaves the connection as new as it was.
abbrev IsCounted : ℕ → Client → Client → Type 0
IsCounted limit c d =
    (d.join_failures ≡ c.join_failures + 1) × (d.type ≡ c.type) × (c.join_failures + 1 < limit)

module _ (net : Net) (limit : ℕ) where
  rejection-IsCounted :
      (env : Env) (s : Server) (code : ℕ) (c b : Client) (o : Outcome)
      → b.join_failures ≡ c.join_failures
      → b.type ≡ c.type
      → limit_of s ≡ limit
      → o.out ≡ send o.client.conn join_failed ∷ []
      → o.closes ≡ false
      → IsRejection env s code b o ⊎ IsPairing env s code b o
      → IsCounted limit c o.client
  rejection-IsCounted env s code c b o same role l answer open_ (inl r) = (
    ground (arith, r.client, same),
    ground (arith, r.client, role),
    ground (arith, r.at_limit, open_, same, l),
  )
  rejection-IsCounted env s code c b o same role l answer open_ (inr r) =
      absurd (ground (arith, r.told, answer))

  attempted-IsCounted :
      (c : Client) (a : Attempt)
      → limit_of a.server ≡ limit
      → (attempted net c a).out ≡ send (attempted net c a).client.conn join_failed ∷ []
      → (attempted net c a).closes ≡ false
      → IsCounted limit c (attempted net c a).client
  unfolding handle_message
  attempted-IsCounted c a l answer open_ = elim (Bool-cases (is_new c.type)) [
    | inl fresh ↦
        rw (fresh, IsCounted)
          (rejection-IsCounted a.env a.server (key (normalize_code a.req.code)) c
            (joining a.env c a.req)
            (handle_join net a.env a.server (joining a.env c a.req) a.req.code) refl refl l
            (ground (arith, fresh, answer)) (ground (arith, fresh, open_))
            (handle_join_either net a.env (joining a.env c a.req) a.server a.req.code))
    | inr old ↦ absurd (ground (arith, old, open_))
  ]

  refused_below :
      (c : Client) (as_ : List Attempt)
      → c.join_failures < limit
      → AllRefused net limit c as_
      → c.join_failures + length as_ < limit
  refused_below c [] below h = omega (arith, below)
  refused_below c (a ∷ as_) below (l, answer, open_, h) =
      let n = attempted-IsCounted c a l answer open_ in
      let rest = refused_below (attempted net c a).client as_ (ground (arith, n.0, n.2)) h in
      ground (arith, n.0, rest)

-- A new connection whose joins all fail, with whatever codes and whatever happens to the server in
-- between, stays open for fewer of them than the limit of failed joins, if that is positive.
pub refused_joins_bounded :
    (net : Net) (limit ptr remote_addr id : ℕ) (as_ : List Attempt)
    → 0 < limit
    → AllRefused net limit (new_client ptr remote_addr id) as_
    → length as_ < limit
refused_joins_bounded net limit ptr remote_addr id as_ positive h =
    omega (arith, refused_below net limit (new_client ptr remote_addr id) as_ positive h)
