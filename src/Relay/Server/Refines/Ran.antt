-- ===== src/Relay/Server/Refines/Ran.antt =====
-- A handler of internal/relay/server.go as a sequence of calls of the session manager.
use remote_assist_tool.Base.{ℕ, ◌≡◌, refl, sym, ap, ◌∙◌, false, List, [], ◌∷◌, ◌++◌}
use remote_assist_tool.Relay.Session.State.{SessionManager}
use remote_assist_tool.Relay.Session.Addresses.{Net}
use remote_assist_tool.Relay.Session.Step.{Call, step, run, IsNamed, AllNamed}
use remote_assist_tool.Relay.Session.Limits.{IsConfigured, AllConfigured}
use remote_assist_tool.Relay.Server.State.{Config, Client, Server, Outcome}
use remote_assist_tool.Relay.Server.Register.{max_sessions_of_ip, max_sessions}

-- One manager comes from the other by a sequence of calls.
pub record Ran (net : Net) (cfg : Config) (m m' : SessionManager) : Type 0 where
  pub calls : List (ℕ × Call)
  pub named : AllNamed calls
  pub configured : AllConfigured (max_sessions_of_ip cfg) (max_sessions cfg) calls
  pub ran : m' ≡ run net m calls

pub Ran-refl : (net : Net) (cfg : Config) (m : SessionManager) → Ran net cfg m m
unfolding run
Ran-refl net cfg m = record { calls = []; named = tt; configured = tt; ran = refl }

run-append :
    (net : Net) (m : SessionManager) (xs ys : List (ℕ × Call))
    → run net m (xs ++ ys) ≡ run net (run net m xs) ys
unfolding run
run-append net m [] ys = refl
run-append net m (x ∷ xs) ys = run-append net (step net m x) xs ys

AllNamed-append : (xs ys : List (ℕ × Call)) → AllNamed xs → AllNamed ys → AllNamed (xs ++ ys)
AllNamed-append [] ys h k = k
AllNamed-append (x ∷ xs) ys h k = (h.0, AllNamed-append xs ys h.1 k)

AllConfigured-append :
    (p t : ℕ) (xs ys : List (ℕ × Call))
    → AllConfigured p t xs
    → AllConfigured p t ys
    → AllConfigured p t (xs ++ ys)
AllConfigured-append p t [] ys h k = k
AllConfigured-append p t (x ∷ xs) ys h k = (h.0, AllConfigured-append p t xs ys h.1 k)

pub Ran-trans :
    (net : Net) (cfg : Config) {m m1 m2 : SessionManager}
    → Ran net cfg m m1
    → Ran net cfg m1 m2
    → Ran net cfg m m2
Ran-trans net cfg {m} a b = record {
  calls = a.calls ++ b.calls;
  named = AllNamed-append a.calls b.calls a.named b.named;
  configured = AllConfigured-append _ _ a.calls b.calls a.configured b.configured;
  ran = b.ran ∙ ap (λ x. run net x b.calls) a.ran ∙ sym (run-append net m a.calls b.calls);
}

pub Ran-step :
    (net : Net) (cfg : Config) (m : SessionManager) (now : ℕ) (c : Call)
    → IsNamed c
    → IsConfigured (max_sessions_of_ip cfg) (max_sessions cfg) c
    → Ran net cfg m (step net m (now, c))
unfolding run
Ran-step net cfg m now c n q = record {
  calls = (now, c) ∷ [];
  named = (n, tt);
  configured = (q, tt);
  ran = refl;
}

pub Ran-run :
    (net : Net) (cfg : Config) (m : SessionManager) (cs : List (ℕ × Call))
    → AllNamed cs
    → AllConfigured (max_sessions_of_ip cfg) (max_sessions cfg) cs
    → Ran net cfg m (run net m cs)
Ran-run net cfg m cs n q = record { calls = cs; named = n; configured = q; ran = refl }

-- The calls that other goroutines make meanwhile are the server's too.
abbrev pub IsServed : Config → List (ℕ × Call) → Type 0
IsServed cfg cs = AllNamed cs × AllConfigured (max_sessions_of_ip cfg) (max_sessions cfg) cs

-- What every handler keeps: it calls the manager and leaves the connections as they are.
abbrev pub Handled : Net → Server → Client → Outcome → Type 0
Handled net s c o =
    Ran net s.config s.sessions o.server.sessions
    × (o.server.clients ≡ s.clients)
    × (o.server.conn_total ≡ s.conn_total)
    × (o.server.conn_per_ip ≡ s.conn_per_ip)
    × (o.server.config ≡ s.config)
    × (o.client.conn.id ≡ c.conn.id)
    × (o.client.conn.remote_addr ≡ c.conn.remote_addr)

-- A call first, and then a handler.
pub Handled-after :
    (net : Net) (s : Server) (c : Client) (o : Outcome) {m : SessionManager}
    → Ran net s.config s.sessions m
    → Handled net (record s { sessions = m }) c o
    → Handled net s c o
Handled-after net s c o r h = (Ran-trans net s.config r h.0, h.1, h.2, h.3, h.4, h.5, h.6)

-- A handler that only writes.
pub Handled-refl :
    (net : Net) (s : Server) (c : Client)
    → Handled net s c (record { server = s; client = c; out = []; closes = false })
Handled-refl net s c = (Ran-refl net s.config s.sessions, refl, refl, refl, refl, refl, refl)
