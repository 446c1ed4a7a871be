-- ===== src/Relay/Server/Refines/Ending.antt =====
-- The admission and the end of a connection of internal/relay/server.go.
use remote_assist_tool.Base.{
  ℕ, ◌+◌, ◌-◌, ◌<◌, ◌≡◌, ◌≢◌, ◌⊎◌, refl, sym, ap, arith, false, not, ◌&&◌, List, [], ◌∷◌, Option,
  none, some, leb, Bool-cases, Option-cases, inl, inr, subst,
}
use remote_assist_tool.Base.Dict.{Dict, lookup, insert, delete, count_at, less}
use remote_assist_tool.Base.Int.{pos_part}
use remote_assist_tool.Relay.Session.State.{new_session_manager}
use remote_assist_tool.Relay.Session.Addresses.{Net}
use remote_assist_tool.Relay.Session.Teardown.{DisconnectResult, disconnect_client}
use remote_assist_tool.Relay.Session.Step.{disconnects, step}
use remote_assist_tool.Relay.Server.State.{Client, Config, Server}
use remote_assist_tool.Relay.Server.Register.{client_host}
use remote_assist_tool.Relay.Server.Serve.{
  acquire_conn_slot, release_conn_slot, draw_client_id, new_client, admit_conn, disconnected,
  end_conn, Event, connects, receives,
}
use remote_assist_tool.Relay.Server.Slots.{Slots, taken-Slots, freed-Slots, counted}
use remote_assist_tool.Relay.Server.Refines.Ran.{Ran, Ran-trans, Ran-step, IsServed}

-- The slots are the connections, and the session manager has come from a new one by calls.
pub record Served (net : Net) (cfg : Config) (s : Server) : Type 0 where
  pub same : s.config ≡ cfg
  pub slots : Slots net cfg s.clients s.conn_total s.conn_per_ip
  pub ran : Ran net cfg (new_session_manager cfg.code_ttl) s.sessions

abbrev pub AllNonzero : List ℕ → Type 0
AllNonzero [] = Unit
AllNonzero (i ∷ is) = (i ≢ 0) × AllNonzero is

-- generateClientID never gives "", and the calls that other goroutines make are the server's.
abbrev pub IsProper : Config → Event → Type 0
IsProper cfg (connects ptr remote_addr draws) = AllNonzero draws
IsProper cfg (receives id msg env) = IsServed cfg env.meanwhile
IsProper cfg _ = Unit

abbrev pub AllProper : Config → List Event → Type 0
AllProper cfg [] = Unit
AllProper cfg (e ∷ es) = IsProper cfg e × AllProper cfg es

pub drawn_fresh :
    (taken : Dict Client) (draws : List ℕ) (id : ℕ)
    → AllNonzero draws
    → draw_client_id taken draws ≡ some id
    → (lookup id taken ≡ none) × (id ≢ 0)
unfolding draw_client_id
drawn_fresh taken [] id n e = absurd (ground (arith, e))
drawn_fresh taken (i ∷ draws) id n e = elim (Option-cases (lookup i taken)) [
  | inl free ↦ ground (arith, free, e, n)
  | inr (c, used) ↦ drawn_fresh taken draws id n.1 (ground (arith, used, e))
]

-- The slot that acquireConnSlot takes.
abbrev pub took : Server → ℕ → Server
took s ip = record s {
  conn_total = s.conn_total + 1;
  conn_per_ip = insert ip (count_at ip s.conn_per_ip + 1) s.conn_per_ip;
}

pub acquire_cases :
    (s : Server) (ip : ℕ)
    → (acquire_conn_slot s ip ≡ none)
      ⊎ (acquire_conn_slot s ip ≡ some (took s ip))
        × (s.conn_total < pos_part s.config.limits.max_connections_total)
        × (s.config.disable_source_ip_limits ≡ false
            → count_at ip s.conn_per_ip < pos_part s.config.limits.max_connections_per_ip)
unfolding acquire_conn_slot
acquire_cases s ip =
    elim (Bool-cases (leb (pos_part s.config.limits.max_connections_total) s.conn_total)) [
      | inl full ↦ inl (ground (arith, full))
      | inr free ↦
          elim (Bool-cases (
            not s.config.disable_source_ip_limits
            && leb (pos_part s.config.limits.max_connections_per_ip) (count_at ip s.conn_per_ip))) [
              | inl full ↦ inl (rw free (rw full))
              | inr below ↦
                  inr (rw free (rw below), ground (arith, free), λ on. ground (arith, on, below))
            ]
    ]

module _ (net : Net) (cfg : Config) where
  pub admit_conn-Served :
      (s : Server) (ptr remote_addr : ℕ) (drawn : Option ℕ)
      → Served net cfg s
      → ((id : ℕ) → drawn ≡ some id → (lookup id s.clients ≡ none) × (id ≢ 0))
      → Served net cfg (admit_conn net s ptr remote_addr drawn)
  unfolding admit_conn
  admit_conn-Served s ptr remote_addr none v h = v
  admit_conn-Served s ptr remote_addr (some id) v h =
      let c = new_client ptr remote_addr id in
      elim (acquire_cases s (client_host net c.conn)) [
        | inl refused ↦ rw (refused, admit_conn) v
        | inr (got, free, below) ↦
            rw (got, admit_conn)
              (record {
                same = v.same;
                slots =
                    taken-Slots net cfg s.clients s.conn_total s.conn_per_ip id c v.slots
                      (h id refl).0 refl (h id refl).1
                      (subst (λ g. s.conn_total < pos_part g.limits.max_connections_total) v.same
                        free)
                      (subst
                        (λ g.
                          g.disable_source_ip_limits ≡ false
                          → count_at (client_host net c.conn) s.conn_per_ip
                            < pos_part g.limits.max_connections_per_ip)
                        v.same below);
                ran = v.ran;
              })
      ]

  release_lem :
      (s : Server) (c : Client) (clients : Dict Client) (id : ℕ)
      → Slots net cfg clients s.conn_total s.conn_per_ip
      → lookup id clients ≡ some c
      → release_conn_slot s (client_host net c.conn) ≡ record s {
        conn_total = s.conn_total - 1;
        conn_per_ip = less (client_host net c.conn) s.conn_per_ip;
      }
  unfolding release_conn_slot
  release_lem s c clients id v there =
      elim (Option-cases (lookup (client_host net c.conn) s.conn_per_ip)) [
        | inl gone ↦ absurd (counted net cfg clients s.conn_total s.conn_per_ip id c v there gone)
        | inr (n, e) ↦ rw (e, release_conn_slot)
      ]

  -- A connection that ends, with whatever the session manager says of it.
  released-Served :
      (s : Server) (c : Client) (clients : Dict Client) (id : ℕ)
      → s.config ≡ cfg
      → Slots net cfg clients s.conn_total s.conn_per_ip
      → lookup id clients ≡ some c
      → s.clients ≡ delete id clients
      → Ran net cfg (new_session_manager cfg.code_ttl) s.sessions
      → Served net cfg (release_conn_slot s (client_host net c.conn))
  released-Served s c clients id same v there gone r =
      subst (Served net cfg) (sym (release_lem s c clients id v there)) (record {
        same = same;
        slots =
            subst
              (λ d.
                Slots net cfg d (s.conn_total - 1) (less (client_host net c.conn) s.conn_per_ip))
              (sym gone) (freed-Slots net cfg clients s.conn_total s.conn_per_ip id c v there);
        ran = r;
      })

  disconnected-Served :
      (s : Server) (c : Client) (clients : Dict Client) (id : ℕ) (result : Option DisconnectResult)
      → s.config ≡ cfg
      → Slots net cfg clients s.conn_total s.conn_per_ip
      → lookup id clients ≡ some c
      → s.clients ≡ delete id clients
      → Ran net cfg (new_session_manager cfg.code_ttl) s.sessions
      → Served net cfg (release_conn_slot (disconnected s result).0 (client_host net c.conn))
  disconnected-Served s c clients id none same v there gone r =
      released-Served s c clients id same v there gone r
  disconnected-Served s c clients id (some result) same v there gone r =
      elim (Bool-cases result.reset_data_plane) [
        | inl reset ↦ rw reset (released-Served _ c clients id same v there gone r)
        | inr kept ↦ rw kept (released-Served s c clients id same v there gone r)
      ]

  pub end_conn-Served :
      (s : Server) (now id : ℕ) (c : Client)
      → Served net cfg s
      → lookup id s.clients ≡ some c
      → Served net cfg (end_conn net s now c).0
  unfolding end_conn step
  end_conn-Served s now id c v there =
      disconnected-Served
        (record s {
          clients = delete c.conn.id s.clients;
          sessions = (disconnect_client s.sessions now c.conn.id).0;
        })
        c s.clients id (disconnect_client s.sessions now c.conn.id).1 v.same v.slots there
        (ap (λ k. delete k s.clients) (v.slots.keyed id c there).0)
        (Ran-trans net cfg v.ran (Ran-step net cfg s.sessions now (disconnects c.conn.id) tt tt))
