-- ===== src/Relay/Server/Refines/Serving.antt =====
-- Every history of the server of internal/relay/server.go.
use remote_assist_tool.Base.{
  ℕ, ◌≡◌, ◌≢◌, refl, sym, ap, ◌∙◌, arith, List, [], ◌∷◌, Option, some, Bool-cases, Option-cases,
  inl, inr, subst,
}
use remote_assist_tool.P2p.Udp.Relay.{StunServer}
use remote_assist_tool.Relay.Limits as RelayLimits
use remote_assist_tool.Base.Dict.{lookup-insert_self, lookup, insert, size, count_if}
use remote_assist_tool.Relay.Session.State.{new_session_manager}
use remote_assist_tool.Relay.Session.Addresses.{Net}
use remote_assist_tool.Relay.Session.Step.{debounce_fires, cleans_up, step}
use remote_assist_tool.Relay.Server.State.{
  Client, Message, Config, Server, Env, Outcome, new_server, make_server, with_defaults,
}
use remote_assist_tool.Relay.Server.Handle.{handle_message}
use remote_assist_tool.Relay.Server.Serve
use remote_assist_tool.Relay.Server.Serve.{
  acquire_conn_slot, release_conn_slot, draw_client_id, new_client, register_client, admit_conn,
  disconnected, end_conn, after_message, Event, connects, receives, leaves, cleanup_ticks, serve,
  serve_all,
}
use remote_assist_tool.Relay.Server.Slots.{Slots, replaced-Slots}
use remote_assist_tool.Relay.Server.Refines.Ran.{
  Ran, Ran-refl, Ran-trans, Ran-step, IsServed, Handled,
}
use remote_assist_tool.Relay.Server.Refines.Handlers.{handle_message-Handled}
use remote_assist_tool.Relay.Server.Refines.Ending.{
  Served, IsProper, AllProper, drawn_fresh, admit_conn-Served, end_conn-Served,
}

module _ (net : Net) (cfg : Config) where
  -- The state of the connection is written back, and the connection ends if the handler says so.
  after_message-Served :
      (s : Server) (env : Env) (id : ℕ) (c : Client) (o : Outcome)
      → Served net cfg s
      → lookup id s.clients ≡ some c
      → Handled net s c o
      → Served net cfg (after_message net env o).0
  unfolding after_message
  after_message-Served s env id c o v there h =
      let t = record (o.server) { clients = insert o.client.conn.id o.client o.server.clients } in
      let same_id : o.client.conn.id ≡ id = h.5 ∙ (v.slots.keyed id c there).0 in
      let clients : t.clients ≡ insert id o.client s.clients =
        ap (λ k. insert k o.client o.server.clients) same_id ∙ ap (λ d. insert id o.client d) h.1 in
      let slots : Slots net cfg t.clients t.conn_total t.conn_per_ip =
        subst (λ d. Slots net cfg d t.conn_total t.conn_per_ip) (sym clients)
          (subst (λ n. Slots net cfg (insert id o.client s.clients) n t.conn_per_ip) (sym h.2)
            (subst (λ d. Slots net cfg (insert id o.client s.clients) s.conn_total d) (sym h.3)
              (replaced-Slots net cfg s.clients s.conn_total s.conn_per_ip id c o.client v.slots
                there h.5 h.6))) in
      let kept : Served net cfg t = record {
        same = h.4 ∙ v.same;
        slots = slots;
        ran = Ran-trans net cfg v.ran (subst (λ g. Ran net g s.sessions t.sessions) v.same h.0);
      } in
      let here : lookup id t.clients ≡ some o.client =
        ap (lookup id) clients ∙ lookup-insert_self id o.client s.clients in
      elim (Bool-cases o.closes) [
        | inl ends ↦ rw ends (end_conn-Served net cfg t env.now id o.client kept here)
        | inr stays ↦ rw stays kept
      ]

  received-Served :
      (s : Server) (id : ℕ) (msg : Message) (env : Env)
      → Served net cfg s
      → IsServed cfg env.meanwhile
      → Served net cfg (serve net s (receives id msg env)).0
  unfolding serve
  received-Served s id msg env v q = elim (Option-cases (lookup id s.clients)) [
    | inl gone ↦ rw (gone, serve) v
    | inr (c, there) ↦
        let (named, nonzero) = v.slots.keyed id c there in
        rw (there, serve)
          (after_message-Served s env id c (handle_message net env s c msg) v there (
            handle_message-Handled net env s (subst (λ g. IsServed g env.meanwhile) (sym v.same) q)
              c msg (subst (λ k. k ≢ 0) (sym named) nonzero)))
  ]

  pub serve-Served :
      (s : Server) (e : Event)
      → IsProper cfg e
      → Served net cfg s
      → Served net cfg (serve net s e).0
  unfolding serve step
  serve-Served s (connects ptr remote_addr draws) p v =
      admit_conn-Served net cfg s ptr remote_addr (draw_client_id s.clients draws) v
        (λ id e. drawn_fresh s.clients draws id p e)
  serve-Served s (receives id msg env) p v = received-Served s id msg env v p
  serve-Served s (leaves id now) p v = elim (Option-cases (lookup id s.clients)) [
    | inl gone ↦ rw (gone, serve) v
    | inr (c, there) ↦ rw (there, serve) (end_conn-Served net cfg s now id c v there)
  ]
  serve-Served s (Serve.debounce_fires r) p v = record {
    same = v.same;
    slots = v.slots;
    ran = Ran-trans net cfg v.ran (Ran-step net cfg s.sessions 0 (debounce_fires r) tt tt);
  }
  serve-Served s (cleanup_ticks now order) p v = record {
    same = v.same;
    slots = v.slots;
    ran = Ran-trans net cfg v.ran (Ran-step net cfg s.sessions now (cleans_up order) tt tt);
  }

  serve_from-Served :
      (s : Server) (es : List Event)
      → AllProper cfg es
      → Served net cfg s
      → Served net cfg (serve_all net s es)
  unfolding serve_all
  serve_from-Served s [] p v = v
  serve_from-Served s (e ∷ es) p v =
      serve_from-Served (serve net s e).0 es p.1 (serve-Served s e p.0 v)

pub make_server-Served :
    (net : Net) (cfg : Config) (stun : Option StunServer) (update_info now : ℕ)
    → Served net cfg (make_server cfg stun update_info now)
unfolding make_server lookup count_if size
make_server-Served net cfg stun update_info now = record {
  same = refl;
  slots = record {
    distinct = tt;
    keyed = λ id c h. absurd (ground arith);
    all = refl;
    each = λ ip. refl;
    room = ground arith;
    quota = λ on ip. ground arith;
  };
  ran = Ran-refl net cfg (new_session_manager cfg.code_ttl);
}

pub made :
    (cfg : Config) (stun : Option StunServer) (update_info now : ℕ) (s : Server)
    → new_server cfg stun update_info now ≡ some s
    → make_server (with_defaults cfg) stun update_info now ≡ s
unfolding new_server
made cfg stun update_info now s e =
    elim (Option-cases (RelayLimits.validate_limits (with_defaults cfg).limits)) [
      | inl valid ↦ ground (arith, valid, e)
      | inr (x, invalid) ↦ absurd (ground (arith, invalid, e))
    ]

pub serve_all-Served :
    (net : Net) (cfg : Config) (stun : Option StunServer) (update_info now : ℕ) (s : Server)
    (es : List Event)
    → new_server cfg stun update_info now ≡ some s
    → AllProper (with_defaults cfg) es
    → Served net (with_defaults cfg) (serve_all net s es)
serve_all-Served net cfg stun update_info now s es e p =
    serve_from-Served net (with_defaults cfg) s es p (
      subst (Served net (with_defaults cfg)) (made cfg stun update_info now s e)
        (make_server-Served net (with_defaults cfg) stun update_info now))
