-- ===== src/Relay/Server/Safety.antt =====
-- What holds of internal/relay/server.go after any history.
use remote_assist_tool.Base.{
  ℕ, ◌≤◌, ◌≡◌, refl, sym, ◌∙◌, ap, subst, false, List, Option, none, some, Option-cases, Bool-cases,
  inl, inr,
}
use remote_assist_tool.Base.Dict.{lookup, size, count_if, count_at}
use remote_assist_tool.Base.Int.{pos_part}
use remote_assist_tool.P2p.Udp.Relay.{StunServer}
use remote_assist_tool.Relay.Session.State.{new_session_manager}
use remote_assist_tool.Relay.Session.Addresses.{Net}
use remote_assist_tool.Relay.Session.Step.{run-Inv}
use remote_assist_tool.Relay.Session.Invariant.Defs.{Inv}
use remote_assist_tool.Relay.Server.State.{Client, Config, Server, new_server, with_defaults}
use remote_assist_tool.Relay.Server.Register.{client_host}
use remote_assist_tool.Relay.Server.Serve.{
  release_conn_slot, disconnected, end_conn, Event, leaves, serve, serve_all,
}
use remote_assist_tool.Relay.Session.Teardown.{DisconnectResult, disconnect_client}
use remote_assist_tool.Relay.Server.Slots.{comes_from}
use remote_assist_tool.Relay.Server.Refines.Ran.{Ran}
use remote_assist_tool.Relay.Server.Refines.Ending.{AllProper}
use remote_assist_tool.Relay.Server.Refines.Serving.{serve_all-Served}

-- What the end of a connection leaves of the sessions.
release-sessions : (s : Server) (ip : ℕ) → (release_conn_slot s ip).sessions ≡ s.sessions
unfolding release_conn_slot
release-sessions s ip = elim (Option-cases (lookup ip s.conn_per_ip)) [
  | inl gone ↦ rw (gone, release_conn_slot) refl
  | inr (n, there) ↦ rw (there, release_conn_slot) refl
]

disconnected-sessions :
    (s : Server) (r : Option DisconnectResult) → (disconnected s r).0.sessions ≡ s.sessions
disconnected-sessions s none = refl
disconnected-sessions s (some r) = elim (Bool-cases r.reset_data_plane) [
  | inl reset ↦ rw reset refl
  | inr kept ↦ rw kept refl
]

end_conn-sessions :
    (net : Net) (s : Server) (now : ℕ) (c : Client)
    → (end_conn net s now c).0.sessions ≡ (disconnect_client s.sessions now c.conn.id).0
unfolding end_conn
end_conn-sessions net s now c =
    release-sessions _ (client_host net c.conn)
    ∙ disconnected-sessions _ (disconnect_client s.sessions now c.conn.id).1

leaving_lem :
    (net : Net) (s : Server) (id at_ : ℕ) (c : Client)
    → lookup id s.clients ≡ some c
    → c.conn.id ≡ id
    → (serve net s (leaves id at_)).0.sessions ≡ (disconnect_client s.sessions at_ id).0
unfolding serve
leaving_lem net s id at_ c there named =
    rw (there, serve)
      (end_conn-sessions net s at_ c ∙ ap (λ k. (disconnect_client s.sessions at_ k).0) named)

module _ (net : Net) (cfg : Config) (stun : Option StunServer) (update_info now : ℕ) (s : Server)
    (es : List Event) (started : new_server cfg stun update_info now ≡ some s)
    (proper : AllProper (with_defaults cfg) es) where
  -- Whatever connections come and go and whatever they send, a server that NewServer has started
  -- counts exactly the connections that are there, in total and for each source IP, and they are
  -- within the limit for all and, unless the limits of the source IPs are switched off, within the
  -- limit for each IP.
  pub serve_slots :
      (ip : ℕ)
      → let t = serve_all net s es in
        let l = (with_defaults cfg).limits in
        (t.conn_total ≡ size t.clients)
        × (count_at ip t.conn_per_ip ≡ count_if (comes_from net ip) t.clients)
        × (size t.clients ≤ pos_part l.max_connections_total)
        × (cfg.disable_source_ip_limits ≡ false
            → count_if (comes_from net ip) t.clients ≤ pos_part l.max_connections_per_ip)
  serve_slots ip =
      let v = (serve_all-Served net cfg stun update_info now s es started proper).slots in
      (
        v.all,
        v.each ip,
        subst (λ n. n ≤ pos_part (with_defaults cfg).limits.max_connections_total) v.all v.room,
        λ on.
            subst (λ n. n ≤ pos_part (with_defaults cfg).limits.max_connections_per_ip) (v.each ip)
              (v.quota on ip),
      )

  -- Whatever connections come and go and whatever they send, the session manager of a server that
  -- NewServer has started is what a sequence of its own calls makes of a new one, where the
  -- connections that register, take over and join have IDs and the creations the configured limits,
  -- and so its indexes are well formed. When a connection that is then there ends, the manager is
  -- told of the end of just that connection, by the ID that it was admitted under.
  pub serve_sessions :
      let t = serve_all net s es in
      Ran net (with_defaults cfg) (new_session_manager (with_defaults cfg).code_ttl) t.sessions
      × Inv t.sessions
      × ((id at_ : ℕ) (c : Client)
          → lookup id t.clients ≡ some c
          → (serve net t (leaves id at_)).0.sessions ≡ (disconnect_client t.sessions at_ id).0)
  serve_sessions =
      let v = serve_all-Served net cfg stun update_info now s es started proper in
      let r = v.ran in
      (
        r,
        subst Inv (sym r.ran) (run-Inv net (with_defaults cfg).code_ttl r.calls r.named),
        λ id at_ c there.
            leaving_lem net (serve_all net s es) id at_ c there (v.slots.keyed id c there).0,
      )
