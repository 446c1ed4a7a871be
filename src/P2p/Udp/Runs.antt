-- ===== src/P2p/Udp/Runs.antt =====
-- Every sequence of packets, invalidations and cleanups at internal/p2p/stun_server.go.
use remote_assist_tool.Base.{
  ℕ, ◌≤◌, ◌≡◌, ◌≢◌, inl, inr, refl, arith, Bool, true, false, not, List, [], ◌∷◌, Option, none,
  some, length, ◌==◌, if◌then◌else◌, Option-cases,
}
use remote_assist_tool.Base.Dict.{count_at, lookup, size, count_if}
use remote_assist_tool.P2p.Udp.Header.{Bytes, parse_relay_header}
use remote_assist_tool.P2p.Udp.Relay.{
  UdpAddr, StunServer, Outcome, key, bad_relay_header, inactive_data_session,
  inactive_data_session_recheck, relay_locked, handle_relay_packet, delete_relay_session,
  invalidate_relay_session, cleanup_relay_sessions,
}
use remote_assist_tool.P2p.Udp.Quota.{Sound, delete-Sound, cleanup-Sound}
use remote_assist_tool.P2p.Udp.Admission.{locked-Sound}

-- What happens to the table.
pub data Event : Type 0 where
  packet : ℕ → Option (ℕ → ℕ → Bool) → (ℕ → ℕ → Bool) → Bytes → UdpAddr → Event
  invalidate : ℕ → Event
  cleanup : ℕ → ℕ → Event

unfoldable pub happen : StunServer → Event → StunServer
happen s (packet now valid recheck bytes from) =
    (handle_relay_packet s now valid recheck bytes from).0
happen s (invalidate id) = invalidate_relay_session s id
happen s (cleanup ttl now) = cleanup_relay_sessions ttl now s.relay_sessions s

unfoldable pub run : StunServer → List Event → StunServer
run s [] = s
run s (e ∷ es) = run (happen s e) es

-- Packets come from addresses whose text is not empty.
unfoldable pub AllNamed : List Event → Type 0
AllNamed [] = Unit
AllNamed (packet now valid recheck bytes from ∷ es) = (from.ip ≢ 0) × AllNamed es
AllNamed (invalidate id ∷ es) = AllNamed es
AllNamed (cleanup ttl now ∷ es) = AllNamed es

guarded :
    {total per_ip : ℕ} (empty valid rechecked : Bool) (a b c d : StunServer × Outcome)
    → Sound total per_ip a.0
    → Sound total per_ip b.0
    → Sound total per_ip c.0
    → Sound total per_ip d.0
    → Sound total per_ip
        (if empty then a else if not valid then b else if not rechecked then c else d).0
guarded true valid rechecked a b c d u v w x = u
guarded false false rechecked a b c d u v w x = v
guarded false true false a b c d u v w x = w
guarded false true true a b c d u v w x = x

empty-Sound :
    (s : StunServer)
    → s.relay_sessions ≡ []
    → s.relay_count_per_ip ≡ []
    → Sound s.max_relay_sessions_total s.max_relay_sessions_per_ip s
unfolding lookup size count_if
empty-Sound s a b = record {
  distinct = rw a tt;
  room = ground (arith, a);
  paid = λ i x f. ground (arith, a, f);
  counts = λ ip. ground (arith, a, b);
  quota = λ ip. ground (arith, b);
  same_total = refl;
  same_per_ip = refl;
}

handle-Sound :
    (total per_ip now : ℕ) (s : StunServer) (valid : Option (ℕ → ℕ → Bool)) (recheck : ℕ → ℕ → Bool)
    (bytes : Bytes) (from : UdpAddr)
    → from.ip ≢ 0
    → Sound total per_ip s
    → Sound total per_ip (handle_relay_packet s now valid recheck bytes from).0
unfolding handle_relay_packet
handle-Sound total per_ip now s none recheck bytes from named v = v
handle-Sound total per_ip now s (some valid) recheck bytes from named v =
    elim (Option-cases (parse_relay_header bytes)) [
      | inl e ↦ rw (e, handle_relay_packet) v
      | inr ((sid, payload), e) ↦
          rw (e, handle_relay_packet)
            (guarded (length payload == 0) (valid (key sid) from.ip) (recheck (key sid) from.ip)
              (s, bad_relay_header) (s, inactive_data_session) (s, inactive_data_session_recheck)
              (relay_locked s now (key sid) payload from) v v v
              (locked-Sound total per_ip now (key sid) s payload from named v))
    ]

run-Sound :
    (total per_ip : ℕ) (s : StunServer) (es : List Event)
    → AllNamed es
    → Sound total per_ip s
    → Sound total per_ip (run s es)
unfolding run AllNamed happen invalidate_relay_session
run-Sound total per_ip s [] n v = v
run-Sound total per_ip s (packet now valid recheck bytes from ∷ es) n v =
    run-Sound total per_ip (handle_relay_packet s now valid recheck bytes from).0 es n.1
      (handle-Sound total per_ip now s valid recheck bytes from n.0 v)
run-Sound total per_ip s (invalidate id ∷ es) n v =
    run-Sound total per_ip (delete_relay_session s id) es n (delete-Sound total per_ip id s v)
run-Sound total per_ip s (cleanup ttl now ∷ es) n v =
    run-Sound total per_ip (cleanup_relay_sessions ttl now s.relay_sessions s) es n
      (cleanup-Sound total per_ip ttl now s.relay_sessions s v)

-- Whatever packets, invalidations and cleanups come, the table never holds more sessions than the
-- limit, no address has created more of them than its own limit, and the counter of an address is
-- exactly the number of its sessions that are still there: a removed session always frees its place.
pub relay_quota :
    (s : StunServer) (es : List Event) (ip : ℕ)
    → s.relay_sessions ≡ []
    → s.relay_count_per_ip ≡ []
    → AllNamed es
    → (size (run s es).relay_sessions ≤ s.max_relay_sessions_total)
      × (count_at ip (run s es).relay_count_per_ip ≤ s.max_relay_sessions_per_ip)
      × (count_at ip (run s es).relay_count_per_ip
          ≡ count_if (λ r. r.creator_ip == ip) (run s es).relay_sessions)
relay_quota s es ip a b n =
    let v =
      run-Sound s.max_relay_sessions_total s.max_relay_sessions_per_ip s es n (empty-Sound s a b) in
    (v.room, v.quota ip, v.counts ip)
