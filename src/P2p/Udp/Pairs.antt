-- ===== src/P2p/Udp/Pairs.antt =====
-- Every history of internal/p2p/stun_server.go leaves sessions of at most two different peers.
use remote_assist_tool.Base.{
  ℕ, ◌-◌, ◌≡◌, refl, arith, Bool, true, false, not, ◌||◌, List, [], ◌∷◌, Option, none, some, ltb,
  leb, ◌==◌, if◌then◌else◌, Bool-cases, Option-cases, inl, inr, length, ap, sym, ◌∙◌,
}
use mathlib.Core.Path.{subst₂}
use remote_assist_tool.Base.Dict.{count_at, Dict, lookup, size, lookup-insert, lookup-delete}
use remote_assist_tool.Ratelimit.Bucket.{allow_n}
use remote_assist_tool.P2p.Udp.Header.{Bytes, parse_relay_header}
use remote_assist_tool.P2p.Udp.Relay.{
  UdpAddr, RelaySession, StunServer, Outcome, key, scaled, find_or_register, other_peer, forwarded,
  relay_bytes_session, relay_bytes_global, bad_relay_header, inactive_data_session,
  inactive_data_session_recheck, admit, add_session, new_relay_session, keep, forward, relay_locked,
  handle_relay_packet, delete_relay_session, invalidate_relay_session, cleanup_relay_sessions,
}
use remote_assist_tool.P2p.Udp.Isolation.{
  is_pair, AllPairs, register-is_pair, IsForwarded, handle_forwarded,
}
use remote_assist_tool.P2p.Udp.Runs.{Event, packet, invalidate, cleanup, happen, run}

keep-AllPairs :
    (s : StunServer) (id : ℕ) (q : RelaySession)
    → AllPairs s
    → is_pair q.peers ≡ true
    → AllPairs (keep s id q)
keep-AllPairs s id q v h i r e = elim (Bool-cases (id == i)) [
  | inl same ↦
      let here : q ≡ r = ground (arith, same, e, lookup-insert id i q s.relay_sessions) in
      ap (λ x. is_pair x.peers) (sym here) ∙ h
  | inr apart ↦ v i r (ground (arith, apart, e, lookup-insert id i q s.relay_sessions))
]

choose-AllPairs :
    (b : Bool) (x y : StunServer × Outcome)
    → AllPairs x.0
    → AllPairs y.0
    → AllPairs (if b then x else y).0
choose-AllPairs true x y v w = v
choose-AllPairs false x y v w = w

forward-AllPairs :
    (s : StunServer) (now id : ℕ) (q : RelaySession) (payload : Bytes) (target : Option UdpAddr)
    → AllPairs s
    → is_pair q.peers ≡ true
    → AllPairs (forward s now id q payload target).0
unfolding forward
forward-AllPairs s now id q payload none v h = keep-AllPairs s id (record q { last_seen = now }) v h
forward-AllPairs s now id q payload (some target) v h =
    let cost = scaled (length payload) in
    let own = allow_n q.byte_limiter now cost in
    let all = allow_n s.relay_byte_global now cost in
    let charged : RelaySession = record q { byte_limiter = own.0 } in
    let paid : StunServer = record s { relay_byte_global = all.0 } in
    choose-AllPairs (not own.1) (keep s id charged, relay_bytes_session)
      (if not all.1
        then (keep paid id charged, relay_bytes_global)
        else (keep paid id (record charged { last_seen = now }), forwarded payload target))
      (keep-AllPairs s id charged v h)
      (choose-AllPairs (not all.1) (keep paid id charged, relay_bytes_global)
        (keep paid id (record charged { last_seen = now }), forwarded payload target)
        (keep-AllPairs paid id charged v h)
        (keep-AllPairs paid id (record charged { last_seen = now }) v h))

-- An admitted session, old or new.
abbrev ArePairs : StunServer → RelaySession → Type 0
ArePairs s r = AllPairs s × (is_pair r.peers ≡ true)

same_pair :
    (s s1 : StunServer) (r q : RelaySession)
    → ◌≡◌ {A = Option (StunServer × RelaySession)} (some (s, q)) (some (s1, r))
    → ArePairs s q
    → ArePairs s1 r
same_pair s s1 r q e v = let p : s ≡ s1 = cc e in let w : q ≡ r = cc e in subst₂ ArePairs p w v

admit-AllPairs :
    (s s1 : StunServer) (now id ip : ℕ) (r : RelaySession)
    → AllPairs s
    → admit s now id ip ≡ some (s1, r)
    → ArePairs s1 r
unfolding admit is_pair
admit-AllPairs s s1 now id ip r v e = elim (Option-cases (lookup id s.relay_sessions)) [
  | inr (q, f) ↦ same_pair s s1 r q (ground (arith, f, e)) (v, v id q f)
  | inl new ↦
      elim (Bool-cases (
        leb s.max_relay_sessions_total (size s.relay_sessions)
        || leb s.max_relay_sessions_per_ip (count_at ip s.relay_count_per_ip))) [
          | inl full ↦ absurd (ground (arith, new, full, e))
          | inr open_ ↦
              let q = new_relay_session s now ip in
              same_pair (add_session s id ip q) s1 r q (ground (arith, new, open_, e))
                (keep-AllPairs s id q v refl, refl)
        ]
]

locked-AllPairs :
    (s : StunServer) (now id : ℕ) (payload : Bytes) (from : UdpAddr)
    → AllPairs s
    → AllPairs (relay_locked s now id payload from).0
unfolding relay_locked
locked-AllPairs s now id payload from v = elim (Option-cases (admit s now id from.ip)) [
  | inl e ↦ rw (e, relay_locked) v
  | inr ((s1, r), e) ↦
      let (w, h) = admit-AllPairs s s1 now id from.ip r v e in
      elim (Option-cases (find_or_register r.peers from)) [
        | inl f ↦ rw (e, relay_locked) (rw f w)
        | inr ((i, peers), f) ↦
            rw (e, relay_locked)
              (rw f (
                forward-AllPairs s1 now id (record r { peers = peers }) payload (other_peer i peers)
                  w (register-is_pair r.peers peers from i h f)))
      ]
]

delete-AllPairs : (s : StunServer) (id : ℕ) → AllPairs s → AllPairs (delete_relay_session s id)
unfolding delete_relay_session
delete-AllPairs s id v = elim (Option-cases (lookup id s.relay_sessions)) [
  | inl e ↦ rw (e, delete_relay_session) v
  | inr (q, e) ↦
      rw (e, delete_relay_session)
        (λ i r f. v i r (ground (arith, f, lookup-delete id i s.relay_sessions)))
]

choose : (b : Bool) (x y : StunServer) → AllPairs x → AllPairs y → AllPairs (if b then x else y)
choose true x y v w = v
choose false x y v w = w

cleanup-AllPairs :
    (ttl now : ℕ) (order : Dict RelaySession) (s : StunServer)
    → AllPairs s
    → AllPairs (cleanup_relay_sessions ttl now order s)
unfolding cleanup_relay_sessions
cleanup-AllPairs ttl now [] s v = v
cleanup-AllPairs ttl now ((id, r) ∷ rest) s v =
    cleanup-AllPairs ttl now rest
      (if ltb ttl (now - r.last_seen) then delete_relay_session s id else s)
      (choose (ltb ttl (now - r.last_seen)) (delete_relay_session s id) s (delete-AllPairs s id v)
        v)

guarded :
    (empty valid rechecked : Bool) (a b c d : StunServer × Outcome)
    → AllPairs a.0
    → AllPairs b.0
    → AllPairs c.0
    → AllPairs d.0
    → AllPairs (if empty then a else if not valid then b else if not rechecked then c else d).0
guarded true valid rechecked a b c d u v w x = u
guarded false false rechecked a b c d u v w x = v
guarded false true false a b c d u v w x = w
guarded false true true a b c d u v w x = x

handle-AllPairs :
    (now : ℕ) (s : StunServer) (valid : Option (ℕ → ℕ → Bool)) (recheck : ℕ → ℕ → Bool)
    (bytes : Bytes) (from : UdpAddr)
    → AllPairs s
    → AllPairs (handle_relay_packet s now valid recheck bytes from).0
unfolding handle_relay_packet
handle-AllPairs now s none recheck bytes from v = v
handle-AllPairs now s (some valid) recheck bytes from v =
    elim (Option-cases (parse_relay_header bytes)) [
      | inl e ↦ rw (e, handle_relay_packet) v
      | inr ((sid, payload), e) ↦
          rw (e, handle_relay_packet)
            (guarded (length payload == 0) (valid (key sid) from.ip) (recheck (key sid) from.ip)
              (s, bad_relay_header) (s, inactive_data_session) (s, inactive_data_session_recheck)
              (relay_locked s now (key sid) payload from) v v v
              (locked-AllPairs s now (key sid) payload from v))
    ]

run-AllPairs : (s : StunServer) (es : List Event) → AllPairs s → AllPairs (run s es)
unfolding run happen invalidate_relay_session
run-AllPairs s [] v = v
run-AllPairs s (packet now valid recheck bytes from ∷ es) v =
    run-AllPairs (handle_relay_packet s now valid recheck bytes from).0 es
      (handle-AllPairs now s valid recheck bytes from v)
run-AllPairs s (invalidate id ∷ es) v =
    run-AllPairs (delete_relay_session s id) es (delete-AllPairs s id v)
run-AllPairs s (cleanup ttl now ∷ es) v =
    run-AllPairs (cleanup_relay_sessions ttl now s.relay_sessions s) es
      (cleanup-AllPairs ttl now s.relay_sessions s v)

empty-AllPairs : (s : StunServer) → s.relay_sessions ≡ [] → AllPairs s
unfolding lookup
empty-AllPairs s a i r e = absurd (ground (arith, a, e))

-- After any history of a server that was started with an empty table, a packet is forwarded only
-- when the control plane has accepted its source for the session that its header names, with the
-- lock held, and then with its payload unchanged, to an address that an earlier packet of that very
-- session registered, and never back to where it came from.
pub forwarded_only :
    (s s' : StunServer) (es : List Event) (now : ℕ) (valid : Option (ℕ → ℕ → Bool))
    (recheck : ℕ → ℕ → Bool) (bytes sid payload p : Bytes) (from target : UdpAddr)
    → s.relay_sessions ≡ []
    → parse_relay_header bytes ≡ some (sid, payload)
    → handle_relay_packet (run s es) now valid recheck bytes from ≡ (s', forwarded p target)
    → (recheck (key sid) from.ip ≡ true)
      × (p ≡ payload)
      × IsForwarded (run s es) (key sid) from target
forwarded_only s s' es now valid recheck bytes sid payload p from target empty h e =
    handle_forwarded (run s es) s' now valid recheck bytes sid payload p from target
      (run-AllPairs s es (empty-AllPairs s empty)) h e
