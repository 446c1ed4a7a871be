-- ===== src/P2p/Udp/Isolation.antt =====
-- Who gets the packets that internal/p2p/stun_server.go relays.
use remote_assist_tool.Base.{
  ℕ, ◌≡◌, ◌≢◌, inl, inr, arith, Bool, true, false, ◌||◌, not, List, [], ◌∷◌, Option, none, some,
  Option-cases,
}
use remote_assist_tool.Base.Dict.{lookup}
use remote_assist_tool.P2p.Udp.Header.{Bytes, parse_relay_header}
use remote_assist_tool.P2p.Udp.Relay.{
  UdpAddr, RelaySession, StunServer, key, same_addr, index_of, move_port, find_or_register,
  other_peer, forwarded, session_full, admit, forward, relay_locked, handle_relay_packet,
}

-- At most two peers, with different addresses.
unfoldable pub is_pair : List UdpAddr → Bool
is_pair [] = true
is_pair (a ∷ []) = true
is_pair (a ∷ b ∷ []) = not (same_addr a b)
is_pair (a ∷ b ∷ c ∷ rest) = false

abbrev pub AllPairs : StunServer → Type 0
AllPairs s =
    (id : ℕ) (r : RelaySession) → lookup id s.relay_sessions ≡ some r → is_pair r.peers ≡ true

unfoldable pub is_peer : UdpAddr → List UdpAddr → Bool
is_peer a [] = false
is_peer a (p ∷ peers) = same_addr p a || is_peer a peers

same_addr_refl : (a : UdpAddr) → same_addr a a ≡ true
same_addr_refl a = ground arith

pub register-is_pair :
    (peers qs : List UdpAddr) (from : UdpAddr) (i : ℕ)
    → is_pair peers ≡ true
    → find_or_register peers from ≡ some (i, qs)
    → is_pair qs ≡ true
unfolding find_or_register index_of move_port is_pair
register-is_pair [] qs from i h e = ground (arith, h, e)
register-is_pair (a ∷ []) qs from i h e = ground (arith, h, e)
register-is_pair (a ∷ b ∷ []) qs from i h e = ground (arith, h, e)
register-is_pair (a ∷ b ∷ c ∷ rest) qs from i h e = ground (arith, h)

target_other :
    (peers qs : List UdpAddr) (from target : UdpAddr) (i : ℕ)
    → is_pair peers ≡ true
    → find_or_register peers from ≡ some (i, qs)
    → other_peer i qs ≡ some target
    → (same_addr target from ≡ false) × (is_peer target peers ≡ true)
unfolding find_or_register index_of move_port is_pair other_peer is_peer
target_other [] qs from target i h e f = ground (arith, h, e, f)
target_other (a ∷ []) qs from target i h e f = ground (arith, h, e, f)
target_other (a ∷ b ∷ []) qs from target i h e f = ground (arith, h, e, f)
target_other (a ∷ b ∷ c ∷ rest) qs from target i h e f = ground (arith, h)

-- What a packet that is forwarded went through.
pub record IsForwarded (s : StunServer) (id : ℕ) (from target : UdpAddr) : Type 0 where
  pub session : RelaySession
  pub in_table : lookup id s.relay_sessions ≡ some session
  pub to_peer : is_peer target session.peers ≡ true
  pub not_back : same_addr target from ≡ false

locked_known :
    (s s' : StunServer) (now id : ℕ) (payload p : Bytes) (from target : UdpAddr) (r : RelaySession)
    → AllPairs s
    → lookup id s.relay_sessions ≡ some r
    → relay_locked s now id payload from ≡ (s', forwarded p target)
    → (p ≡ payload) × IsForwarded s id from target
unfolding relay_locked admit forward
locked_known s s' now id payload p from target r v h e =
    elim (Option-cases (find_or_register r.peers from)) [
      | inl full ↦ absurd (ground (arith, h, full, e))
      | inr ((i, qs), reg) ↦
          let other : other_peer i qs ≡ some target = ground (arith, h, reg, e) in
          let (x, y) = target_other r.peers qs from target i (v id r h) reg other in
          (
            ground (arith, h, reg, e),
            record { session = r; in_table = h; to_peer = y; not_back = x },
          )
    ]

locked_new :
    (s s' : StunServer) (now id : ℕ) (payload p : Bytes) (from target : UdpAddr)
    → lookup id s.relay_sessions ≡ none
    → relay_locked s now id payload from ≢ (s', forwarded p target)
unfolding relay_locked admit forward find_or_register index_of other_peer
locked_new s s' now id payload p from target h e = ground (arith, h, e)

-- A packet of a third address never gets into a relay session that has its two peers: it is dropped
-- and changes nothing.
pub third_party_dropped :
    (s : StunServer) (now id : ℕ) (payload : Bytes) (from a b : UdpAddr) (r : RelaySession)
    → lookup id s.relay_sessions ≡ some r
    → r.peers ≡ a ∷ b ∷ []
    → a.ip ≢ from.ip
    → b.ip ≢ from.ip
    → relay_locked s now id payload from ≡ (s, session_full)
unfolding relay_locked admit find_or_register index_of move_port
third_party_dropped s now id payload from a b r h p x y = ground (arith, h, p, x, y)

-- A forwarded packet, from a table of pairs.
pub handle_forwarded :
    (s s' : StunServer) (now : ℕ) (valid : Option (ℕ → ℕ → Bool)) (recheck : ℕ → ℕ → Bool)
    (packet sid payload p : Bytes) (from target : UdpAddr)
    → AllPairs s
    → parse_relay_header packet ≡ some (sid, payload)
    → handle_relay_packet s now valid recheck packet from ≡ (s', forwarded p target)
    → (recheck (key sid) from.ip ≡ true) × (p ≡ payload) × IsForwarded s (key sid) from target
unfolding handle_relay_packet
handle_forwarded s s' now none recheck packet sid payload p from target v h e =
    absurd (ground (arith, h, e))
handle_forwarded s s' now (some valid) recheck packet sid payload p from target v h e =
    let inner : relay_locked s now (key sid) payload from ≡ (s', forwarded p target) =
      ground (arith, h, e) in
    let checked : recheck (key sid) from.ip ≡ true = ground (arith, h, e) in
    elim (Option-cases (lookup (key sid) s.relay_sessions)) [
      | inl new ↦ absurd (locked_new s s' now (key sid) payload p from target new inner)
      | inr (r, f) ↦
          let (same, went) = locked_known s s' now (key sid) payload p from target r v f inner in
          (checked, same, went)
    ]
