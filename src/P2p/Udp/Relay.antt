-- ===== src/P2p/Udp/Relay.antt =====
-- internal/p2p/stun_server.go: the table of UDP relay sessions. A session ID is a text, kept as the
-- number that `key` gives it; an IP is a number, 0 for the empty text. `peers` holds the first `count`
-- entries of the array of the code. The mutex makes a packet one step, and the readings of the clock
-- in it are one.
use remote_assist_tool.Base.{
  ℕ, suc, ◌+◌, ◌-◌, ◌*◌, Bool, ◌&&◌, ◌||◌, not, List, [], ◌∷◌, ◌++◌, Option, none, some, length,
  ltb, leb, ◌==◌, if◌then◌else◌,
}
use remote_assist_tool.Base.Dict.{count_at, Dict, lookup, insert, delete, size}
use remote_assist_tool.Ratelimit.Bucket.{Bucket, new_bucket, allow_n}
use remote_assist_tool.P2p.Udp.Header.{Bytes, parse_relay_header}

pub record UdpAddr : Type 0 where
  pub ip : ℕ
  pub port : ℕ

pub record RelaySession : Type 0 where
  pub peers : List UdpAddr
  pub last_seen : ℕ
  pub creator_ip : ℕ
  pub byte_limiter : Bucket

pub record StunServer : Type 0 where
  pub relay_sessions : Dict RelaySession
  pub relay_count_per_ip : Dict ℕ
  pub relay_byte_global : Bucket
  pub max_relay_sessions_total : ℕ
  pub max_relay_sessions_per_ip : ℕ
  pub relay_bytes_per_session : ℕ
  pub relay_bytes_burst_session : ℕ

-- A text as a number: its bytes are the digits, each one more than the byte.
unfoldable pub key : Bytes → ℕ
key [] = 0
key (b ∷ bs) = suc b + 257 * key bs

-- The buckets count thousand millionths of a byte, so that a rate for each second is one for each
-- nanosecond.
abbrev pub scaled : ℕ → ℕ
scaled n = 1000000000 * n

abbrev pub same_addr : UdpAddr → UdpAddr → Bool
same_addr a b = a.ip == b.ip && a.port == b.port

-- The index of the first peer with this address and port.
unfoldable pub index_of : UdpAddr → List UdpAddr → Option ℕ
index_of from [] = none
index_of from (p ∷ peers) =
    if same_addr p from
    then some 0
    else elim (index_of from peers) [ none ↦ none | some i ↦ some (suc i) ]

-- The first peer with this address takes the new port.
unfoldable pub move_port : UdpAddr → List UdpAddr → Option (ℕ × List UdpAddr)
move_port from [] = none
move_port from (p ∷ peers) =
    if p.ip == from.ip
    then some (0, from ∷ peers)
    else elim (move_port from peers) [ none ↦ none | some (i, rest) ↦ some (suc i, p ∷ rest) ]

-- Find or register this peer: its index and the peers then, or nothing if the session is full.
unfoldable pub find_or_register : List UdpAddr → UdpAddr → Option (ℕ × List UdpAddr)
unfolding index_of move_port
find_or_register peers from = elim (index_of from peers) [
  | some i ↦ some (i, peers)
  | none ↦
      if leb 2 (length peers) then move_port from peers else some (length peers, peers ++ from ∷ [])
]

-- peers[1 - i], if there is one.
unfoldable pub other_peer : ℕ → List UdpAddr → Option UdpAddr
other_peer i (a ∷ b ∷ rest) = if i == 0 then some b else some a
other_peer i (a ∷ []) = if i == 1 then some a else none
other_peer i [] = none

pub data Outcome : Type 0 where
  bad_relay_header inactive_data_session inactive_data_session_recheck : Outcome
  relay_state_limited session_full relay_bytes_session relay_bytes_global : Outcome
  waiting : Outcome  -- there is no other peer yet
  forwarded : Bytes → UdpAddr → Outcome

abbrev pub new_relay_session : StunServer → ℕ → ℕ → RelaySession
new_relay_session s now ip = record {
  peers = [];
  last_seen = now;
  creator_ip = ip;
  byte_limiter = new_bucket s.relay_bytes_per_session (scaled s.relay_bytes_burst_session) now;
}

abbrev pub add_session : StunServer → ℕ → ℕ → RelaySession → StunServer
add_session s id ip session = record s {
  relay_sessions = insert id session s.relay_sessions;
  relay_count_per_ip = insert ip (count_at ip s.relay_count_per_ip + 1) s.relay_count_per_ip;
}

unfoldable pub admit : StunServer → ℕ → ℕ → ℕ → Option (StunServer × RelaySession)
admit s now id ip = elim (lookup id s.relay_sessions) [
  | some session ↦ some (s, session)
  | none ↦
      if leb s.max_relay_sessions_total (size s.relay_sessions)
        || leb s.max_relay_sessions_per_ip (count_at ip s.relay_count_per_ip)
      then none
      else let session = new_relay_session s now ip in some (add_session s id ip session, session)
]

-- The session as it is now, in the table.
abbrev pub keep : StunServer → ℕ → RelaySession → StunServer
keep s id session = record s { relay_sessions = insert id session s.relay_sessions }

-- The budgets: that of the session first.
unfoldable pub forward :
    StunServer → ℕ → ℕ → RelaySession → Bytes → Option UdpAddr → StunServer × Outcome
unfolding allow_n
forward s now id session payload none = (keep s id (record session { last_seen = now }), waiting)
forward s now id session payload (some target) =
    let cost = scaled (length payload) in
    let (own, own_ok) = allow_n session.byte_limiter now cost in
    let (all, all_ok) = allow_n s.relay_byte_global now cost in
    let charged = record session { byte_limiter = own } in
    if not own_ok
    then (keep s id charged, relay_bytes_session)
    else if not all_ok
    then (keep (record s { relay_byte_global = all }) id charged, relay_bytes_global)
    else (
      keep (record s { relay_byte_global = all }) id (record charged { last_seen = now }),
      forwarded payload target,
    )

unfoldable pub relay_locked : StunServer → ℕ → ℕ → Bytes → UdpAddr → StunServer × Outcome
unfolding admit find_or_register other_peer forward
relay_locked s now id payload from = elim (admit s now id from.ip) [
  | none ↦ (s, relay_state_limited)
  | some (s1, session) ↦ elim (find_or_register session.peers from) [
    | none ↦ (s1, session_full)
    | some (i, peers) ↦
        forward s1 now id (record session { peers = peers }) payload (other_peer i peers)
  ]
]

-- The validator of the control plane is asked twice, without the lock and under it: the sessions may
-- change between the two. `none` is the nil validator.
unfoldable pub handle_relay_packet :
    StunServer → ℕ → Option (ℕ → ℕ → Bool) → (ℕ → ℕ → Bool) → Bytes → UdpAddr → StunServer × Outcome
unfolding parse_relay_header key relay_locked
handle_relay_packet s now none recheck packet from = (
  s,
  elim (parse_relay_header packet) [
    | none ↦ bad_relay_header
    | some (sid, payload) ↦ if length payload == 0 then bad_relay_header else inactive_data_session
  ],
)
handle_relay_packet s now (some valid) recheck packet from = elim (parse_relay_header packet) [
  | none ↦ (s, bad_relay_header)
  | some (sid, payload) ↦
      if length payload == 0
      then (s, bad_relay_header)
      else if not (valid (key sid) from.ip)
      then (s, inactive_data_session)
      else if not (recheck (key sid) from.ip)
      then (s, inactive_data_session_recheck)
      else relay_locked s now (key sid) payload from
]

-- Its callers pass the entry that they have just read under the lock, so that the comparison of the
-- pointers always holds.
unfoldable pub delete_relay_session : StunServer → ℕ → StunServer
delete_relay_session s id = elim (lookup id s.relay_sessions) [
  | none ↦ s
  | some cur ↦ record s {
    relay_sessions = delete id s.relay_sessions;
    relay_count_per_ip =
        if cur.creator_ip == 0
        then s.relay_count_per_ip
        else if leb (count_at cur.creator_ip s.relay_count_per_ip) 1
        then delete cur.creator_ip s.relay_count_per_ip
        else insert cur.creator_ip (count_at cur.creator_ip s.relay_count_per_ip - 1)
            s.relay_count_per_ip;
  }
]

unfoldable pub invalidate_relay_session : StunServer → ℕ → StunServer
unfolding delete_relay_session
invalidate_relay_session s id = delete_relay_session s id

-- A tick of cleanupRelaySessions, over the table in the order of the list.
unfoldable pub cleanup_relay_sessions : ℕ → ℕ → Dict RelaySession → StunServer → StunServer
unfolding delete_relay_session
cleanup_relay_sessions ttl now [] s = s
cleanup_relay_sessions ttl now ((id, session) ∷ rest) s =
    cleanup_relay_sessions ttl now rest
      (if ltb ttl (now - session.last_seen) then delete_relay_session s id else s)
