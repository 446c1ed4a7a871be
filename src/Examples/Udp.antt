-- ===== src/Examples/Udp.antt =====
-- The UDP relay, the tunnel and the limits, at concrete inputs.
use remote_assist_tool.Base.{
  take, ℕ, ◌≤◌, ◌≡◌, ◌↔◌, refl, Bool, true, List, [], ◌∷◌, ◌++◌, none, some, arith, ◌==◌,
}
use remote_assist_tool.Base.Dict.{count_at, lookup, insert, size, count_if}
use remote_assist_tool.Ratelimit.Bucket.{new_bucket, allow_n, refill}
use remote_assist_tool.P2p.Udp.Header.{
  Bytes, make_relay_header, parse_relay_header, parse_relay_header-make,
}
use remote_assist_tool.P2p.Udp.Relay.{
  UdpAddr, RelaySession, StunServer, key, scaled, relay_locked, handle_relay_packet, session_full,
  find_or_register, index_of, other_peer, admit, forward,
}
use remote_assist_tool.P2p.Udp.Isolation.{IsForwarded, third_party_dropped}
use remote_assist_tool.P2p.Udp.Pairs.{forwarded_only}
use remote_assist_tool.P2p.Udp.Runs.{Event, packet, invalidate, happen, run, AllNamed, relay_quota}
use remote_assist_tool.P2p.Tunnel.{receive, receive_data, new_udp_tunnel, data_, ack}
use remote_assist_tool.P2p.Tunnel.Runs.{receive_all, AllGenuine, IsGenuine, receive_all_in_order}
use remote_assist_tool.P2p.Tunnel.Complete.{AllClose, IsClose, arrived, receive_all_complete}
use remote_assist_tool.P2p.Tunnel.Order.{first}
use remote_assist_tool.P2p.Tunnel.Window.{happen_all, write, arrive, tick, inflight_le}
use remote_assist_tool.Relay.Limits as RelayLimits
use remote_assist_tool.Relay.Limits.Valid.{IsValid, relay_limits_iff}

parse_relay_header-make_run :
    parse_relay_header (make_relay_header (7 ∷ 8 ∷ []) ++ 1 ∷ []) ≡ some (7 ∷ 8 ∷ [], 1 ∷ [])
parse_relay_header-make_run =
    parse_relay_header-make (7 ∷ 8 ∷ []) (1 ∷ []) (ground arith) (ground arith)

abbrev sid : Bytes
sid = 7 ∷ 8 ∷ []

abbrev addr_a : UdpAddr
addr_a = record { ip = 1; port = 10 }

abbrev addr_b : UdpAddr
addr_b = record { ip = 2; port = 20 }

abbrev addr_c : UdpAddr
addr_c = record { ip = 3; port = 30 }

abbrev empty_server : StunServer
empty_server = record {
  relay_sessions = [];
  relay_count_per_ip = [];
  relay_byte_global = new_bucket 20971520 (scaled 41943040) 0;
  max_relay_sessions_total = 5000;
  max_relay_sessions_per_ip = 64;
  relay_bytes_per_session = 2097152;
  relay_bytes_burst_session = 4194304;
}

abbrev relayed : RelaySession
relayed = record {
  peers = addr_a ∷ addr_b ∷ [];
  last_seen = 0;
  creator_ip = 1;
  byte_limiter = new_bucket 2097152 (scaled 4194304) 0;
}

-- The session of the ID 7, a text of one byte.
abbrev busy_server : StunServer
busy_server = record empty_server {
  relay_sessions = (8, relayed) ∷ [];
  relay_count_per_ip = (1, 1) ∷ [];
}

abbrev sent : Bytes
sent = 5 ∷ []

abbrev all_valid : ℕ → ℕ → Bool
all_valid id ip = true

-- Both ends have sent a packet.
abbrev greetings : List Event
greetings =
    packet 1 (some all_valid) all_valid (255 ∷ 1 ∷ 7 ∷ 5 ∷ []) addr_a
    ∷ packet 2 (some all_valid) all_valid (255 ∷ 1 ∷ 7 ∷ 6 ∷ []) addr_b
    ∷ []

abbrev greeted : StunServer
greeted = run empty_server greetings

forwarded_only_example :
    (all_valid (key (7 ∷ [])) 1 ≡ true)
    × (sent ≡ 5 ∷ [])
    × IsForwarded greeted (key (7 ∷ [])) addr_a addr_b
unfolding handle_relay_packet parse_relay_header key lookup relay_locked admit find_or_register
    index_of other_peer forward allow_n refill new_bucket run happen insert size
forwarded_only_example =
    forwarded_only empty_server
      (handle_relay_packet greeted 3 (some all_valid) all_valid (255 ∷ 1 ∷ 7 ∷ 5 ∷ []) addr_a).0
      greetings 3 (some all_valid) all_valid (255 ∷ 1 ∷ 7 ∷ 5 ∷ []) (7 ∷ []) (5 ∷ []) sent addr_a
      addr_b refl refl refl

third_party_dropped_run : relay_locked busy_server 9 8 (5 ∷ []) addr_c ≡ (busy_server, session_full)
unfolding lookup
third_party_dropped_run =
    third_party_dropped busy_server 9 8 (5 ∷ []) addr_c addr_a addr_b relayed refl refl
      (λ e. ground (arith, e)) (λ e. ground (arith, e))

abbrev udp_events : List Event
udp_events =
    packet 1 (some all_valid) all_valid (255 ∷ 1 ∷ 7 ∷ 5 ∷ []) addr_a
    ∷ packet 2 (some all_valid) all_valid (255 ∷ 1 ∷ 7 ∷ 6 ∷ []) addr_b
    ∷ invalidate 8
    ∷ []

relay_quota_example :
    (size (run empty_server udp_events).relay_sessions ≤ 5000)
    × (count_at 1 (run empty_server udp_events).relay_count_per_ip ≤ 64)
    × (count_at 1 (run empty_server udp_events).relay_count_per_ip
        ≡ count_if (λ r. r.creator_ip == 1) (run empty_server udp_events).relay_sessions)
unfolding AllNamed
relay_quota_example =
    relay_quota empty_server udp_events 1 refl refl
      ((λ e. ground (arith, e)), ((λ e. ground (arith, e)), tt))

abbrev chunk : ℕ → List ℕ
chunk n = n ∷ []

receive_all_in_order_example :
    ((receive_all
        (new_udp_tunnel 0)
        ((1, data_ 1 (some (1 ∷ []))) ∷ (2, data_ 0 (some (0 ∷ []))) ∷ [])).recv_ch
      ≡ first
          (receive_all
            (new_udp_tunnel 0)
            ((1, data_ 1 (some (1 ∷ []))) ∷ (2, data_ 0 (some (0 ∷ []))) ∷ [])).next_recv_seq
          chunk)
    × (size
          (receive_all
            (new_udp_tunnel 0)
            ((1, data_ 1 (some (1 ∷ []))) ∷ (2, data_ 0 (some (0 ∷ []))) ∷ [])).recv_buf
        ≤ 1024)
unfolding AllGenuine IsGenuine
receive_all_in_order_example =
    receive_all_in_order chunk 0 ((1, data_ 1 (some (1 ∷ []))) ∷ (2, data_ 0 (some (0 ∷ []))) ∷ [])
      ((refl, ground arith), ((refl, ground arith), tt))

receive_all_complete_example :
    take 2
      (receive_all
        (new_udp_tunnel 0)
        ((1, data_ 1 (some (1 ∷ []))) ∷ (2, data_ 0 (some (0 ∷ []))) ∷ [])).recv_ch
    ≡ first 2 chunk
unfolding AllGenuine IsGenuine AllClose IsClose arrived receive receive_data new_udp_tunnel lookup
    insert size
receive_all_complete_example =
    receive_all_complete chunk 0 2
      ((1, data_ 1 (some (1 ∷ []))) ∷ (2, data_ 0 (some (0 ∷ []))) ∷ [])
      ((refl, ground arith), ((refl, ground arith), tt)) (ground arith, (ground arith, tt))
      (λ k h. ground (arith, h))

inflight_le_run :
    size
      (happen_all
        (new_udp_tunnel 0)
        (write 1 (5 ∷ []) ∷ tick 300 ∷ arrive 301 (ack 0) ∷ [])).send_win
    ≤ 256
inflight_le_run = inflight_le 0 (write 1 (5 ∷ []) ∷ tick 300 ∷ arrive 301 (ack 0) ∷ [])

relay_limits_iff_run :
    (RelayLimits.validate_limits RelayLimits.default_limits ≡ none)
    ↔ IsValid RelayLimits.default_limits
relay_limits_iff_run = relay_limits_iff RelayLimits.default_limits
