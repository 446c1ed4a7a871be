-- ===== src/Relay/Session/Addresses.antt =====
-- internal/relay/session.go: the addresses of the two ends: IsActiveDataSource, UpdatePeerAddr.
use remote_assist_tool.Base.{
  ℕ, Bool, true, false, not, ◌&&◌, ◌||◌, List, [], ◌∷◌, ◌++◌, Option, none, some, ◌==◌,
  if◌then◌else◌,
}
use remote_assist_tool.Base.Dict.{lookup}
use remote_assist_tool.Relay.Session.State.{ClientConn, TunnelSession, SessionManager, put}
use remote_assist_tool.Relay.Session.Pairing.{session_is_active}

-- What the code uses of package net: the host of a "host:port" (`none` on an error) and the
-- address that a host stands for (`none` if it is no IP literal).
pub record Net : Type 0 where
  pub split_host_port : ℕ → Option ℕ
  pub parse_ip : ℕ → Option ℕ

abbrev is_ip : Option ℕ → ℕ → Bool
is_ip none src = false
is_ip (some ip) src = ip == src

abbrev host_or : Option ℕ → ℕ → ℕ
host_or none d = d
host_or (some h) d = h

unfoldable pub host_matches_ip : Net → ℕ → ℕ → Bool
host_matches_ip net host_port src =
    if host_port == 0
    then false
    else is_ip (net.parse_ip (host_or (net.split_host_port host_port) host_port)) src

unfoldable pub any_matches : Net → List ℕ → ℕ → Bool
any_matches net [] src = false
any_matches net (c ∷ cs) src = host_matches_ip net c src || any_matches net cs src

abbrev remote_of : Option ClientConn → List ℕ
remote_of none = []
remote_of (some c) = c.remote_addr ∷ []

unfoldable pub session_knows_ip : Net → TunnelSession → ℕ → Bool
session_knows_ip net s src =
    any_matches net
      ((s.share_public_addr ∷ s.share_private_addr ∷ s.help_public_addr ∷ s.help_private_addr ∷ [])
        ++ (remote_of s.share ++ remote_of s.help))
      src

-- `src` is `none` for a nil IP.
unfoldable pub is_active_data_source : Net → SessionManager → ℕ → Option ℕ → Bool
unfolding session_is_active
is_active_data_source net m session_id src = elim (lookup session_id m.sessions) [
  | none ↦ false
  | some r ↦
      if not (session_is_active (m.heap r))
      then false
      else elim src [ none ↦ false | some ip ↦ session_knows_ip net (m.heap r) ip ]
]

unfoldable pub detect_same_network : Net → ℕ → ℕ → Bool
detect_same_network net share_remote help_remote =
    let share_host = host_or (net.split_host_port share_remote) 0 in
    let help_host = host_or (net.split_host_port help_remote) 0 in
    not (share_host == 0) && share_host == help_host

pub record PeerAddrUpdate : Type 0 where
  pub peer : ClientConn
  pub is_share_side : Bool
  pub same_network : Bool
  pub nat_type : ℕ

abbrev share_update : Net → ClientConn → Option ClientConn → ℕ → Option PeerAddrUpdate
share_update net share none nat = none
share_update net share (some help) nat = some (record {
  peer = help;
  is_share_side = true;
  same_network = detect_same_network net share.remote_addr help.remote_addr;
  nat_type = nat;
})

abbrev help_update : Net → Option ClientConn → ClientConn → ℕ → Option PeerAddrUpdate
help_update net none help nat = none
help_update net (some share) help nat = some (record {
  peer = share;
  is_share_side = false;
  same_network = detect_same_network net share.remote_addr help.remote_addr;
  nat_type = nat;
})

-- The branch of the helper, with the helper that sits in the session.
unfoldable pub update_help_addr :
    Net
    → SessionManager
    → ℕ
    → Option ClientConn
    → ℕ
    → ℕ
    → ℕ
    → ℕ
    → SessionManager × Option PeerAddrUpdate
update_help_addr net m r none conn_id public private nat = (m, none)
update_help_addr net m r (some help) conn_id public private nat =
    if help.id == conn_id
    then (
      put m r (record (m.heap r) {
        help_public_addr = public;
        help_private_addr = private;
        help_nat_type = nat;
      }),
      help_update net (m.heap r).share help nat,
    )
    else (m, none)

unfoldable pub update_share_addr :
    Net
    → SessionManager
    → ℕ
    → Option ClientConn
    → ℕ
    → ℕ
    → ℕ
    → ℕ
    → SessionManager × Option PeerAddrUpdate
unfolding update_help_addr
update_share_addr net m r none conn_id public private nat =
    update_help_addr net m r (m.heap r).help conn_id public private nat
update_share_addr net m r (some share) conn_id public private nat =
    if share.id == conn_id
    then (
      put m r (record (m.heap r) {
        share_public_addr = public;
        share_private_addr = private;
        share_nat_type = nat;
      }),
      share_update net share (m.heap r).help nat,
    )
    else update_help_addr net m r (m.heap r).help conn_id public private nat

unfoldable pub update_peer_addr :
    Net → SessionManager → ℕ → ℕ → ℕ → ℕ → SessionManager × Option PeerAddrUpdate
unfolding update_share_addr
update_peer_addr net m conn_id public private nat = elim (lookup conn_id m.by_conn_id) [
  | none ↦ (m, none)
  | some r ↦ update_share_addr net m r (m.heap r).share conn_id public private nat
]
