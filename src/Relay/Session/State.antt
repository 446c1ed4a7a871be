-- ===== src/Relay/Session/State.antt =====
-- internal/relay/session.go: the types. A text that the code only compares (IDs, codes, addresses,
-- versions) is a number, 0 for the empty one; a time is a number of nanoseconds, 0 for the zero
-- time. A `*TunnelSession` is an index of the heap, a `*ClientConn` is its record with its address
-- in `ptr`. The mutex makes each method one step; the clock reading is the argument `now`.
use remote_assist_tool.Base.{ℕ, Bool, true, false, List, [], Option, none, ◌==◌, if◌then◌else◌}
use remote_assist_tool.Base.Dict.{Dict}

pub record ClientConn : Type 0 where
  pub ptr : ℕ
  pub id : ℕ
  pub version : ℕ
  pub host : ℕ
  pub remote_addr : ℕ

pub record TunnelSession : Type 0 where
  pub id : ℕ
  pub code : ℕ
  pub share : Option ClientConn
  pub help : Option ClientConn
  pub created_at : ℕ
  pub expires_at : ℕ
  pub client_id : ℕ
  pub creator_ip : ℕ
  pub counted_by_ip : Bool
  pub share_public_addr : ℕ
  pub share_private_addr : ℕ
  pub share_nat_type : ℕ
  pub help_public_addr : ℕ
  pub help_private_addr : ℕ
  pub help_nat_type : ℕ
  pub closed : Bool
  pub share_ready : Bool
  pub data_plane_ready : Bool
  pub timer_set : Bool  -- helpDisconnectTimer != nil
  pub pending_help_id : ℕ
  pub live_replaces : List ℕ
  pub conflict_until : ℕ

pub record SessionManager : Type 0 where
  pub heap : ℕ → TunnelSession
  pub next : ℕ  -- the first address that no session has
  pub sessions : Dict ℕ
  pub by_code : Dict ℕ
  pub by_client_id : Dict ℕ
  pub by_conn_id : Dict ℕ
  pub session_count_per_ip : Dict ℕ
  pub reconnect_grace : ℕ

pub data Err : Type 0 where
  session_not_found code_expired code_invalid session_has_helper : Err
  max_total_sessions max_sessions_per_ip : Err

pub data Result {ℓ} (A : Type ℓ) : Type ℓ where
  ok : A → Result A
  err : Err → Result A

-- The value that memory holds where nothing is allocated.
abbrev pub blank : TunnelSession
blank = record {
  id = 0;
  code = 0;
  share = none;
  help = none;
  created_at = 0;
  expires_at = 0;
  client_id = 0;
  creator_ip = 0;
  counted_by_ip = false;
  share_public_addr = 0;
  share_private_addr = 0;
  share_nat_type = 0;
  help_public_addr = 0;
  help_private_addr = 0;
  help_nat_type = 0;
  closed = false;
  share_ready = false;
  data_plane_ready = false;
  timer_set = false;
  pending_help_id = 0;
  live_replaces = [];
  conflict_until = 0;
}

unfoldable pub new_session_manager : ℕ → SessionManager
new_session_manager grace = record {
  heap = λ r. blank;
  next = 0;
  sessions = [];
  by_code = [];
  by_client_id = [];
  by_conn_id = [];
  session_count_per_ip = [];
  reconnect_grace = grace;
}

-- An assignment through the pointer `r`.
abbrev pub store : (ℕ → TunnelSession) → ℕ → TunnelSession → ℕ → TunnelSession
store h r s x = if x == r then s else h x

abbrev pub put : SessionManager → ℕ → TunnelSession → SessionManager
put m r s = record m { heap = store m.heap r s }

-- `c != nil && c.ID == k`
abbrev pub has_id : Option ClientConn → ℕ → Bool
has_id none k = false
has_id (Option.some c) k = c.id == k

abbrev pub is_set : Option ClientConn → Bool
is_set none = false
is_set (Option.some c) = true

-- The manager after a call that may fail: a failure changes nothing.
abbrev pub after_result {ℓ} :
    {A : Type ℓ} → SessionManager → Result (SessionManager × A) → SessionManager
after_result m (ok (m', a)) = m'
after_result m (err e) = m
