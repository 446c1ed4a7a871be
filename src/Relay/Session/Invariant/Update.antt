-- ===== src/Relay/Session/Invariant/Update.antt =====
-- One assignment to a session keeps the invariant of the session manager.
use remote_assist_tool.Base.{ℕ, ◌≡◌, ◌≢◌, true, false, some, arith, ◌∙◌}
use remote_assist_tool.Base.Dict.{Dict, lookup, count_if_congr}
use remote_assist_tool.Relay.Session.State.{TunnelSession, SessionManager, has_id, store}
use remote_assist_tool.Relay.Session.Invariant.Defs.{Inv, IsLive, IsRouted, InTable, charged}

-- What an assignment must leave alone, and what it must establish.
pub record Keeps (s t : TunnelSession) : Type 0 where
  pub id : t.id ≡ s.id
  pub code : t.code ≡ s.code
  pub client_id : t.client_id ≡ s.client_id
  pub creator_ip : t.creator_ip ≡ s.creator_ip
  pub counted_by_ip : t.counted_by_ip ≡ s.counted_by_ip
  pub closed : t.closed ≡ s.closed
  pub help_named : has_id s.help 0 ≡ false → has_id t.help 0 ≡ false
  pub pending_timed :
      (s.pending_help_id ≢ 0 → s.timer_set ≡ true) → t.pending_help_id ≢ 0 → t.timer_set ≡ true

module _ (m : SessionManager) (v : Inv m) (r : ℕ) (t : TunnelSession) (k : Keeps (m.heap r) t) where
  store_id : (x : ℕ) → (store m.heap r t x).id ≡ (m.heap x).id
  store_id x = ground arith

  store_code : (x : ℕ) → (store m.heap r t x).code ≡ (m.heap x).code
  store_code x = ground arith

  store_client_id : (x : ℕ) → (store m.heap r t x).client_id ≡ (m.heap x).client_id
  store_client_id x = ground arith

  charged-store : (ip x : ℕ) → charged (m.heap x) ip ≡ charged (store m.heap r t x) ip
  charged-store ip x = ground arith

  pub store-InTable :
      (x : ℕ) → InTable m.heap m.sessions x → InTable (store m.heap r t) m.sessions x
  store-InTable x h = rw (store_id x) h

  store-IsLive : (i x : ℕ) → IsLive m.next i x (m.heap x) → IsLive m.next i x (store m.heap r t x)
  store-IsLive i x h = ground arith

  -- The invariant after `*r = t`, with a routing table that suits it.
  pub update-Inv :
      (conns : Dict ℕ)
      → ((c x : ℕ) → lookup c conns ≡ some x → IsRouted (store m.heap r t) m.sessions c x)
      → Inv (record m { heap = store m.heap r t; by_conn_id = conns })
  update-Inv conns routed = record {
    distinct = v.distinct;
    live = λ i x h. store-IsLive i x (v.live i x h);
    code = λ c x h. (store-InTable x (v.code c x h).0, store_code x ∙ (v.code c x h).1);
    client = λ c x h. (
      store-InTable x (v.client c x h).0,
      store_client_id x ∙ (v.client c x h).1,
      (v.client c x h).2,
    );
    conn = routed;
    counts = λ ip.
        v.counts ip
        ∙ count_if_congr (λ x. charged (m.heap x) ip) (λ x. charged (store m.heap r t x) ip)
            m.sessions v.distinct (λ i x h. charged-store ip x);
  }
