-- ===== src/Relay/Session/Invariant/Routing.antt =====
-- The routing table (`byConnID`) after an assignment to one session.
use remote_assist_tool.Base.{ℕ, ◌≡◌, ◌≢◌, ◌⊎◌, true, arith, ◌==◌, Bool-cases, inl, inr}
use remote_assist_tool.Relay.Session.State.{TunnelSession, SessionManager, has_id, store, put}
use remote_assist_tool.Relay.Session.Invariant.Defs.{Inv, IsRouted, InTable}
use remote_assist_tool.Relay.Session.Invariant.Update.{Keeps, store-InTable, update-Inv}

-- The connection `c` is an end of `t` and not the helper that `t` waits for.
pub record IsEnd (t : TunnelSession) (c : ℕ) : Type 0 where
  pub end_of : (has_id t.share c ≡ true) ⊎ (has_id t.help c ≡ true)
  pub settled : t.pending_help_id ≢ c

module _ (m : SessionManager) (v : Inv m) (r : ℕ) (t : TunnelSession) (k : Keeps (m.heap r) t) where
  pub store-IsRouted :
      (c x : ℕ)
      → IsRouted m.heap m.sessions c x
      → (x ≡ r → IsEnd t c)
      → IsRouted (store m.heap r t) m.sessions c x
  store-IsRouted c x q e = elim (Bool-cases (x == r)) [
    | inl same ↦ record {
      in_table = store-InTable m v r t k x q.in_table;
      end_of = ground (arith, e (ground arith));
      named = q.named;
      settled = ground (arith, e (ground arith));
    }
    | inr other ↦ record {
      in_table = store-InTable m v r t k x q.in_table;
      end_of = ground (arith, q.end_of);
      named = q.named;
      settled = ground (arith, q.settled);
    }
  ]

  -- A new entry for `r` itself.
  pub new-IsRouted :
      (c : ℕ)
      → InTable m.heap m.sessions r
      → c ≢ 0
      → IsEnd t c
      → IsRouted (store m.heap r t) m.sessions c r
  new-IsRouted c h n e = record {
    in_table = store-InTable m v r t k r h;
    end_of = ground (arith, e);
    named = n;
    settled = ground (arith, e);
  }

  -- An assignment that leaves the ends and the pending helper alone.
  pub put-Inv :
      t.share ≡ (m.heap r).share
      → t.help ≡ (m.heap r).help
      → t.pending_help_id ≡ (m.heap r).pending_help_id
      → Inv (put m r t)
  put-Inv hs hh hp = update-Inv m v r t k m.by_conn_id λ c x h.
      store-IsRouted c x (v.conn c x h) λ e. record {
        end_of = ground (arith, v.conn c x h);
        settled = ground (arith, v.conn c x h);
      }
