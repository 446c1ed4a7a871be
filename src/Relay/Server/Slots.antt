-- ===== src/Relay/Server/Slots.antt =====
-- The slots of the connections of internal/relay/server.go are the connections that are there.
use remote_assist_tool.Base.{
  ℕ, ◌+◌, ◌-◌, ◌≤◌, ◌<◌, ◌≡◌, ◌≢◌, sym, ap, ◌∙◌, arith, Bool, false, none, some, ◌==◌,
}
use remote_assist_tool.Base.Dict.{
  Dict, lookup, insert, delete, size, count_if, Distinct, lookup-insert, lookup-delete,
  insert-Distinct, delete-Distinct, size-insert_new, size-delete, count_if-insert, count_if-delete,
  count_if-replace, count_at, less, less-count,
}
use remote_assist_tool.Base.Int.{pos_part}
use remote_assist_tool.Relay.Session.Addresses.{Net}
use remote_assist_tool.Relay.Server.State.{Client, Config}
use remote_assist_tool.Relay.Server.Register.{client_host}

-- The connection comes from the IP.
abbrev pub comes_from : Net → ℕ → Client → Bool
comes_from net ip c = client_host net c.conn == ip

pub record Slots (net : Net) (cfg : Config) (clients : Dict Client) (total : ℕ) (per_ip : Dict ℕ)
    : Type 0 where
  pub distinct : Distinct clients
  pub keyed : (id : ℕ) (c : Client) → lookup id clients ≡ some c → (c.conn.id ≡ id) × (id ≢ 0)
  pub all : total ≡ size clients
  pub each : (ip : ℕ) → count_at ip per_ip ≡ count_if (comes_from net ip) clients
  pub room : total ≤ pos_part cfg.limits.max_connections_total
  pub quota :
      cfg.disable_source_ip_limits ≡ false
      → (ip : ℕ) → count_at ip per_ip ≤ pos_part cfg.limits.max_connections_per_ip

module _ (net : Net) (cfg : Config) (clients : Dict Client) (total : ℕ) (per_ip : Dict ℕ) where
  -- A new connection takes a slot.
  pub taken-Slots :
      (id : ℕ) (c : Client)
      → Slots net cfg clients total per_ip
      → lookup id clients ≡ none
      → c.conn.id ≡ id
      → id ≢ 0
      → total < pos_part cfg.limits.max_connections_total
      → (cfg.disable_source_ip_limits ≡ false
          → count_at (client_host net c.conn) per_ip < pos_part cfg.limits.max_connections_per_ip)
      → Slots net cfg
          (insert id c clients)
          (total + 1)
          (insert (client_host net c.conn) (count_at (client_host net c.conn) per_ip + 1) per_ip)
  taken-Slots id c v fresh named nonzero free below =
      let host = client_host net c.conn in
      record {
        distinct = insert-Distinct id c clients v.distinct;
        keyed =
            λ i d f. ground (arith, v.keyed i d, f, lookup-insert id i c clients, named, nonzero);
        all = ground (arith, v.all, size-insert_new id c clients fresh);
        each = λ ip. ground (
          arith,
          v.each ip,
          count_if-insert (comes_from net ip) id c clients fresh,
          lookup-insert host ip (count_at host per_ip + 1) per_ip,
        );
        room = ground (arith, free);
        quota = λ on ip. ground (
          arith,
          v.quota on ip,
          below on,
          lookup-insert host ip (count_at host per_ip + 1) per_ip,
        );
      }

  -- The state of a connection changes, its address does not.
  pub replaced-Slots :
      (id : ℕ) (c d : Client)
      → Slots net cfg clients total per_ip
      → lookup id clients ≡ some c
      → d.conn.id ≡ c.conn.id
      → d.conn.remote_addr ≡ c.conn.remote_addr
      → Slots net cfg (insert id d clients) total per_ip
  unfolding client_host
  replaced-Slots id c d v there same_id same_addr =
      let (named, nonzero) = v.keyed id c there in
      let same = λ (ip : ℕ).
        count_if-replace (comes_from net ip) id c d clients v.distinct there
          (ap (λ a. elim (net.split_host_port a) [ none ↦ a | some h ↦ h ] == ip) same_addr) in
      record {
        distinct = insert-Distinct id d clients v.distinct;
        keyed = λ i e f.
            ground (arith, v.keyed i e, f, lookup-insert id i d clients, named, nonzero, same_id);
        all = v.all ∙ sym (same 0).1;
        each = λ ip. v.each ip ∙ sym (same ip).0;
        room = v.room;
        quota = v.quota;
      }

  -- A connection that ends gives its slot back.
  pub freed-Slots :
      (id : ℕ) (c : Client)
      → Slots net cfg clients total per_ip
      → lookup id clients ≡ some c
      → Slots net cfg (delete id clients) (total - 1) (less (client_host net c.conn) per_ip)
  freed-Slots id c v there =
      let host = client_host net c.conn in
      record {
        distinct = delete-Distinct id clients v.distinct;
        keyed = λ i d f. ground (arith, v.keyed i d, f, lookup-delete id i clients);
        all = ground (arith, v.all, size-delete id c clients v.distinct there);
        each = λ ip. ground (
          arith,
          v.each ip,
          count_if-delete (comes_from net ip) id c clients v.distinct there,
          less-count host ip per_ip,
        );
        room = ground (arith, v.room);
        quota = λ on ip. ground (arith, v.quota on ip, v.quota on host, less-count host ip per_ip);
      }

  -- A connection that is there has its counter.
  pub counted :
      (id : ℕ) (c : Client)
      → Slots net cfg clients total per_ip
      → lookup id clients ≡ some c
      → lookup (client_host net c.conn) per_ip ≢ none
  counted id c v there gone =
      let host = client_host net c.conn in
      ground (
        arith,
        v.each host,
        gone,
        count_if-delete (comes_from net host) id c clients v.distinct there,
      )
