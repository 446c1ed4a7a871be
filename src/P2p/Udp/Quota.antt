-- ===== src/P2p/Udp/Quota.antt =====
-- The invariant of the table of internal/p2p/stun_server.go, over every sequence of its operations.
use remote_assist_tool.Base.{
  ℕ, ◌+◌, ◌-◌, ◌≤◌, ◌<◌, ◌≡◌, ◌≢◌, inl, inr, sym, ◌∙◌, arith, ap, Bool, true, false, [], ◌∷◌, none,
  some, ltb, ◌==◌, if◌then◌else◌, Option-cases,
}
use remote_assist_tool.Base.Dict.{
  count_if-replace, count_at, less, less-count, Dict, lookup, insert, delete, size, count_if,
  Distinct, lookup-insert, lookup-delete, insert-Distinct, delete-Distinct, size-insert_new,
  size-delete_le, count_if-insert, count_if-delete,
}
use remote_assist_tool.P2p.Udp.Relay.{
  RelaySession, StunServer, keep, delete_relay_session, cleanup_relay_sessions,
}

-- The session counts for the IP.
abbrev pub charged_to : ℕ → RelaySession → Bool
charged_to ip r = r.creator_ip == ip

pub record Sound (total per_ip : ℕ) (s : StunServer) : Type 0 where
  pub distinct : Distinct s.relay_sessions
  pub room : size s.relay_sessions ≤ total
  pub paid : (id : ℕ) (r : RelaySession) → lookup id s.relay_sessions ≡ some r → r.creator_ip ≢ 0
  pub counts :
      (ip : ℕ) → count_at ip s.relay_count_per_ip ≡ count_if (charged_to ip) s.relay_sessions
  pub quota : (ip : ℕ) → count_at ip s.relay_count_per_ip ≤ per_ip
  pub same_total : s.max_relay_sessions_total ≡ total
  pub same_per_ip : s.max_relay_sessions_per_ip ≡ per_ip

-- The value of a key that is there is replaced by one of the same creator.
replaced_count :
    (ip id : ℕ) (r q : RelaySession) (d : Dict RelaySession)
    → Distinct d
    → lookup id d ≡ some r
    → q.creator_ip ≡ r.creator_ip
    → (count_if (charged_to ip) (insert id q d) ≡ count_if (charged_to ip) d)
      × (size (insert id q d) ≡ size d)
replaced_count ip id r q d v h e =
    count_if-replace (charged_to ip) id r q d v h (ap (λ x. x == ip) e)

pub keep-Sound :
    (total per_ip id : ℕ) (s : StunServer) (r q : RelaySession)
    → Sound total per_ip s
    → lookup id s.relay_sessions ≡ some r
    → q.creator_ip ≡ r.creator_ip
    → Sound total per_ip (keep s id q)
keep-Sound total per_ip id s r q v h e = record {
  distinct = insert-Distinct id q s.relay_sessions v.distinct;
  room = ground (arith, v.room, replaced_count 0 id r q s.relay_sessions v.distinct h e);
  paid = λ i x f.
      ground (arith, e, v.paid id r h, v.paid i x, f, lookup-insert id i q s.relay_sessions);
  counts = λ ip. v.counts ip ∙ sym (replaced_count ip id r q s.relay_sessions v.distinct h e).0;
  quota = v.quota;
  same_total = v.same_total;
  same_per_ip = v.same_per_ip;
}

deleted-Sound :
    (total per_ip id : ℕ) (s : StunServer) (r : RelaySession)
    → Sound total per_ip s
    → lookup id s.relay_sessions ≡ some r
    → Sound total per_ip (record s {
      relay_sessions = delete id s.relay_sessions;
      relay_count_per_ip = less r.creator_ip s.relay_count_per_ip;
    })
deleted-Sound total per_ip id s r v h = record {
  distinct = delete-Distinct id s.relay_sessions v.distinct;
  room = ground (arith, v.room, size-delete_le id s.relay_sessions);
  paid = λ i x f. ground (arith, v.paid i x, f, lookup-delete id i s.relay_sessions);
  counts = λ ip.
      let gone = count_if-delete (charged_to ip) id r s.relay_sessions v.distinct h in
      ground (arith, v.counts ip, gone, less-count r.creator_ip ip s.relay_count_per_ip);
  quota = λ ip.
      ground
        (arith, v.quota ip, v.quota r.creator_ip, less-count r.creator_ip ip s.relay_count_per_ip);
  same_total = v.same_total;
  same_per_ip = v.same_per_ip;
}

pub delete-Sound :
    (total per_ip id : ℕ) (s : StunServer)
    → Sound total per_ip s
    → Sound total per_ip (delete_relay_session s id)
unfolding delete_relay_session
delete-Sound total per_ip id s v = elim (Option-cases (lookup id s.relay_sessions)) [
  | inl e ↦ rw (e, delete_relay_session) v
  | inr (r, e) ↦
      let paid : (r.creator_ip == 0) ≡ false = ground (arith, v.paid id r e) in
      rw (e, delete_relay_session) (rw paid (deleted-Sound total per_ip id s r v e))
]

choose :
    {total per_ip : ℕ} {x y : StunServer} (b : Bool)
    → Sound total per_ip x
    → Sound total per_ip y
    → Sound total per_ip (if b then x else y)
choose true v w = v
choose false v w = w

pub cleanup-Sound :
    (total per_ip ttl now : ℕ) (order : Dict RelaySession) (s : StunServer)
    → Sound total per_ip s
    → Sound total per_ip (cleanup_relay_sessions ttl now order s)
unfolding cleanup_relay_sessions
cleanup-Sound total per_ip ttl now [] s v = v
cleanup-Sound total per_ip ttl now ((id, r) ∷ rest) s v =
    cleanup-Sound total per_ip ttl now rest _
      (choose (ltb ttl (now - r.last_seen)) (delete-Sound total per_ip id s v) v)

pub admitted-Sound :
    (total per_ip id : ℕ) (s : StunServer) (r : RelaySession)
    → Sound total per_ip s
    → lookup id s.relay_sessions ≡ none
    → r.creator_ip ≢ 0
    → size s.relay_sessions < total
    → count_at r.creator_ip s.relay_count_per_ip < per_ip
    → Sound total per_ip (record s {
      relay_sessions = insert id r s.relay_sessions;
      relay_count_per_ip =
          insert r.creator_ip (count_at r.creator_ip s.relay_count_per_ip + 1) s.relay_count_per_ip;
    })
admitted-Sound total per_ip id s r v h paid room quota =
    let n = count_at r.creator_ip s.relay_count_per_ip + 1 in
    record {
      distinct = insert-Distinct id r s.relay_sessions v.distinct;
      room = ground (arith, room, size-insert_new id r s.relay_sessions h);
      paid = λ i x f. ground (arith, paid, v.paid i x, f, lookup-insert id i r s.relay_sessions);
      counts = λ ip. ground (
        arith,
        v.counts ip,
        v.counts r.creator_ip,
        count_if-insert (charged_to ip) id r s.relay_sessions h,
        lookup-insert r.creator_ip ip n s.relay_count_per_ip,
      );
      quota = λ ip.
          ground (arith, quota, v.quota ip, lookup-insert r.creator_ip ip n s.relay_count_per_ip);
      same_total = v.same_total;
      same_per_ip = v.same_per_ip;
    }
