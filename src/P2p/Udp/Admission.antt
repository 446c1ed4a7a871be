-- ===== src/P2p/Udp/Admission.antt =====
-- One packet keeps the invariant of the table of internal/p2p/stun_server.go.
use remote_assist_tool.Base.{
  ℕ, ◌≡◌, ◌≢◌, inl, inr, refl, arith, Bool, true, false, ◌||◌, not, Option, none, some, length, leb,
  if◌then◌else◌, Bool-cases, Option-cases,
}
use mathlib.Core.Path.{subst₂}
use remote_assist_tool.Base.Dict.{count_at, lookup, size, lookup-insert}
use remote_assist_tool.Ratelimit.Bucket.{Bucket, allow_n}
use remote_assist_tool.P2p.Udp.Header.{Bytes}
use remote_assist_tool.P2p.Udp.Relay.{
  UdpAddr, RelaySession, StunServer, Outcome, scaled, find_or_register, other_peer, forwarded,
  relay_bytes_session, relay_bytes_global, admit, add_session, new_relay_session, keep, forward,
  relay_locked,
}
use remote_assist_tool.P2p.Udp.Quota.{Sound, keep-Sound, admitted-Sound}

module _ (total per_ip now id : ℕ) where
  -- What holds once the session is in the table.
  pub record IsAdmitted (s : StunServer) (r : RelaySession) : Type 0 where
    pub sound : Sound total per_ip s
    pub in_table : lookup id s.relay_sessions ≡ some r

  pub same_pair :
      (s s1 : StunServer) (r q : RelaySession)
      → ◌≡◌ {A = Option (StunServer × RelaySession)} (some (s, q)) (some (s1, r))
      → IsAdmitted s q
      → IsAdmitted s1 r
  same_pair s s1 r q e v = let p : s ≡ s1 = cc e in let w : q ≡ r = cc e in subst₂ IsAdmitted p w v

  pub IsAdmitted-new :
      (s : StunServer) (r : RelaySession)
      → r.creator_ip ≢ 0
      → Sound total per_ip s
      → lookup id s.relay_sessions ≡ none
      → (leb s.max_relay_sessions_total (size s.relay_sessions)
          || leb s.max_relay_sessions_per_ip (count_at r.creator_ip s.relay_count_per_ip))
        ≡ false
      → IsAdmitted (add_session s id r.creator_ip r) r
  IsAdmitted-new s r named v new open_ = record {
    sound =
        admitted-Sound total per_ip id s r v new named (ground (arith, open_, v.same_total))
          (ground (arith, open_, v.same_per_ip));
    in_table = ground (arith, lookup-insert id id r s.relay_sessions);
  }

  pub admit-IsAdmitted :
      (s s1 : StunServer) (r : RelaySession) (ip : ℕ)
      → ip ≢ 0
      → Sound total per_ip s
      → admit s now id ip ≡ some (s1, r)
      → IsAdmitted s1 r
  unfolding admit
  admit-IsAdmitted s s1 r ip named v e = elim (Option-cases (lookup id s.relay_sessions)) [
    | inr (q, f) ↦ same_pair s s1 r q (ground (arith, f, e)) (record { sound = v; in_table = f })
    | inl new ↦
        elim (Bool-cases (
          leb s.max_relay_sessions_total (size s.relay_sessions)
          || leb s.max_relay_sessions_per_ip (count_at ip s.relay_count_per_ip))) [
            | inl full ↦ absurd (ground (arith, new, full, e))
            | inr open_ ↦
                let q = new_relay_session s now ip in
                same_pair (add_session s id ip q) s1 r q (ground (arith, new, open_, e))
                  (IsAdmitted-new s q named v new open_)
          ]
  ]

  pub budget-Sound :
      (s : StunServer) (b : Bucket)
      → Sound total per_ip s
      → Sound total per_ip (record s { relay_byte_global = b })
  budget-Sound s b v = record {
    distinct = v.distinct;
    room = v.room;
    paid = v.paid;
    counts = v.counts;
    quota = v.quota;
    same_total = v.same_total;
    same_per_ip = v.same_per_ip;
  }

  pub branches :
      (own_ok all_ok : Bool) (a b c : StunServer × Outcome)
      → Sound total per_ip a.0
      → Sound total per_ip b.0
      → Sound total per_ip c.0
      → Sound total per_ip (if not own_ok then a else if not all_ok then b else c).0
  branches true true a b c u v w = w
  branches true false a b c u v w = v
  branches false all_ok a b c u v w = u

  pub forward-Sound :
      (s : StunServer) (r q : RelaySession) (payload : Bytes) (target : Option UdpAddr)
      → IsAdmitted s r
      → q.creator_ip ≡ r.creator_ip
      → Sound total per_ip (forward s now id q payload target).0
  unfolding forward
  forward-Sound s r q payload none v e = keep-Sound total per_ip id s r _ v.sound v.in_table e
  forward-Sound s r q payload (some target) v e =
      let cost = scaled (length payload) in
      let own = allow_n q.byte_limiter now cost in
      let all = allow_n s.relay_byte_global now cost in
      let charged : RelaySession = record q { byte_limiter = own.0 } in
      let paid : StunServer = record s { relay_byte_global = all.0 } in
      let paid-Sound = budget-Sound s all.0 v.sound in
      branches own.1 all.1 (keep s id charged, relay_bytes_session)
        (keep paid id charged, relay_bytes_global)
        (keep paid id (record charged { last_seen = now }), forwarded payload target)
        (keep-Sound total per_ip id s r charged v.sound v.in_table e)
        (keep-Sound total per_ip id paid r charged paid-Sound v.in_table e)
        (keep-Sound total per_ip id paid r (record charged { last_seen = now }) paid-Sound
          v.in_table e)

  pub locked-Sound :
      (s : StunServer) (payload : Bytes) (from : UdpAddr)
      → from.ip ≢ 0
      → Sound total per_ip s
      → Sound total per_ip (relay_locked s now id payload from).0
  unfolding relay_locked
  locked-Sound s payload from named v = elim (Option-cases (admit s now id from.ip)) [
    | inl e ↦ rw (e, relay_locked) v
    | inr ((s1, r), e) ↦
        let a = admit-IsAdmitted s s1 r from.ip named v e in
        elim (Option-cases (find_or_register r.peers from)) [
          | inl f ↦ rw (e, relay_locked) (rw f a.sound)
          | inr ((i, peers), f) ↦
              rw (e, relay_locked) (rw f (forward-Sound s1 r _ payload (other_peer i peers) a refl))
        ]
  ]
