-- ===== src/Relay/Server/Throttle.antt =====
-- The tool channel of internal/relay/server.go: the wait for its limiters ends, and what becomes of
-- a frame then.
use remote_assist_tool.Base.{
  ℕ, zero, suc, ◌+◌, ◌-◌, ◌*◌, ◌∙◌, sym, ap, ◌≤◌, ◌<◌, ◌≡◌, refl, arith, true, false, not, List, [],
  ◌∷◌, some, ltb, Bool-cases, if_true, if_false, inl, inr, length,
}
use remote_assist_tool.Ratelimit.Bucket.{Bucket}
use remote_assist_tool.Ratelimit.Keyed.{KeyedLimiter}
use remote_assist_tool.Relay.Session.Pairing.{find_peer}
use remote_assist_tool.Relay.Session.Addresses.{Net}
use remote_assist_tool.Relay.Server.State.{
  Client, ToolKind, Message, tool, rate_limited, forwarded, error, send, Server, Env, Outcome,
}
use remote_assist_tool.Relay.Server.Limiters.{
  Waiting, tool_round, tool_loop, tool_cost, throttle_clock, tool_throttle_step,
  tool_throttle_max_wait, allow_tool_message,
}
use remote_assist_tool.Relay.Server.Handle.{
  is_new, send_to, forward_to_peer, tool_waited, handle_tool, handle_business, handle_message,
}

-- A round of the loop: it ends with an accepted frame or past the deadline, or goes on.
tool_loop_step :
    (fuel : ℕ) (clock : ℕ → ℕ) (i deadline key cost : ℕ) (w : Waiting)
    → let w' = tool_round (clock i) key cost w in
      let now = tool_loop (suc fuel) clock i deadline key cost w in
      (w'.accepted ≡ true → now ≡ some w')
      × (w'.accepted ≡ false → ltb (clock i) deadline ≡ false → now ≡ some w')
      × (w'.accepted ≡ false
          → ltb (clock i) deadline ≡ true
          → now ≡ tool_loop fuel clock (i + 1) deadline key cost w')
unfolding tool_loop
tool_loop_step fuel clock i deadline key cost w =
    let w' = tool_round (clock i) key cost w in
    let rest = tool_loop fuel clock (i + 1) deadline key cost w' in
    (
      λ done. if_true w'.accepted (some w') _ done,
      λ more past.
          if_false w'.accepted (some w') _ more
          ∙ if_true (not (ltb (clock i) deadline)) (some w') rest (ap not past),
      λ more early.
          if_false w'.accepted (some w') _ more
          ∙ if_false (not (ltb (clock i) deadline)) (some w') rest (ap not early),
    )

-- With a round that reads a time past the deadline within reach, the loop ends.
tool_loop_ends :
    (fuel : ℕ) (now : ℕ) (late : ℕ → ℕ) (i deadline key cost : ℕ) (w : Waiting)
    → 0 < fuel
    → deadline ≤ now + (i + fuel - 1) * tool_throttle_step
    → (r : Waiting) × (tool_loop fuel (throttle_clock now late) i deadline key cost w ≡ some r)
unfolding tool_loop
tool_loop_ends zero now late i deadline key cost w p h = absurd (ground (arith, p))
tool_loop_ends (suc fuel) now late i deadline key cost w p h =
    let w' = tool_round (throttle_clock now late i) key cost w in
    let step = tool_loop_step fuel (throttle_clock now late) i deadline key cost w in
    elim (Bool-cases w'.accepted) [
      | inl done ↦ (w', step.0 done)
      | inr more ↦ elim (Bool-cases (ltb (throttle_clock now late i) deadline)) [
        | inr past ↦ (w', step.1 more past)
        | inl early ↦
            (let (r, e) =
                tool_loop_ends fuel now late (i + 1) deadline key cost w' (ground (arith, early, h))
                  (omega (arith, h)) in
              (r, step.2 more early ∙ e))
      ]
    ]

-- The wait for the tool channel always ends.
allow_ends :
    (own : KeyedLimiter) (global : Bucket) (now : ℕ) (late : ℕ → ℕ) (key payload_bytes : ℕ)
    → (r : Waiting) × (allow_tool_message own global now late key payload_bytes ≡ some r)
unfolding allow_tool_message
allow_ends own global now late key payload_bytes =
    tool_loop_ends 101 now late 0 (now + tool_throttle_max_wait) key (tool_cost payload_bytes)
      (record { own = own; global = global; per_conn_paid = false; accepted = false }) (omega arith)
      (omega arith)

-- With what the limiters say in the end, `w`: a frame that they accept goes to the peer, if there is
-- one, and one that they do not closes the connection, which hears of it. The limiters have what
-- the wait has left in them.
pub record IsHonest (s : Server) (c : Client) (msg : Message) (w : Waiting) (o : Outcome)
    : Type 0 where
  pub own : o.server.tool_limiter_per_conn ≡ w.own
  pub global : o.server.tool_limiter_global ≡ w.global
  pub goes :
      w.accepted ≡ true
      → (o.out ≡ send_to (find_peer s.sessions c.conn.id) (forwarded msg)) × (o.closes ≡ false)
  pub stops :
      w.accepted ≡ false → (o.out ≡ send c.conn (error rate_limited) ∷ []) × (o.closes ≡ true)

waited-IsHonest :
    (s : Server) (c : Client) (msg : Message) (w : Waiting)
    → IsHonest s c msg w (tool_waited s c msg (some w))
unfolding tool_waited forward_to_peer
waited-IsHonest s c msg w = record {
  own = ground arith;
  global = ground arith;
  goes = λ h. rw h (refl, refl);
  stops = λ h. rw h (refl, refl);
}

-- A frame of the tool channel of a registered connection: the wait for the limiters ends, and when
-- they accept the frame it goes to the peer as it is, if there is one, and is dropped otherwise;
-- when they do not, the sender is told and its connection closes.
pub tool_frame-IsHonest :
    (net : Net) (env : Env) (s : Server) (c : Client) (kind : ToolKind) (payload : List ℕ)
    → is_new c.type ≡ false
    → (w : Waiting) × (allow_tool_message s.tool_limiter_per_conn s.tool_limiter_global env.now
          env.late c.conn.id
          (length payload)
        ≡ some w)
      × IsHonest s c (tool kind payload) w (handle_message net env s c (tool kind payload))
unfolding handle_message handle_business handle_tool
tool_frame-IsHonest net env s c kind payload registered =
    let (r, e) =
      allow_ends s.tool_limiter_per_conn s.tool_limiter_global env.now env.late c.conn.id
        (length payload) in
    (r, e, rw registered (rw e (waited-IsHonest s c (tool kind payload) r)))

round_keeps :
    (now key cost : ℕ) (w : Waiting)
    → w.per_conn_paid ≡ true
    → ((tool_round now key cost w).own ≡ w.own) × ((tool_round now key cost w).per_conn_paid ≡ true)
unfolding tool_round
round_keeps now key cost w paid = rw paid (refl, refl)

own_of : (w' w r : Waiting) → w'.own ≡ w.own → some w' ≡ some r → r.own ≡ w.own
own_of w' w r same e = ground (arith, same, e)

-- Once the bucket of the connection has paid for a frame, it pays no more while the frame waits for
-- the bucket of all, however long that takes.
pub tool_loop_pays_once :
    (fuel : ℕ) (clock : ℕ → ℕ) (i deadline key cost : ℕ) (w r : Waiting)
    → w.per_conn_paid ≡ true
    → tool_loop fuel clock i deadline key cost w ≡ some r
    → r.own ≡ w.own
unfolding tool_loop
tool_loop_pays_once zero clock i deadline key cost w r paid e = absurd (ground (arith, e))
tool_loop_pays_once (suc fuel) clock i deadline key cost w r paid e =
    let w' = tool_round (clock i) key cost w in
    let (same, still) = round_keeps (clock i) key cost w paid in
    let step = tool_loop_step fuel clock i deadline key cost w in
    elim (Bool-cases w'.accepted) [
      | inl done ↦ own_of w' w r same (sym (step.0 done) ∙ e)
      | inr more ↦ elim (Bool-cases (ltb (clock i) deadline)) [
        | inr past ↦ own_of w' w r same (sym (step.1 more past) ∙ e)
        | inl early ↦
            tool_loop_pays_once fuel clock (i + 1) deadline key cost w' r still
              (sym (step.2 more early) ∙ e)
            ∙ same
      ]
    ]
