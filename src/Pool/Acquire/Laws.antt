-- ===== src/Pool/Acquire/Laws.antt =====
-- What a request for a session gets (internal/pool/lease.go: AcquireCtx).
use mathlib.Core.Option.{some-injective}
use morpheus_uplink.Base.{
  ℕ, ◌+◌, ◌<◌, ◌≡◌, ◌≢◌, refl, ◌∙◌, ◌⊎◌, inl, inr, false, ◌&&◌, not, Option, none, some, List, [],
  Text, arith, Bool-cases, lookup,
}
use morpheus_uplink.Pool.Slot.{WalletSlot, SlotToken}
use morpheus_uplink.Pool.Lease.{Pool, Entry, SessState, norm_model, try_pooled_locked}
use morpheus_uplink.Pool.Lease.Drop.{in_flight, OpenResult}
use morpheus_uplink.Pool.Lease.Grants.{
  in_flight-lease_locked, try_pooled_locked-in_flight, Leasable, try_pooled_locked-leases,
}
use morpheus_uplink.Pool.Attempts.{ChainSession}
use morpheus_uplink.Pool.Open.{Args, Op, Outcome, got, out_of_fuel, max_bid_attempts, tick_on}
use morpheus_uplink.Pool.Open.Walk.Trace.{Ended, EndedOut}
use morpheus_uplink.Pool.Open.Normal.{open_avoiding_cooling}
use morpheus_uplink.Pool.Open.Normal.Laws.{open_avoiding_cooling-EndedOut}
use morpheus_uplink.Pool.Failover.{
  Env, System, with_op, with_pool, op_args, new_open_op, with_wallet,
}
use morpheus_uplink.Pool.Failover.Trace.{OfEnv, unsent-Ended}
use morpheus_uplink.Pool.Acquire.{
  AcquireEnv, AcquireOpts, AcquireResult, AcquireError, ctx_ended, open_busy, session_state_unknown,
  open_failed, Acquisition, scan_adopt_only, pooled_result, dur, open_dur, reused_or, try_pooled,
  leased_opened, pool_outcome, open_session, scanned, with_grant, at_slot, at_gate, acquire,
}

-- The lease that is handed out is on the session that the result names, and counts as in flight.
abbrev pub Holds : Pool → AcquireError ⊎ (Text × AcquireResult) → Type 0
Holds p (inl e) = Unit
Holds p (inr (id, res)) = (res.session_id ≡ id) × (0 < in_flight p id)

record Acquired (env : Env) (d : ℕ) (r : Acquisition) : Type 0 where
  holds : Holds r.0.op.pool r.1
  ended : (a : Args) × OfEnv env d a × Ended a max_bid_attempts r.0.op
  fuel : r.1 ≢ inl (open_failed out_of_fuel)

refused-Acquired :
    (env : Env) (d : ℕ) (s : System) (e : AcquireError)
    → e ≢ open_failed out_of_fuel
    → s.op.posts ≡ []
    → Acquired env d (s, inl e)
refused-Acquired env d s e ends clean = record {
  holds = tt;
  ended = unsent-Ended env d s.op clean;
  fuel = λ h. ends (ground (arith, h));
}

module _ (env : AcquireEnv) (o : AcquireOpts) (model : Text) where
  Got : Acquisition → Type 0
  Got = Acquired env.base (open_dur env o model)

  reused_or-Acquired :
      (r : Pool × Option Text) (next : System → Acquisition) (s : System)
      → ((id : Text) → r.1 ≡ some id → 0 < in_flight r.0 id)
      → s.op.posts ≡ []
      → ((t : System) → t.op.posts ≡ [] → Got (next t))
      → Got (reused_or env o model r next s)
  unfolding reused_or Got
  reused_or-Acquired (p, some id) next s held clean on = record {
    holds = (refl, held id refl);
    ended = unsent-Ended env.base (open_dur env o model) (with_pool s p).op clean;
    fuel = λ h. cc;
  }
  reused_or-Acquired (p, none) next s held clean on = on (with_pool s p) clean

  try_pooled-Acquired :
      (next : System → Acquisition) (s : System)
      → s.op.posts ≡ []
      → ((t : System) → t.op.posts ≡ [] → Got (next t))
      → Got (try_pooled env o model next s)
  unfolding try_pooled
  try_pooled-Acquired next s clean on =
      let now : ℕ = env.base.world.now s.op.tick in
      reused_or-Acquired (try_pooled_locked s.op.pool now (norm_model model) o.key_id) next
        (with_op s (tick_on s.op))
        (λ id h. try_pooled_locked-in_flight s.op.pool now (norm_model model) o.key_id id h) clean
        on

  pooled_result-id : (g : OpenResult) (d e : ℕ) → (pooled_result g d e).session_id ≡ g.id
  unfolding pooled_result
  pooled_result-id g d e = ground arith

  leased_opened-Acquired :
      (p : Pool × SessState) (now : ℕ) (g : OpenResult) (s : System) (a : Args)
      → OfEnv env.base (open_dur env o model) a
      → Ended a max_bid_attempts s.op
      → Got (leased_opened env o model p now g s)
  unfolding leased_opened Got
  leased_opened-Acquired (p, st) now g s a of e = record {
    holds = (
      pooled_result-id g (dur env o model) (open_dur env o model),
      rw (in_flight-lease_locked p now g.id o.key_id st) (omega arith),
    );
    ended =
        (a, of, record { older_unsent = e.older_unsent; counted = e.counted; allowed = e.allowed });
    fuel = λ h. cc;
  }

  pool_outcome-Acquired :
      (op : Op) (out : Outcome) (s : System) (a : Args)
      → OfEnv env.base (open_dur env o model) a
      → EndedOut a max_bid_attempts (op, out)
      → Got (pool_outcome env o model (op, out) s)
  unfolding pool_outcome Got
  pool_outcome-Acquired op (got g) s a of (e, f) =
      leased_opened-Acquired _ (env.base.world.now op.tick) g (with_op s op) a of e
  pool_outcome-Acquired op out s a of (e, f) = record {
    holds = tt;
    ended = (a, of, e);
    fuel = λ h. f (ground (arith, h));
  }

  open_session-Acquired :
      (tok : SlotToken) (s : System) → s.op.posts ≡ [] → Got (open_session env o model tok s)
  unfolding open_session
  open_session-Acquired tok s clean =
      let a : Args =
        op_args env.base (env.base.world.now s.op.tick) tok model (open_dur env o model) in
      let r = open_avoiding_cooling env.base.world a (new_open_op s.op) in
      pool_outcome-Acquired r.0 r.1 s a
        (record { cap = refl; duration = refl; supply = refl; budget = refl })
        (open_avoiding_cooling-EndedOut env.base.world a (new_open_op s.op) clean refl)

  scan_adopt_only-posts :
      (listed : List ChainSession) (start now : ℕ) (s : System)
      → (scan_adopt_only listed start now s).op.posts ≡ s.op.posts
  unfolding scan_adopt_only with_wallet
  scan_adopt_only-posts listed start now s = refl

  scanned-Acquired :
      (l : Option (List ChainSession)) (tok : SlotToken) (s : System)
      → s.op.posts ≡ []
      → Got (scanned env o model l tok s)
  unfolding scanned Got
  scanned-Acquired none tok s clean = elim (Bool-cases (env.base.world.ended s.op.tick)) [
    | inl over ↦ rw over (refused-Acquired env.base _ s ctx_ended (λ e. cc) clean)
    | inr live ↦ rw live (elim (Bool-cases (env.gated && not env.state_known)) [
      | inl unknown ↦
          rw unknown (refused-Acquired env.base _ s session_state_unknown (λ e. cc) clean)
      | inr known ↦
          rw known
            (try_pooled-Acquired (open_session env o model tok) s clean (open_session-Acquired tok))
    ])
  ]
  scanned-Acquired (some listed) tok s clean =
      try_pooled-Acquired (open_session env o model tok) _
        (scan_adopt_only-posts listed (env.base.world.now s.op.tick)
            (env.base.world.now (s.op.tick + 1)) (with_op s (tick_on s.op))
          ∙ clean)
        (open_session-Acquired tok)

  with_grant-Acquired :
      (g : Option (WalletSlot × SlotToken)) (s : System)
      → s.op.posts ≡ []
      → Got (with_grant env o model g s)
  unfolding with_grant Got
  with_grant-Acquired none s clean = elim (Bool-cases (env.slot_busy s.op.tick)) [
    | inl busy ↦ rw busy (refused-Acquired env.base _ s open_busy (λ e. cc) clean)
    | inr over ↦ rw over (refused-Acquired env.base _ s ctx_ended (λ e. cc) clean)
  ]
  with_grant-Acquired (some (slot, tok)) s clean =
      try_pooled-Acquired (λ t. scanned env o model (env.base.world.list t.op.tick) tok t) s clean
        (λ t h. scanned-Acquired (env.base.world.list t.op.tick) tok t h)

  at_gate-Acquired : (s : System) → s.op.posts ≡ [] → Got (at_gate env o model s)
  unfolding at_gate at_slot Got
  at_gate-Acquired s clean = elim (Bool-cases (env.gate_cut s.op.tick)) [
    | inl cut ↦ rw cut (refused-Acquired env.base _ s ctx_ended (λ e. cc) clean)
    | inr passed ↦ rw passed (
        try_pooled-Acquired (at_slot env o model) s clean
          (λ t h. with_grant-Acquired (env.base.grant t.op.tick o.key_id) t h))
  ]

  acquire-Acquired : (s : System) → s.op.posts ≡ [] → Got (acquire env o model s)
  unfolding acquire
  acquire-Acquired s clean = try_pooled-Acquired (at_gate env o model) s clean at_gate-Acquired

  -- A request that succeeds holds a lease on the session that its result names: the session is known to
  -- the pool, with at least one request in flight on it.
  pub acquire-Holds :
      (s : System)
      → s.op.posts ≡ []
      → Holds (acquire env o model s).0.op.pool (acquire env o model s).1
  unfolding Got
  acquire-Holds s clean = (acquire-Acquired s clean).holds

  -- Whatever the router, the slot, the clock and the context do, a request ends within the fuel of its
  -- loops, and what it opened are the opens of one walk under the settings' cap: each but the last failed as the
  -- provider's fault or with a proof that nothing was sent, there are at most seven, and none goes to a
  -- bid whose stake is above the cap or unknown while the cap is on.
  pub acquire-Ended :
      (s : System)
      → s.op.posts ≡ []
      → ((acquire env o model s).1 ≢ inl (open_failed out_of_fuel))
        × ((a : Args) × OfEnv env.base (open_dur env o model) a
            × Ended a max_bid_attempts (acquire env o model s).0.op)
  unfolding Got
  acquire-Ended s clean = let h = acquire-Acquired s clean in (h.fuel, h.ended)

  reused_or-some :
      (r : Pool × Option Text) (next : System → Acquisition) (s : System) (id : Text)
      → r.1 ≡ some id
      → reused_or env o model r next s ≡ (
        with_pool s r.0,
        inr (id, record { session_id = id; opened = false; duration_sec = dur env o model }),
      )
  unfolding reused_or
  reused_or-some (p, some j) next s id h = rw (some-injective j id h) refl
  reused_or-some (p, none) next s id h = absurd (ground (arith, h))

  -- A pooled session that is unexpired, unmarked and neither retired nor closing is always handed out,
  -- whatever the router, the slot and the context do, and nothing is opened.
  pub acquire_reuses :
      (s : System) (e : Entry)
      → lookup (norm_model model) s.op.pool.entries ≡ some e
      → Leasable s.op.pool (env.base.world.now s.op.tick) e
      → ((acquire env o model s).1
          ≡ inr (
            e.session_id,
            record { session_id = e.session_id; opened = false; duration_sec = dur env o model },
          ))
        × ((acquire env o model s).0.op.posts ≡ s.op.posts)
  unfolding acquire try_pooled
  acquire_reuses s e there ok =
      let h =
        try_pooled_locked-leases s.op.pool (env.base.world.now s.op.tick) (norm_model model)
          o.key_id e there ok in
      let r =
        reused_or-some
          (try_pooled_locked s.op.pool (env.base.world.now s.op.tick) (norm_model model) o.key_id)
          (at_gate env o model) (with_op s (tick_on s.op)) e.session_id h in
      rw r (refl, refl)
