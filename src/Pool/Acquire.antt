-- ===== src/Pool/Acquire.antt =====
-- How a request gets a session (internal/pool/lease.go: AcquireCtx; internal/pool/sweep.go: scan). As a
-- failover it is modelled running alone; its reads of the pool are in the order of the source, and the
-- environment is that of a failover with what only this path asks. The flag `rejectExisting` only bears
-- on the router's answer.
mod Laws
mod Tests
use morpheus_uplink.Base.{
  ℕ, ◌+◌, ◌-◌, ◌/◌, Bool, true, false, ◌&&◌, Option, none, some, List, [], ◌∷◌, Text, ltb, ◌==◌,
  if◌then◌else◌, not, ◌⊎◌, inl, inr,
}
use morpheus_uplink.Pool.Slot.{WalletSlot, SlotToken, second}
use morpheus_uplink.Pool.Lease.{Pool, SessState, norm_model, try_pooled_locked, lease_locked}
use morpheus_uplink.Pool.Lease.Drop.{OpenResult, pool_opened_locked, adopt_locked, forget}
use morpheus_uplink.Pool.Attempts.{ChainSession}
use morpheus_uplink.Pool.Scan.{closed_late}
use morpheus_uplink.Pool.Scan.Apply.{apply_scan}
use morpheus_uplink.Pool.Open.{World, Args, Op, Outcome, got, tick_on}
use morpheus_uplink.Pool.Open.Normal.{open_avoiding_cooling}
use morpheus_uplink.Pool.Failover.{
  Env, System, with_op, with_pool, duration_max, op_args, new_open_op, wallet_of, with_wallet,
}

pub record AcquireEnv : Type 0 where
  pub base : Env
  pub gate_cut : ℕ → Bool  -- the context ended before the boot gate opened
  pub slot_busy : ℕ → Bool  -- the error of `slot.acquire` is errSlotBusy
  pub gated : Bool
  pub state_known : Bool

pub record AcquireOpts : Type 0 where
  pub key_id : Text
  pub duration_sec : ℕ

pub record AcquireResult : Type 0 where
  pub session_id : Text
  pub opened : Bool
  pub duration_sec : ℕ

pub data AcquireError : Type 0 where
  ctx_ended open_busy session_state_unknown : AcquireError
  open_failed : Outcome → AcquireError

-- The lease is the id of the session that it holds.
abbrev pub Acquisition : Type 0
Acquisition = System × (AcquireError ⊎ (Text × AcquireResult))

forget_all : List Text → Pool → Pool
unfolding forget
forget_all [] p = p
forget_all (id ∷ ids) p = forget_all ids (forget p id)

-- The scan that only adopts, with the sessions whose cut close is now seen closed.
pub scan_adopt_only : List ChainSession → ℕ → ℕ → System → System
unfolding forget_all wallet_of with_wallet
scan_adopt_only listed scan_start now s =
    let late : List Text = closed_late listed now s.op.pool.closing_ids in
    let q : System =
      with_wallet s
        (apply_scan listed scan_start now false s.op.memory.exclude (wallet_of s)).wallet in
    with_pool q (forget_all late q.op.pool)

pub pooled_result : OpenResult → ℕ → ℕ → AcquireResult
pooled_result g duration_sec open_dur =
    if g.resumed
    then record { session_id = g.id; opened = false; duration_sec = duration_sec }
    else if g.adopted
    then record {
      session_id = g.id;
      opened = true;
      duration_sec = (g.ends_at - g.opened_at) / second;
    }
    else record { session_id = g.id; opened = true; duration_sec = open_dur }

module _ (env : AcquireEnv) (o : AcquireOpts) (model : Text) where
  pub dur : ℕ
  dur = if o.duration_sec == 0 then env.base.duration else o.duration_sec

  pub open_dur : ℕ
  unfolding dur
  open_dur =
      let mx : ℕ = duration_max env.base.max_duration in if ltb 0 mx && ltb mx dur then mx else dur

  pub reused_or : Pool × Option Text → (System → Acquisition) → System → Acquisition
  unfolding dur
  reused_or (p, some id) next s =
      (with_pool s p, inr (id, record { session_id = id; opened = false; duration_sec = dur }))
  reused_or (p, none) next s = next (with_pool s p)

  -- One look at the pool under `p.mu`.
  pub try_pooled : (System → Acquisition) → System → Acquisition
  unfolding reused_or
  try_pooled next s =
      reused_or
        (try_pooled_locked s.op.pool (env.base.world.now s.op.tick) (norm_model model) o.key_id)
        next (with_op s (tick_on s.op))

  pub leased_opened : Pool × SessState → ℕ → OpenResult → System → Acquisition
  unfolding pooled_result dur open_dur
  leased_opened (p, st) now g s =
      (with_pool s (lease_locked p now g.id st o.key_id), inr (g.id, pooled_result g dur open_dur))

  pub pool_outcome : Op × Outcome → System → Acquisition
  unfolding leased_opened open_dur
  pool_outcome (op, got g) s =
      let now : ℕ = env.base.world.now op.tick in
      let key : Text = norm_model model in
      leased_opened
        (if g.resumed
          then adopt_locked op.pool now key g
          else pool_opened_locked op.pool now key g open_dur o.key_id)
        now g (with_op s op)
  pool_outcome (op, out) s = (with_op s op, inl (open_failed out))

  pub open_session : SlotToken → System → Acquisition
  unfolding pool_outcome open_dur
  open_session tok s =
      let a : Args = op_args env.base (env.base.world.now s.op.tick) tok model open_dur in
      pool_outcome (open_avoiding_cooling env.base.world a (new_open_op s.op)) s

  pub scanned : Option (List ChainSession) → SlotToken → System → Acquisition
  unfolding try_pooled open_session scan_adopt_only
  scanned none tok s =
      if env.base.world.ended s.op.tick
      then (s, inl ctx_ended)
      else if env.gated && not env.state_known
      then (s, inl session_state_unknown)
      else try_pooled (open_session tok) s
  scanned (some listed) tok s =
      let w : World = env.base.world in
      let q : System =
        scan_adopt_only listed (w.now s.op.tick) (w.now (s.op.tick + 1))
          (with_op s (tick_on s.op)) in
      try_pooled (open_session tok) q

  pub with_grant : Option (WalletSlot × SlotToken) → System → Acquisition
  unfolding try_pooled scanned
  with_grant none s = if env.slot_busy s.op.tick then (s, inl open_busy) else (s, inl ctx_ended)
  with_grant (some (slot, tok)) s =
      try_pooled (λ t. scanned (env.base.world.list t.op.tick) tok t) s

  pub at_slot : System → Acquisition
  unfolding with_grant
  at_slot s = with_grant (env.base.grant s.op.tick o.key_id) s

  pub at_gate : System → Acquisition
  unfolding try_pooled at_slot
  at_gate s = if env.gate_cut s.op.tick then (s, inl ctx_ended) else try_pooled at_slot s

  unfoldable pub acquire : System → Acquisition
  unfolding try_pooled at_gate
  acquire s = try_pooled at_gate s
