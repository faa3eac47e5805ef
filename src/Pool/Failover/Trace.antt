-- ===== src/Pool/Failover/Trace.antt =====
-- How a failover ends, and the steps that it takes under the wallet slot (internal/pool/failover.go:
-- failoverOpen, finishFailoverOpen).
use morpheus_uplink.Base.{
  ℕ, ◌≡◌, ◌≢◌, refl, ◌∙◌, ◌⊎◌, inl, inr, false, Option, none, some, [], ◌∷◌, Text, arith,
  Bool-cases, is_some, lookup,
}
use morpheus_uplink.Pool.Slot.{WalletSlot, SlotToken}
use morpheus_uplink.Pool.Lease.{norm_model}
use morpheus_uplink.Pool.Lease.Drop.{in_flight}
use morpheus_uplink.Pool.Candidates.{norm_prov}
use morpheus_uplink.Pool.Open.{Args, Op, Outcome, got, out_of_fuel, max_bid_attempts}
use morpheus_uplink.Pool.Open.Walk.Trace.{Ended, EndedOut}
use morpheus_uplink.Pool.Open.Walk.Bids.{AllPosts}
use morpheus_uplink.Pool.Failover.{
  Env, System, FailoverOpts, FailoverResult, FailoverError, ctx_ended, open_busy, no_alternate,
  open_failed, Answer, with_op, op_args, new_open_op, with_slot, failover_open,
  finish_failover_open, reopen_with,
}

-- The arguments of an operation are those of the settings.
pub record OfEnv (env : Env) (d : ℕ) (a : Args) : Type 0 where
  pub cap : a.cap ≡ env.cap
  pub duration : a.duration ≡ d
  pub supply : a.supply ≡ env.supply
  pub budget : a.budget ≡ env.budget

-- How a step under the wallet slot ends: refused without a change but of the clock, or run.
abbrev Slotted :
    {R : Type 0} → Env → ℕ → (Args → Op → Op × R) → Op → Op × (FailoverError ⊎ R) → Type 0
Slotted env d f op r =
    ((r.0.posts ≡ op.posts)
      × (r.0.pool ≡ op.pool)
      × ((r.1 ≡ inl ctx_ended) ⊎ (r.1 ≡ inl open_busy)))
    ⊎ ((a : Args) × OfEnv env d a × (let x = f a (new_open_op op) in r ≡ (x.0, inr x.1)))

with_slot-Slotted :
    {R : Type 0} (g : Option (WalletSlot × SlotToken)) (env : Env) (model : Text) (d : ℕ)
    (f : Args → Op → Op × R) (op : Op)
    → Slotted env d f op (with_slot g env model d f op)
unfolding with_slot
with_slot-Slotted none env model d f op = elim (Bool-cases (env.world.ended op.tick)) [
  | inl over ↦ inl (refl, refl, rw over (inl refl))
  | inr live ↦ inl (refl, refl, rw live (inr refl))
]
with_slot-Slotted (some (slot, tok)) env model d f op = inr (
  op_args env (env.world.now op.tick) tok model d,
  record { cap = refl; duration = refl; supply = refl; budget = refl },
  refl,
)

pub failover_open-Slotted :
    {R : Type 0} (env : Env) (key_id model : Text) (d : ℕ) (f : Args → Op → Op × R) (op : Op)
    → Slotted env d f op (failover_open env key_id model d f op)
unfolding failover_open
failover_open-Slotted env key_id model d f op =
    with_slot-Slotted (env.grant op.tick key_id) env model d f op

-- At most the failed session is closed, and only when it had not failed over before and no request
-- was in flight on it.
abbrev pub Closes : System → Text → System → Type 0
Closes s id q =
    (q.closes ≡ s.closes)
    ⊎ ((q.closes ≡ id ∷ s.closes)
        × (is_some (lookup id s.op.pool.retired) ≡ false)
        × (in_flight s.op.pool id ≡ 0))

abbrev pub Avoids : FailoverResult → Op → Type 0
Avoids res op =
    norm_prov res.failed_provider ≢ []
    → AllPosts (λ b. norm_prov b.provider ≢ norm_prov res.failed_provider) op

pub record Done (env : Env) (d : ℕ) (id : Text) (s : System) (r : Answer) : Type 0 where
  pub kept :
      r.2 ≡ some no_alternate
      → (r.0.op.pool ≡ s.op.pool) × (r.0.closes ≡ s.closes) × (r.0.op.posts ≡ [])
  pub closed : Closes s id r.0
  pub ended : (a : Args) × OfEnv env d a × Ended a max_bid_attempts r.0.op
  pub fuel : r.2 ≢ some (open_failed out_of_fuel)
  pub avoids : Avoids r.1 r.0.op

clean-Ended : (a : Args) (op : Op) → op.posts ≡ [] → Ended a max_bid_attempts op
clean-Ended a op clean = record {
  older_unsent = rw clean tt;
  counted = rw clean (omega arith);
  allowed = rw clean tt;
}

clean-Avoids : (res : FailoverResult) (op : Op) → op.posts ≡ [] → Avoids res op
clean-Avoids res op clean named = rw clean tt

settings : Env → ℕ → Args
settings env d = record {
  model = [];
  start = 0;
  deadline = 0;
  duration = d;
  cap = env.cap;
  cap_invalid = env.cap_invalid;
  inputs_read = env.inputs_read;
  supply = env.supply;
  budget = env.budget;
}

pub unsent-Ended :
    (env : Env) (d : ℕ) (op : Op)
    → op.posts ≡ []
    → (a : Args) × OfEnv env d a × Ended a max_bid_attempts op
unfolding settings
unsent-Ended env d op clean = (
  settings env d,
  record { cap = refl; duration = refl; supply = refl; budget = refl },
  clean-Ended (settings env d) op clean,
)

-- A failover that ends without an open and without ErrNoAlternate.
pub no_open-Done :
    (env : Env) (d : ℕ) (id : Text) (s q : System) (res : FailoverResult) (e : Option FailoverError)
    → e ≢ some no_alternate
    → e ≢ some (open_failed out_of_fuel)
    → Closes s id q
    → q.op.posts ≡ []
    → Done env d id s (q, res, e)
no_open-Done env d id s q res e alternate ends c clean = record {
  kept = λ h. absurd (alternate h);
  closed = c;
  ended = unsent-Ended env d q.op clean;
  fuel = ends;
  avoids = clean-Avoids res q.op clean;
}

-- ErrNoAlternate, with the pool as it was.
pub no_alternate-Done :
    (env : Env) (d : ℕ) (id : Text) (s q : System) (res : FailoverResult)
    → q.op.pool ≡ s.op.pool
    → q.closes ≡ s.closes
    → q.op.posts ≡ []
    → Done env d id s (q, res, some no_alternate)
no_alternate-Done env d id s q res e c clean = record {
  kept = λ h. (e, c, clean);
  closed = inl c;
  ended = unsent-Ended env d q.op clean;
  fuel = λ h. cc;
  avoids = clean-Avoids res q.op clean;
}

open_failed-injective :
    {o : Outcome}
    → ◌≡◌ {A = Option FailoverError} (some (open_failed o)) (some (open_failed out_of_fuel))
    → o ≡ out_of_fuel
open_failed-injective e = ground (arith, e)

finish-Done :
    (o : Outcome) (env : Env) (key key_id : Text) (d : ℕ) (res : FailoverResult) (id : Text)
    (s q : System)
    → Closes s id q
    → ((a : Args) × OfEnv env d a × EndedOut a max_bid_attempts (q.op, o))
    → Avoids res q.op
    → Done env d id s (finish_failover_open (inr o) env key key_id d res q)
unfolding finish_failover_open
finish-Done (got g) env key key_id d res id s q c (a, of, (e, f)) v = record {
  kept = λ h. absurd (cc h);
  closed = c;
  ended =
      (a, of, record { older_unsent = e.older_unsent; counted = e.counted; allowed = e.allowed });
  fuel = λ h. cc;
  avoids = v;
}
finish-Done o env key key_id d res id s q c (a, of, (e, f)) v = record {
  kept = λ h. absurd (cc h);
  closed = c;
  ended = (a, of, e);
  fuel = λ h. f (open_failed-injective h);
  avoids = v;
}

pub reopen_with-Done :
    (env : Env) (o : FailoverOpts) (model : Text) (d : ℕ) (f : Args → Op → Op × Outcome)
    (res : FailoverResult) (id : Text) (s q : System)
    → Closes s id q
    → q.op.posts ≡ []
    → ((a : Args) (op : Op) → op.posts ≡ [] → op.retries ≡ 0 → EndedOut a max_bid_attempts (f a op))
    → ((a : Args) (op : Op) → op.posts ≡ [] → Avoids res (f a op).0)
    → Done env d id s (reopen_with env o model d f res q)
unfolding reopen_with
reopen_with-Done env o model d f res id s q c clean ends avoids =
    elim (failover_open-Slotted env o.key_id model d f q.op) [
      | inl (posts, pool, inl e) ↦ rw e (
          unfold finish_failover_open in
          no_open-Done env d id s (with_op q (failover_open env o.key_id model d f q.op).0) res
            (some ctx_ended) (λ h. cc) (λ h. cc) c (posts ∙ clean))
      | inl (posts, pool, inr e) ↦ rw e (
          unfold finish_failover_open in
          no_open-Done env d id s (with_op q (failover_open env o.key_id model d f q.op).0) res
            (some open_busy) (λ h. cc) (λ h. cc) c (posts ∙ clean))
      | inr (a, of, e) ↦ rw e (
          finish-Done (f a (new_open_op q.op)).1 env (norm_model model) o.key_id d res id s
            (with_op q (f a (new_open_op q.op)).0) c (a, of, ends a (new_open_op q.op) clean refl)
            (avoids a (new_open_op q.op) clean))
    ]
