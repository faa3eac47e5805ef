-- ===== src/Pool/Failover.antt =====
-- A failover (internal/pool/failover.go: FailoverCtx, failoverOpen, finishFailoverOpen, closeBounded,
-- sessionProvider). It runs under the model's open lock, and the model has it run alone: what other
-- requests do between its critical sections is left out, and so is the wait at the boot gate. As in an open
-- operation the world answers at each tick; `Env` adds the wallet slot, the router's answers to closes and
-- the settings. A duration of 0 stands for one that is not above zero.
pub mod Trace
mod Laws
pub mod Tests
use morpheus_uplink.Base.{
  ℕ, ◌+◌, ◌*◌, Bool, true, false, ◌&&◌, ◌||◌, Option, none, some, List, [], ◌∷◌, Text, same, ltb,
  ◌==◌, if◌then◌else◌, is_some, not, lookup, Map, ◌⊎◌, inl, inr,
}
use morpheus_uplink.Pool.Slot.{WalletSlot, SlotToken, holds, second}
use morpheus_uplink.Pool.Lease.{
  Pool, Entry, norm_model, state_locked, lease_locked, lease_if_open, retire, expiry_buffer,
}
use morpheus_uplink.Pool.Lease.Drop.{
  OpenResult, pool_opened_locked, retire_for_failover, failover_close_failed,
}
use morpheus_uplink.Pool.Candidates.{RatedBid, mark_cooling, mark_stream_cut}
use morpheus_uplink.Pool.Attempts.{ChainSession}
use morpheus_uplink.Pool.Transient.{CallError}
use morpheus_uplink.Pool.Scan.{Wallet}
use morpheus_uplink.Pool.Scan.Close.{
  CloseOutcome, close_ok, close_already, close_failed, close_cut, Reread, close_with_token,
}
use morpheus_uplink.Pool.Open.{World, Args, Op, Outcome, got, out_of_fuel, tick_on}
use morpheus_uplink.Pool.Open.Walk.{open_excluding, rounds}
use morpheus_uplink.Pool.Open.Normal.{ReadEnd, walkable, stop, candidates, open_avoiding_cooling}

pub record Env : Type 0 where
  pub world : World
  pub grant : ℕ → Text → Option (WalletSlot × SlotToken)  -- `none` is an error of `slot.acquire`
  pub close : ℕ → Text → Option CallError  -- CloseSessionCtx
  pub reread : ℕ → Text → Option Reread  -- GetSessionCtx after a close that failed
  pub duration : ℕ
  pub max_duration : ℕ  -- `durMax`
  pub cap : Option ℕ
  pub cap_invalid : Bool
  pub inputs_read : Bool
  pub supply : ℕ
  pub budget : ℕ

-- The rest of the pool beside what an open operation uses; `closes` records the closes sent with the
-- slot held, the newest first.
pub record System : Type 0 where
  pub op : Op
  pub close_due_at : Map ℕ
  pub foreign_at : List ℕ
  pub started : ℕ
  pub closes : List Text

pub record FailoverOpts : Type 0 where
  pub key_id : Text
  pub duration_sec : ℕ
  pub reopen : Bool

pub record FailoverResult : Type 0 where
  pub session_id : Text
  pub opened : Bool
  pub replaced : Bool
  pub failed_provider : Text
  pub provider : Text
  pub close_failed : Bool
  pub close_deferred : Bool
  pub duration_sec : ℕ
  pub lease : Option Text

pub data FailoverError : Type 0 where
  ctx_ended open_busy no_alternate : FailoverError
  open_failed : Outcome → FailoverError

abbrev pub Answer : Type 0
Answer = System × FailoverResult × Option FailoverError

abbrev pub with_op : System → Op → System
with_op s op = record s { op = op }

abbrev pub with_pool : System → Pool → System
with_pool s p = record s { op = record s.op { pool = p } }

unfoldable pub duration_max : ℕ → ℕ
duration_max dur_max = if dur_max == 0 then 1800 else dur_max

pub duration_for : Env → ℕ → ℕ
unfolding duration_max
duration_for env asked =
    let d : ℕ = if asked == 0 then env.duration else asked in
    let mx : ℕ = duration_max env.max_duration in if ltb 0 mx && ltb mx d then mx else d

-- `newOpenOp`, with what the operation reads of the settings.
abbrev pub op_args : Env → ℕ → SlotToken → Text → ℕ → Args
op_args env start tok model duration_sec = record {
  model = model;
  start = start;
  deadline = tok.deadline;
  duration = duration_sec;
  cap = env.cap;
  cap_invalid = env.cap_invalid;
  inputs_read = env.inputs_read;
  supply = env.supply;
  budget = env.budget;
}

abbrev pub new_open_op : Op → Op
new_open_op op = record op { tick = op.tick + 1; retries = 0; window_retries = 0 }

module _ {R : Type 0} where
  with_slot :
      Option (WalletSlot × SlotToken)
      → Env
      → Text
      → ℕ
      → (Args → Op → Op × R)
      → Op
      → Op × (FailoverError ⊎ R)
  with_slot none env model d f op =
      (tick_on op, inl (if env.world.ended op.tick then ctx_ended else open_busy))
  with_slot (some (slot, tok)) env model d f op =
      let (q, r) = f (op_args env (env.world.now op.tick) tok model d) (new_open_op op) in
      (q, inr r)

  pub failover_open : Env → Text → Text → ℕ → (Args → Op → Op × R) → Op → Op × (FailoverError ⊎ R)
  unfolding with_slot
  failover_open env key_id model d f op = with_slot (env.grant op.tick key_id) env model d f op

pub read_provider : Option ChainSession → Text × ℕ
read_provider none = ([], 0)
read_provider (some s) = (s.provider, s.ends_at * second)

router_provider : Env → Text → Op → Op × Text × ℕ
unfolding read_provider
router_provider env id op =
    let (prov, end) = read_provider (env.world.read op.tick id) in (tick_on op, prov, end)

entry_provider : Option Entry → Env → Text → Op → Op × Text × ℕ
unfolding router_provider
entry_provider none env id op = router_provider env id op
entry_provider (some e) env id op =
    if same e.session_id id && not (same e.provider [])
    then (op, e.provider, e.expires_at + expiry_buffer)
    else router_provider env id op

-- The provider, empty when unknown, and the session's end, 0 when unknown.
pub session_provider : Env → Text → Text → Op → Op × Text × ℕ
unfolding entry_provider
session_provider env model id op =
    entry_provider (lookup (norm_model model) op.pool.entries) env id op

-- Pools the replacement and leases it, when the open worked.
pub finish_failover_open :
    FailoverError ⊎ Outcome → Env → Text → Text → ℕ → FailoverResult → System → Answer
finish_failover_open (inl e) env key key_id d res s = (s, res, some e)
finish_failover_open (inr (got g)) env key key_id d res s =
    let now : ℕ = env.world.now s.op.tick in
    let (p, st) = pool_opened_locked s.op.pool now key g d key_id in
    (
      with_pool s (lease_locked p now g.id st key_id),
      record res { lease = some g.id; session_id = g.id; provider = g.provider; opened = true },
      none,
    )
finish_failover_open (inr o) env key key_id d res s = (s, res, some (open_failed o))

-- `open_avoiding_cooling` or `open_excluding`, whose session is pooled.
pub reopen_with :
    Env → FailoverOpts → Text → ℕ → (Args → Op → Op × Outcome) → FailoverResult → System → Answer
unfolding failover_open finish_failover_open
reopen_with env o model d f res s =
    let (op, r) = failover_open env o.key_id model d f s.op in
    finish_failover_open r env (norm_model model) o.key_id d res (with_op s op)

unfoldable pub wallet_of : System → Wallet
wallet_of s = record {
  pool = s.op.pool;
  pending = s.op.pending;
  known_dup = s.op.known_dup;
  close_due_at = s.close_due_at;
  foreign_at = s.foreign_at;
  started = s.started;
}

unfoldable pub with_wallet : System → Wallet → System
with_wallet s w = record s {
  op = record (s.op) { pool = w.pool; pending = w.pending; known_dup = w.known_dup };
  close_due_at = w.close_due_at;
  foreign_at = w.foreign_at;
  started = w.started;
}

pub landed : CloseOutcome → Bool
landed close_ok = true
landed close_already = true
landed close_failed = false
landed close_cut = false

close_granted : Option (WalletSlot × SlotToken) → Env → Text → System → System × Bool
unfolding landed wallet_of with_wallet
close_granted none env id s = (s, false)
close_granted (some (slot, tok)) env id s =
    let t : ℕ = s.op.tick in
    let (w, out) =
      close_with_token slot (some tok) id (env.close t id) (env.reread t id) (env.world.now t)
        (wallet_of s) in
    (
      record (with_wallet s w) {
        closes = if holds slot (some tok) then id ∷ s.closes else s.closes;
      },
      landed out,
    )

-- The answer says whether the close landed.
pub close_bounded : Env → Text → System → System × Bool
unfolding close_granted
close_bounded env id s = close_granted (env.grant s.op.tick []) env id (with_op s (tick_on s.op))

-- A session that is still in flight closes when its last lease ends.
close_failed_session : Pool × Bool → Env → Text → FailoverResult → System → System × FailoverResult
unfolding close_bounded
close_failed_session (p, false) env id res s = (with_pool s p, record res { close_deferred = true })
close_failed_session (p, true) env id res s =
    let (q, ok) = close_bounded env id (with_pool s p) in
    if ok
    then (q, res)
    else (with_pool q (failover_close_failed q.op.pool id), record res { close_failed = true })

-- Retires the failed session, and closes it.
pub drop_failed : Env → Text → Text → ℕ → FailoverResult → System → System × FailoverResult
unfolding close_failed_session
drop_failed env key id ends_at res s =
    let t : ℕ = s.op.tick in
    let p : Pool = retire s.op.pool (env.world.wall t) env.duration id ends_at in
    close_failed_session (retire_for_failover p (env.world.now t) key id) env id res s

-- With the candidates in hand: steps 4 to 6.
swap :
    List RatedBid
    → Env
    → FailoverOpts
    → Text
    → Text
    → Text
    → ℕ
    → ℕ
    → FailoverResult
    → System
    → Answer
unfolding drop_failed reopen_with
swap cands env o model id prov ends_at d res s =
    let (s1, res1) = drop_failed env (norm_model model) id ends_at res s in
    if not o.reopen
    then (
      with_op s1 (record (s1.op) { memory = mark_stream_cut s1.op.memory model prov }),
      res1,
      none,
    )
    else reopen_with env o model d (λ a. open_excluding env.world a cands) res1 s1

-- Every end of the read but one that found candidates is ErrNoAlternate; that the model's read runs out
-- of fuel is told apart.
no_read : FailoverError ⊎ ReadEnd → FailoverError
no_read (inr (stop out_of_fuel)) = open_failed out_of_fuel
no_read r = no_alternate

-- The guardrail: nothing is closed unless the read of the candidates found some.
guarded :
    FailoverError ⊎ ReadEnd
    → Env
    → FailoverOpts
    → Text
    → Text
    → Text
    → ℕ
    → ℕ
    → FailoverResult
    → System
    → Answer
unfolding swap no_read
guarded (inr (walkable (b ∷ bs) pool)) env o model id prov ends_at d res s =
    swap (b ∷ bs) env o model id prov ends_at d res s
guarded r env o model id prov ends_at d res s = (s, res, some (no_read r))

move_on : Env → FailoverOpts → Text → Text → Text → ℕ → ℕ → FailoverResult → System → Answer
unfolding guarded failover_open
move_on env o model id prov ends_at d res s =
    let op1 : Op = record (s.op) {
      memory = mark_cooling s.op.memory (env.world.wall s.op.tick) model prov;
    } in
    let (op2, r) =
      failover_open env o.key_id model d (λ a. candidates rounds env.world a prov) op1 in
    guarded r env o model id prov ends_at d res (with_op s op2)

by_provider :
    Op × Text × ℕ → Env → FailoverOpts → Text → Text → ℕ → FailoverResult → System → Answer
unfolding move_on
by_provider (op, prov, ends_at) env o model id d res s =
    let named : FailoverResult = record res { failed_provider = prov } in
    if same prov []
    then (with_op s op, named, some no_alternate)
    else move_on env o model id prov ends_at d named (with_op s op)

-- A session that already failed over, and whose replacement is gone, is opened for normally.
not_replaced : Env → FailoverOpts → Text → Text → ℕ → FailoverResult → System → Answer
unfolding by_provider reopen_with session_provider
not_replaced env o model id d res s =
    if is_some (lookup id s.op.pool.retired)
    then (if not o.reopen
        then (s, record res { replaced = true }, none)
        else reopen_with env o model d (open_avoiding_cooling env.world)
            (record res { replaced = true }) s)
    else by_provider (session_provider env model id s.op) env o model id d res s

leased_replacement : Pool × Option Text → Entry → FailoverResult → System → Answer
leased_replacement (p, l) cur res s = (
  with_pool s p,
  record res { session_id = cur.session_id; replaced = true; provider = cur.provider; lease = l },
  none,
)

replaced_by : Option Entry → Env → FailoverOpts → Text → Text → ℕ → FailoverResult → System → Answer
unfolding not_replaced leased_replacement
replaced_by none env o model id d res s = not_replaced env o model id d res s
replaced_by (some cur) env o model id d res s =
    let now : ℕ = env.world.now s.op.tick in
    let key : Text = norm_model model in
    if not (same cur.session_id id) && ltb now cur.expires_at
    then leased_replacement
        (if o.reopen
          then lease_if_open (state_locked s.op.pool now key cur) now cur.session_id o.key_id
          else (s.op.pool, none))
        cur res s
    else not_replaced env o model id d res s

pub no_result : ℕ → FailoverResult
no_result d = record {
  session_id = [];
  opened = false;
  replaced = false;
  failed_provider = [];
  provider = [];
  close_failed = false;
  close_deferred = false;
  duration_sec = d;
  lease = none;
}

unfoldable pub failover : Env → FailoverOpts → Text → Text → System → Answer
unfolding replaced_by no_result duration_for
failover env o model id s =
    let d : ℕ = duration_for env o.duration_sec in
    replaced_by (lookup (norm_model model) s.op.pool.entries) env o model id d (no_result d) s
