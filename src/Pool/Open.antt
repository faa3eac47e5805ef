-- ===== src/Pool/Open.antt =====
-- One open operation while it holds the wallet slot (internal/pool/failover.go: openOp). What the
-- router, the clock, the random source and the request's context do is a `World`: at each tick of the
-- operation it answers whatever is asked then. The slot is held, so nothing else adds or resolves a
-- pending attempt meanwhile. The flag `rejectExisting` of an open only bears on the router's answer. `posts` records the opens that were sent, the newest first.
pub mod Adopt
pub mod Walk
pub mod Normal
pub mod Tests
use morpheus_uplink.Base.{
  ℕ, ◌+◌, ◌-◌, ◌*◌, Bool, true, false, ◌&&◌, ◌||◌, Option, List, Text, ltb, leb, if◌then◌else◌, not,
}
use morpheus_uplink.Pool.Slot.{second}
use morpheus_uplink.Pool.Lease.{Pool}
use morpheus_uplink.Pool.Lease.Drop.{OpenResult}
use morpheus_uplink.Pool.Candidates.{RatedBid, Memory, RatedError, Refusal}
use morpheus_uplink.Pool.Attempts.{ChainSession, Attempt, ChainWait}
use morpheus_uplink.Pool.Transient.{CallError, OpenClass, backoff_step, jittered}

abbrev pub max_bid_attempts : ℕ
max_bid_attempts = 3

abbrev pub transient_max_retries : ℕ
transient_max_retries = 4

abbrev pub transient_budget : ℕ
transient_budget = 15 * second

abbrev pub max_window_retries : ℕ
max_window_retries = 1

abbrev pub reconcile_polls : ℕ
reconcile_polls = 3

abbrev pub reconcile_gap : ℕ
reconcile_gap = 2 * second

abbrev pub read_call_timeout : ℕ
read_call_timeout = 10 * second

abbrev pub open_min_post_time : ℕ
open_min_post_time = 25 * second

abbrev pub reconcile_reserve : ℕ
reconcile_reserve = 10 * second

-- The router's answer to an open: the new session's id, the refusal that names a live session, or
-- another error.
pub data Answer : Type 0 where
  opened : Text → Answer
  existing : Text → Answer
  failed : CallError → Answer

pub record World : Type 0 where
  pub now : ℕ → ℕ  -- the pool's clock
  pub wall : ℕ → ℕ  -- time.Now
  pub ended : ℕ → Bool  -- the context has ended
  pub provided_rpc : ℕ → Bool  -- the operator set the router's RPC
  pub sleeps : ℕ → ℕ → Bool  -- a sleep of that time is not cut
  pub random : ℕ → ℕ → ℕ  -- rand.Int64N
  pub post : ℕ → Text → Answer  -- an open by this bid
  -- the rated bids, with what kind of error came and the error itself
  pub rated : ℕ → List RatedBid × Option (RatedError × CallError)
  pub healthy : ℕ → Option (List Text)  -- the healthy bids of the model
  pub list : ℕ → Option (List ChainSession)  -- the wallet's open sessions
  pub read : ℕ → Text → Option ChainSession  -- one session by its id

-- What does not change during the operation. `none` is no cap.
pub record Args : Type 0 where
  pub model : Text
  pub start : ℕ
  pub deadline : ℕ
  pub duration : ℕ
  pub cap : Option ℕ
  pub cap_invalid : Bool
  pub inputs_read : Bool
  pub supply : ℕ
  pub budget : ℕ

pub record Post : Type 0 where
  pub bid : RatedBid
  pub answer : Answer
  pub elapsed : ℕ
  pub window_ok : Bool

pub record Op : Type 0 where
  pub tick : ℕ
  pub retries : ℕ
  pub window_retries : ℕ
  pub fresh : ℕ
  pub pending : List Attempt
  pub pool : Pool
  pub known_dup : List Text
  pub memory : Memory
  pub posts : List Post

-- How an open operation ends: with a session, with the context's error, or with a refusal.
pub data Outcome : Type 0 where
  got : OpenResult → Outcome
  ctx_error : Outcome
  transient : ℕ → Outcome
  chain_wait : ChainWait → Outcome
  wallet_needs_funds : Outcome
  no_alternate : Outcome
  walk_exhausted : ℕ → Outcome
  stake_limit_invalid : Outcome
  stake_inputs_unreadable : Outcome
  stake_limit_exceeded : Option ℕ → Outcome
  refused : Refusal → Outcome
  no_available : ℕ → Outcome
  out_of_fuel : Outcome

abbrev pub tick_on : Op → Op
tick_on op = record op { tick = op.tick + 1 }

-- The hold time left, 0 when it is over.
abbrev pub remaining : World → Args → Op → ℕ
remaining w a op = a.deadline - w.now op.tick

-- Whether the retry may be waited for.
may_retry : World → Args → Op → ℕ → Bool
may_retry w a op d = not (
    leb transient_max_retries op.retries
    || ltb transient_budget (w.now op.tick - a.start + d)
    || ltb a.deadline (w.now op.tick + d)
    || w.ended op.tick)

-- The step, and whether it was waited for.
unfoldable pub backoff : World → Args → Op → Op × ℕ × Bool
unfolding may_retry
backoff w a op =
    let d : ℕ = backoff_step op.retries in
    if not (w.provided_rpc op.tick)
    then (tick_on op, d, false)
    else if may_retry w a op d && w.sleeps op.tick (jittered d (w.random op.tick))
    then (record op { tick = op.tick + 1; retries = op.retries + 1 }, d, true)
    else (tick_on op, d, false)
