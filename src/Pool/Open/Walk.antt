-- ===== src/Pool/Open/Walk.antt =====
-- The walk over the bids of an open (internal/pool/failover.go: openExcluding; internal/pool/stake_limit.go:
-- bidStake). The reads of supply and budget are arguments. The loop on one bid has fuel; each round but
-- the last spends a retry, so five rounds are enough.
pub mod Trace
pub mod Laws
pub mod Bids
use morpheus_uplink.Base.{
  ℕ, zero, suc, ◌+◌, ◌-◌, ◌*◌, Bool, true, false, ◌&&◌, ◌||◌, Option, none, some, List, [], ◌∷◌,
  ◌++◌, Text, ltb, leb, ◌==◌, if◌then◌else◌, is_some, map, not, lower_trim,
}
use morpheus_uplink.Stake.{
  ℤ, pos, StakeResult, wei, wei_below_zero, bad_inputs, invalid_duration, stake_for_duration_wei,
}
use morpheus_uplink.Pool.Lease.Drop.{OpenResult}
use morpheus_uplink.Pool.Candidates.{RatedBid, norm_prov, is_in, mark_cooling}
use morpheus_uplink.Pool.Attempts.{
  Attempt, ChainWait, other_wait, wallet_tx_pending, chain_congested, add_attempt, resolve_attempt,
  mark_cut, mark_stuck,
}
use morpheus_uplink.Pool.Transient.{
  CallError, OpenClass, maybe_sent, provider_fault, transient_pre_send, transient_window,
  wallet_funds, classify_open_err, is_transport_err, transient_cap,
}
use morpheus_uplink.Pool.Transient.Reads.{chain_wait_reason}
use morpheus_uplink.Pool.Lease.{norm_model}
use morpheus_uplink.Pool.Open.{
  World, Args, Op, Post, Answer, opened, existing, failed, Outcome, got, ctx_error, transient,
  wallet_needs_funds, no_alternate, walk_exhausted, stake_limit_invalid, stake_inputs_unreadable,
  stake_limit_exceeded, out_of_fuel, tick_on, remaining, backoff, max_bid_attempts,
  max_window_retries, open_min_post_time, reconcile_reserve,
}
use morpheus_uplink.Pool.Open.Adopt.{reconcile, adopt_existing}

-- A stake below zero counts as 0: either is within every cap.
stake_wei : StakeResult → Option ℕ
stake_wei (wei n) = some n
stake_wei (wei_below_zero n) = some 0
stake_wei bad_inputs = none
stake_wei invalid_duration = none

-- A bid without a price, or whose stake cannot be computed, has none.
unfoldable pub bid_stake : Args → RatedBid → Option ℕ
unfolding stake_wei
bid_stake a b = stake_wei (
    stake_for_duration_wei (some (pos a.supply)) (some (pos a.budget)) b.price_per_second
      (pos a.duration))

fits : Option ℕ → ℕ → Bool
fits none cap = false
fits (some st) cap = leb st cap

within : Option ℕ → Option ℕ → Bool
unfolding fits
within none stake = true
within (some cap) stake = fits stake cap

-- Whether the cap, when it is on, lets the bid be opened.
unfoldable pub within_cap : Args → RatedBid → Bool
unfolding within bid_stake
within_cap a b = within a.cap (bid_stake a b)

-- How the rounds on one bid end: with the next bid, or with the outcome of the operation.
pub data BidEnd : Type 0 where
  next_bid : BidEnd
  stop : Outcome → BidEnd

stopped : Op × Outcome → Op × BidEnd
stopped (op, o) = (op, stop o)

retry_or : World → Op × ℕ × Bool → (Op → Op × BidEnd) → Op × BidEnd
retry_or w (op, d, true) again = again op
retry_or w (op, d, false) again =
    if w.ended op.tick then (op, stop ctx_error) else (op, stop (transient d))

stick_for : ChainWait → Attempt → Attempt
stick_for other_wait att = att
stick_for wallet_tx_pending att = record att { stuck = true }
stick_for chain_congested att = record att { stuck = true }

drop_attempt : Op → ℕ → Op
drop_attempt op ref = record op { pending = resolve_attempt op.pending ref }

-- An open that may have been sent is looked for, never sent again.
unfoldable pub maybe_sent_end : World → Args → Attempt → CallError → Op → Op × BidEnd
unfolding stopped stick_for
maybe_sent_end w a att e op =
    let cut : List Attempt =
      if is_transport_err e then mark_cut op.pending att.ref else op.pending in
    let reason : ChainWait = chain_wait_reason e in
    stopped (
      reconcile w a (stick_for reason att) reason
        (record op { pending = mark_stuck cut att.ref reason }))

-- The `switch class` of a failed open.
unfoldable pub after_class :
    OpenClass
    → World
    → Args
    → RatedBid
    → Attempt
    → CallError
    → (Op → Op × BidEnd)
    → Op
    → Op × BidEnd
unfolding drop_attempt retry_or maybe_sent_end
after_class wallet_funds w a b att e again op = (drop_attempt op att.ref, stop wallet_needs_funds)
after_class provider_fault w a b att e again op = (
  record (drop_attempt op att.ref) {
    memory = mark_cooling op.memory (w.wall op.tick) a.model b.provider;
  },
  next_bid,
)
after_class transient_pre_send w a b att e again op =
    retry_or w (backoff w a (drop_attempt op att.ref)) again
after_class transient_window w a b att e again op =
    retry_or w (backoff w a (record op { window_retries = op.window_retries + 1 })) again
after_class maybe_sent w a b att e again op = maybe_sent_end w a att e op

unfoldable pub after_answer :
    Answer → World → Args → Attempt → (Op → Op × BidEnd) → Op → Post → Op × BidEnd
unfolding after_class drop_attempt stopped
after_answer (opened id) w a att again op p = (
  drop_attempt op att.ref,
  stop (
      got (record {
        id = id;
        provider = p.bid.provider;
        stake = none;
        adopted = false;
        resumed = false;
        opened_at = 0;
        ends_at = 0;
      })),
)
after_answer (existing id) w a att again op p =
    stopped (adopt_existing w a id (drop_attempt op att.ref))
after_answer (failed e) w a att again op p =
    after_class (classify_open_err (some e) p.elapsed p.window_ok) w a p.bid att e again op

-- The attempt that is recorded before the open is sent.
abbrev pub new_attempt : World → Args → RatedBid → Op → Attempt
new_attempt w a b op = record {
  ref = op.fresh;
  model = norm_model a.model;
  bid = lower_trim b.id;
  start = w.now op.tick;
  cut = false;
  stuck = false;
}

-- The open that this round sends.
unfoldable pub this_post : World → Args → RatedBid → Op → Post
this_post w a b op = record {
  bid = b;
  answer = w.post op.tick b.id;
  elapsed = w.now (op.tick + 1) - w.now op.tick;
  window_ok = w.provided_rpc op.tick && ltb op.window_retries max_window_retries;
}

-- The operation after it was sent.
unfoldable pub sent : World → Args → RatedBid → Op → Op
unfolding this_post
sent w a b op = record op {
  tick = op.tick + 1;
  fresh = op.fresh + 1;
  pending = add_attempt op.pending op.fresh (w.now op.tick) a.model b.id;
  posts = this_post w a b op ∷ op.posts;
}

unfoldable pub round : World → Args → RatedBid → (Op → Op × BidEnd) → Op → Op × BidEnd
unfolding after_answer sent this_post
round w a b again op =
    if w.ended op.tick
    then (op, stop ctx_error)
    else if ltb (remaining w a op) (open_min_post_time + reconcile_reserve)
    then (op, stop (transient transient_cap))
    else after_answer (w.post op.tick b.id) w a (new_attempt w a b op) again (sent w a b op)
        (this_post w a b op)

unfoldable pub same_bid : ℕ → World → Args → RatedBid → Op → Op × BidEnd
unfolding round
same_bid zero w a b op = (op, stop out_of_fuel)
same_bid (suc fuel) w a b op = round w a b (same_bid fuel w a b) op

abbrev pub rounds : ℕ
rounds = 5

pub record Walk : Type 0 where
  pub op : Op
  pub tried : List Text
  pub attempts : ℕ
  pub skipped : ℕ
  pub need : Option ℕ

least_need : Option ℕ → Option ℕ → Option ℕ
least_need none need = need
least_need (some st) none = some st
least_need (some st) (some n) = if ltb st n then some st else some n

-- The end of the walk. A bid was tried exactly when one was attempted, and each attempt that the walk
-- outlives is a provider's fault.
unfoldable pub finish : Walk → Op × Outcome
finish s =
    if ltb 0 s.skipped
    then (s.op, stake_limit_exceeded s.need)
    else if s.attempts == 0
    then (s.op, no_alternate)
    else (s.op, walk_exhausted s.attempts)

bid_end : Op × BidEnd → Walk → (Walk → Op × Outcome) → Op × Outcome
bid_end (op, next_bid) s again = again (record s { op = op })
bid_end (op, stop o) s again = (op, o)

unfoldable pub walk_bid : World → Args → RatedBid → (Walk → Op × Outcome) → Walk → Op × Outcome
unfolding finish bid_end least_need
walk_bid w a b again s =
    if leb max_bid_attempts s.attempts
    then finish s
    else if is_in s.tried (norm_prov b.provider)
    then again s
    else if not (within_cap a b)
    then again (record s { skipped = s.skipped + 1; need = least_need (bid_stake a b) s.need })
    else bid_end (same_bid rounds w a b s.op)
        (record s { tried = norm_prov b.provider ∷ s.tried; attempts = s.attempts + 1 }) again

unfoldable pub walk : World → Args → List RatedBid → Walk → Op × Outcome
unfolding walk_bid finish
walk w a [] s = finish s
walk w a (b ∷ bs) s = walk_bid w a b (walk w a bs) s

unfoldable pub open_excluding : World → Args → List RatedBid → Op → Op × Outcome
unfolding walk
open_excluding w a alts op =
    if a.cap_invalid
    then (op, stake_limit_invalid)
    else if is_some a.cap && not a.inputs_read
    then (op, if w.ended op.tick then ctx_error else stake_inputs_unreadable)
    else walk w a alts (record { op = op; tried = []; attempts = 0; skipped = 0; need = none })
