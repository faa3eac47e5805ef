-- ===== src/Pool/Open/Adopt.antt =====
-- A session that an open produced without its answer (internal/pool/failover.go: reconcile, matchOpen,
-- adoptExisting, adoptable).
pub mod Quiet
pub mod Laws
use morpheus_uplink.Base.{
  ℕ, zero, suc, ◌+◌, ◌-◌, ◌*◌, ◌/◌, Bool, true, false, ◌&&◌, ◌||◌, Option, none, some, List, [],
  ◌∷◌, ◌++◌, Text, same, ltb, leb, ◌==◌, if◌then◌else◌, is_some, keep, map, not, lookup, insert,
  to_lower, ◌⊎◌, inl, inr,
}
use morpheus_uplink.Pool.Slot.{second}
use morpheus_uplink.Pool.Lease.{Pool, norm_model, closing_marked}
use morpheus_uplink.Pool.Lease.Drop.{OpenResult}
use morpheus_uplink.Pool.Candidates.{is_in, norm_prov}
use morpheus_uplink.Pool.Attempts.{
  ChainSession, Attempt, ChainWait, wallet_tx_pending, chain_congested, other_wait, matches,
  match_attempt, resolve_attempt,
}
use morpheus_uplink.Pool.Transient.{transient_cap}
use morpheus_uplink.Pool.Reconcile.{expiry_seconds, pick_one}
use morpheus_uplink.Pool.Open.{
  World, Args, Op, Outcome, got, ctx_error, transient, chain_wait, tick_on, remaining,
  reconcile_polls, reconcile_gap, read_call_timeout,
}

unfoldable pub adopted_result : ChainSession → Bool → OpenResult
adopted_result s resumed = record {
  id = s.id;
  provider = s.provider;
  stake = s.stake;
  adopted = true;
  resumed = resumed;
  opened_at = s.opened_at * second;
  ends_at = s.ends_at * second;
}

-- Whether a listed session can be what the attempt opened.
unfoldable pub can_match : Op → ℕ → Attempt → ChainSession → Bool
can_match op now att s =
    matches att s
    && not (closing_marked op.pool s.id || is_some (lookup s.id op.pool.sess))
    && ltb (now / second + expiry_seconds) s.ends_at

match_among : Op → Attempt → List ChainSession → Op × Option OpenResult
unfolding adopted_result
match_among op att [] = (op, none)
match_among op att (s ∷ ss) =
    let best : ChainSession = pick_one s ss in
    (
      record op {
        known_dup =
            map (λ d. to_lower d.id) (keep (λ d. not (same d.id best.id)) (s ∷ ss)) ++ op.known_dup;
        pending = resolve_attempt op.pending att.ref;
      },
      some (adopted_result best false),
    )

unfoldable pub match_open : Op → ℕ → Attempt → List ChainSession → Op × Option OpenResult
unfolding match_among can_match
match_open op now att listed = match_among op att (keep (can_match op now att) listed)

-- How a search for the session of an attempt goes on.
found_or : Op × Option OpenResult → (Op → Op × Outcome) → Op × Outcome
found_or (op, some res) again = (op, got res)
found_or (op, none) again = again op

listed_or : Option (List ChainSession) → Op → ℕ → Attempt → (Op → Op × Outcome) → Op × Outcome
unfolding found_or match_open
listed_or none op now att again = again op
listed_or (some listed) op now att again = found_or (match_open op now att listed) again

unfoldable pub give_up : ChainWait → Op → Op × Outcome
give_up other_wait op = (op, transient transient_cap)
give_up reason op = (op, chain_wait reason)

-- The polls that are left. Between two of them the search sleeps, if the hold time allows it.
polls : ℕ → Bool → World → Args → Attempt → ChainWait → Op → Op × Outcome
unfolding listed_or give_up
polls zero first w a att reason op = give_up reason op
polls (suc n) first w a att reason op =
    let again = polls n false w a att reason in
    if not first
      && (ltb (remaining w a op) (reconcile_gap + read_call_timeout / 2)
          || not (w.sleeps op.tick reconcile_gap))
    then give_up reason (tick_on op)
    else if remaining w a (tick_on op) == 0
    then give_up reason (tick_on op)
    else listed_or (w.list (op.tick + 1)) (record op { tick = op.tick + 2 }) (w.now (op.tick + 2))
        att again

unfoldable pub reconcile : World → Args → Attempt → ChainWait → Op → Op × Outcome
unfolding polls
reconcile w a att reason op = polls reconcile_polls true w a att reason op

-- Why a session that the router named may not be used; `none` when it may.
pub data Unusable : Type 0 where
  other_model closed ending not_usable excluded : Unusable

unfoldable pub why_not : Op → ℕ → Text → ChainSession → Bool → Bool → Option Unusable
why_not op now model s retired barred =
    if not (same (norm_model s.model_agent_id) model)
    then some other_model
    else if not (s.closed_at == 0)
    then some closed
    else if leb s.ends_at (now / second + expiry_seconds)
    then some ending
    else if retired
        || closing_marked op.pool s.id
        || is_in op.known_dup (to_lower s.id)
        || is_some (lookup s.id op.pool.sess)
    then some not_usable
    else if barred
    then some excluded
    else none

-- A pending attempt that the session matches is resolved: the open was this process's own.
adopt_named : Option Attempt → Op → ChainSession → Op × OpenResult
unfolding adopted_result
adopt_named none op s = (op, adopted_result s true)
adopt_named (some att) op s = (
  record op {
    pending = resolve_attempt op.pending att.ref;
    pool = record op.pool { opened = insert (to_lower s.id) true op.pool.opened };
  },
  adopted_result s false,
)

adopt_unless : Option Unusable → Op → ChainSession → Op × (OpenResult ⊎ Unusable)
unfolding adopt_named
adopt_unless (some why) op s = (op, inr why)
adopt_unless none op s =
    let (q, res) = adopt_named (match_attempt op.pending s) op s in (q, inl res)

unfoldable pub adoptable : Op → ℕ → Text → ChainSession → Bool → Bool → Op × (OpenResult ⊎ Unusable)
unfolding why_not adopt_unless
adoptable op now model s retired barred = adopt_unless (why_not op now model s retired barred) op s

-- `p.IsProviderExcluded`
unfoldable pub is_provider_excluded : Op → Text → Bool
is_provider_excluded op provider =
    not (same (norm_prov provider) []) && is_in op.memory.exclude (norm_prov provider)

adopted_or_not : Op × (OpenResult ⊎ Unusable) → Op × Outcome
adopted_or_not (op, inl res) = (op, got res)
adopted_or_not (op, inr why) = (op, transient transient_cap)

named_or_not : Option ChainSession → World → Args → Text → Op → Op × Outcome
unfolding adopted_or_not adoptable is_provider_excluded
named_or_not none w a id op =
    if w.ended (op.tick + 1) then (tick_on op, ctx_error) else (tick_on op, transient transient_cap)
named_or_not (some read) w a id op =
    let s : ChainSession = if same read.id [] then record read { id = id } else read in
    adopted_or_not (
      adoptable (tick_on op) (w.now (op.tick + 1)) a.model s (is_some (lookup s.id op.pool.retired))
        (is_provider_excluded op s.provider))

unfoldable pub adopt_existing : World → Args → Text → Op → Op × Outcome
unfolding named_or_not
adopt_existing w a id op = named_or_not (w.read op.tick id) w a id op
