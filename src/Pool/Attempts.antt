-- ===== src/Pool/Attempts.antt =====
-- Opens whose outcome is not known yet (internal/pool/sweep.go). An attempt is a Go pointer: `ref` is its
-- address. Pool times are in nanoseconds, those of an on-chain session in whole seconds.
mod Laws
mod Tests
use morpheus_uplink.Base.{
  ℕ, ◌+◌, ◌*◌, Bool, true, false, ◌&&◌, Option, none, some, List, [], ◌∷◌, ◌++◌, Text, same, ltb,
  leb, ◌==◌, if◌then◌else◌, length, keep, map, not, to_lower, trim_space, lower_trim,
}
use morpheus_uplink.Pool.Slot.{second}
use morpheus_uplink.Pool.Lease.{norm_model}

pub record ChainSession : Type 0 where
  pub id : Text
  pub model_agent_id : Text
  pub provider : Text
  pub bid_id : Text
  pub stake : Option ℕ
  pub opened_at : ℕ
  pub ends_at : ℕ
  pub closed_at : ℕ

pub record Attempt : Type 0 where
  pub ref : ℕ
  pub model : Text
  pub bid : Text
  pub start : ℕ
  pub cut : Bool
  pub stuck : Bool

abbrev pub attempt_skew : ℕ
attempt_skew = 30 * second

abbrev pub attempt_keep : ℕ
attempt_keep = 780 * second

abbrev pub stuck_keep : ℕ
stuck_keep = 3600 * second

abbrev pub max_pending_attempts : ℕ
max_pending_attempts = 32

unfoldable pub keep_for : Attempt → ℕ
keep_for a = if a.stuck then stuck_keep else attempt_keep

unfoldable pub matches : Attempt → ChainSession → Bool
unfolding keep_for
matches a s =
    same (norm_model s.model_agent_id) a.model
    && same (lower_trim s.bid_id) (to_lower a.bid)
    && leb a.start (s.opened_at * second + attempt_skew)
    && leb (s.opened_at * second) (a.start + keep_for a + attempt_skew)

unfoldable pub prune_attempts : List Attempt → ℕ → List Attempt
unfolding keep_for
prune_attempts pending now = keep (λ a. ltb now (a.start + keep_for a + attempt_skew)) pending

-- `p.pending[1:]`
tail : List Attempt → List Attempt
tail [] = []
tail (a ∷ pending) = pending

-- The new attempt is at the address `ref`.
unfoldable pub add_attempt : List Attempt → ℕ → ℕ → Text → Text → List Attempt
unfolding prune_attempts tail
add_attempt pending ref now model bid =
    let kept : List Attempt = prune_attempts pending now in
    let room : List Attempt = if leb max_pending_attempts (length kept) then tail kept else kept in
    room
    ++ record {
      ref = ref;
      model = norm_model model;
      bid = lower_trim bid;
      start = now;
      cut = false;
      stuck = false;
    }
      ∷ []

-- The first one with this address goes.
unfoldable pub resolve_attempt : List Attempt → ℕ → List Attempt
resolve_attempt [] ref = []
resolve_attempt (a ∷ pending) ref =
    let rest = resolve_attempt pending ref in if a.ref == ref then pending else a ∷ rest

pub data ChainWait : Type 0 where
  wallet_tx_pending chain_congested other_wait : ChainWait

stick : Attempt → Attempt
stick a = record a { stuck = true }

unfoldable pub mark_stuck : List Attempt → ℕ → ChainWait → List Attempt
unfolding stick
mark_stuck pending ref wallet_tx_pending = map stick pending
mark_stuck pending ref chain_congested = map (λ a. if a.ref == ref then stick a else a) pending
mark_stuck pending ref other_wait = pending

unfoldable pub mark_cut : List Attempt → ℕ → List Attempt
mark_cut pending ref = map (λ a. if a.ref == ref then record a { cut = true } else a) pending

unfoldable pub match_attempt : List Attempt → ChainSession → Option Attempt
match_attempt [] s = none
match_attempt (a ∷ pending) s =
    let rest = match_attempt pending s in if matches a s then some a else rest
