-- ===== src/Pool/Reconcile.antt =====
-- The plan of the boot reconcile (internal/pool/reconcile.go: PlanReconcile) and the choice among
-- sessions (internal/pool/sweep.go: pickOne). The pool's clock is in nanoseconds, on-chain times are
-- in whole seconds, and the clock is past `prune_grace`. The model of a map from ids to flags is the
-- list of the ids that are set.
mod Kept
mod Laws
mod Boot
mod Tests
use morpheus_uplink.Base.{
  ℕ, ◌+◌, ◌-◌, ◌*◌, ◌/◌, Bool, true, false, ◌&&◌, ◌||◌, Option, none, some, List, [], ◌∷◌, Text,
  same, ltb, leb, ◌==◌, if◌then◌else◌, length, any, map, not, Map, lookup, insert, to_lower,
  lower_trim, text_ltb,
}
use morpheus_uplink.Pool.Slot.{second}
use morpheus_uplink.Pool.Lease.{norm_model}
use morpheus_uplink.Pool.Attempts.{ChainSession}

-- `2 * router.AdminTimeout`
abbrev pub prune_grace : ℕ
prune_grace = 120 * second

abbrev pub expiry_seconds : ℕ
expiry_seconds = 90

-- One round of the loop of `pickOne`.
unfoldable pub better_of : ChainSession → ChainSession → ChainSession
better_of best s =
    if not (s.ends_at == best.ends_at)
    then (if ltb best.ends_at s.ends_at then s else best)
    else if not (s.opened_at == best.opened_at)
    then (if ltb best.opened_at s.opened_at then s else best)
    else if text_ltb (to_lower s.id) (to_lower best.id)
    then s
    else best

-- `pickOne` of the sessions that begin with `best`.
unfoldable pub pick_one : ChainSession → List ChainSession → ChainSession
unfolding better_of
pick_one best [] = best
pick_one best (s ∷ ss) = pick_one (better_of best s) ss

-- The actions with their reasons.
pub data Decision : Type 0 where
  adopt_usable close_expired close_excluded close_duplicate : Decision
  skip_unconfigured skip_young : Decision

abbrev pub is_in : List Text → Text → Bool
is_in l t = any (λ x. same x t) l

-- The first pass on one session.
pub verdict : ℕ → List Text → Bool → List Text → ChainSession → Decision
verdict now cfg use_catalog excluded s =
    if leb s.ends_at (now / second + expiry_seconds)
    then close_expired
    else if is_in excluded (lower_trim s.provider)
    then close_excluded
    else if use_catalog && not (is_in cfg (norm_model s.model_agent_id))
    then skip_unconfigured
    else adopt_usable

abbrev pub is_adopted : Decision → Bool
is_adopted adopt_usable = true
is_adopted _ = false

-- `better(a, b)`: a is kept over b.
pub better : ChainSession → ChainSession → Bool
unfolding pick_one
better a b = same (pick_one b (a ∷ [])).id a.id && not (same a.id b.id)

-- Whether the session takes its model's place.
takes : ChainSession → Option (ℕ × ChainSession) → Bool
unfolding better
takes s none = true
takes s (some (j, other)) = better s other

-- The map `best` after the first pass over the sessions from index `i` on: a model's index, with the
-- session that stands there.
pub best_from :
    (ChainSession → Decision)
    → List ChainSession
    → ℕ
    → Map (ℕ × ChainSession)
    → Map (ℕ × ChainSession)
unfolding takes
best_from judge [] i best = best
best_from judge (s ∷ ss) i best = best_from judge ss (i + 1) (
    if is_adopted (judge s) && takes s (lookup (norm_model s.model_agent_id) best)
    then insert (norm_model s.model_agent_id) (i, s) best
    else best)

abbrev pub stands_at : Option (ℕ × ChainSession) → ℕ → Bool
stands_at none i = false
stands_at (some (j, s)) i = j == i

-- The second pass on one session.
pub settle : ℕ → Map (ℕ × ChainSession) → ℕ → ChainSession → Decision → Decision
settle young best i s d =
    if is_adopted d && not (stands_at (lookup (norm_model s.model_agent_id) best) i)
    then (if ltb young s.opened_at then skip_young else close_duplicate)
    else d

pub settle_from :
    (ChainSession → Decision)
    → ℕ
    → Map (ℕ × ChainSession)
    → List ChainSession
    → ℕ
    → List (ChainSession × Decision)
unfolding settle
settle_from judge young best [] i = []
settle_from judge young best (s ∷ ss) i =
    (s, settle young best i s (judge s)) ∷ settle_from judge young best ss (i + 1)

pub plan_reconcile :
    List ChainSession → ℕ → List Text → Bool → List Text → List (ChainSession × Decision)
unfolding settle_from best_from verdict
plan_reconcile sessions now configured catalog_known excluded =
    let cfg : List Text = map norm_model configured in
    let judge : ChainSession → Decision =
      verdict now cfg (catalog_known && ltb 0 (length cfg)) excluded in
    settle_from judge ((now - prune_grace) / second) (best_from judge sessions 0 []) sessions 0
