-- ===== src/Pool/Reconcile/Laws.antt =====
-- What the plan of the boot reconcile guarantees (internal/pool/reconcile.go).
use morpheus_uplink.Base.{
  ℕ, ◌+◌, ◌-◌, ◌/◌, ◌≤◌, ◌<◌, ◌≡◌, Bool, true, false, ◌&&◌, Option, none, some, List, [], ◌∷◌,
  arith, Text, ltb, length, map, Map, lookup, zero, suc, lower_trim,
}
use morpheus_uplink.Pool.Slot.{second}
use morpheus_uplink.Pool.Lease.{norm_model}
use morpheus_uplink.Pool.Attempts.{ChainSession}
use morpheus_uplink.Pool.Reconcile.{
  Decision, adopt_usable, close_expired, close_excluded, close_duplicate, skip_unconfigured,
  skip_young, is_in, verdict, best_from, stands_at, settle, settle_from, plan_reconcile,
  prune_grace, expiry_seconds,
}
use morpheus_uplink.Pool.Reconcile.Kept.{Plan, decided, Kept}

-- The last second at which a session counts as expired at `now`, and the one before which a duplicate
-- is not young.
abbrev pub last_expired : ℕ → ℕ
last_expired now = now / second + expiry_seconds

abbrev pub young_after : ℕ → ℕ
young_after now = (now - prune_grace) / second

-- The first pass with the arguments of the plan.
abbrev judge_of : ℕ → List Text → Bool → List Text → ChainSession → Decision
judge_of now configured catalog_known excluded =
    let cfg : List Text = map norm_model configured in
    verdict now cfg (catalog_known && ltb 0 (length cfg)) excluded

settle_adopted :
    (young : ℕ) (best : Map (ℕ × ChainSession)) (i : ℕ) (s : ChainSession) (d : Decision)
    → settle young best i s d ≡ adopt_usable
    → stands_at (lookup (norm_model s.model_agent_id) best) i ≡ true
unfolding settle
settle_adopted young best i s adopt_usable h = ground arith
settle_adopted young best i s close_expired h = absurd (ground arith)
settle_adopted young best i s close_excluded h = absurd (ground arith)
settle_adopted young best i s close_duplicate h = absurd (ground arith)
settle_adopted young best i s skip_unconfigured h = absurd (ground arith)
settle_adopted young best i s skip_young h = absurd (ground arith)

settle_from-stands :
    (judge : ChainSession → Decision) (young : ℕ) (best : Map (ℕ × ChainSession))
    (ss : List ChainSession) (i k : ℕ) (s : ChainSession)
    → decided (settle_from judge young best ss i) k ≡ some (s, adopt_usable)
    → stands_at (lookup (norm_model s.model_agent_id) best) (i + k) ≡ true
unfolding settle_from decided
settle_from-stands judge young best [] i k s h = absurd (ground arith)
settle_from-stands judge young best (t ∷ ss) i zero s h =
    ground (arith, settle_adopted young best i t (judge t))
settle_from-stands judge young best (t ∷ ss) i (suc k) s h =
    let e : i + 1 + k ≡ i + suc k = omega arith in
    rw e at (settle_from-stands judge young best ss (i + 1) k s h)

stands_once :
    (o : Option (ℕ × ChainSession)) (i j : ℕ) → stands_at o i ≡ true → stands_at o j ≡ true → i ≡ j
stands_once none i j a b = absurd (ground arith)
stands_once (some (k, s)) i j a b = ground arith

-- The plan adopts at most one session of a model: two adopted sessions with the same model are the
-- same entry of the list.
pub plan_reconcile_adopts_once :
    (sessions : List ChainSession) (now : ℕ) (configured : List Text) (catalog_known : Bool)
    (excluded : List Text) (i j : ℕ) (s t : ChainSession)
    → decided (plan_reconcile sessions now configured catalog_known excluded) i
      ≡ some (s, adopt_usable)
    → decided (plan_reconcile sessions now configured catalog_known excluded) j
      ≡ some (t, adopt_usable)
    → norm_model s.model_agent_id ≡ norm_model t.model_agent_id
    → i ≡ j
unfolding plan_reconcile
plan_reconcile_adopts_once sessions now configured catalog_known excluded i j s t a b e =
    let judge = judge_of now configured catalog_known excluded in
    let best = best_from judge sessions 0 [] in
    let first = settle_from-stands judge (young_after now) best sessions 0 i s a in
    let other = settle_from-stands judge (young_after now) best sessions 0 j t b in
    let i_from : 0 + i ≡ i = omega arith in
    let j_from : 0 + j ≡ j = omega arith in
    stands_once (lookup (norm_model s.model_agent_id) best) i j (rw i_from at first)
      (rw e (rw j_from at other))

-- What stands behind a decision of the plan.
pub data Grounds (now : ℕ) (cfg : List Text) (catalog_known : Bool) (excluded : List Text)
    (plan : Plan) (s : ChainSession) : Decision → Type 0 where
  expired :
      s.ends_at ≤ last_expired now → Grounds now cfg catalog_known excluded plan s close_expired
  barred :
      last_expired now < s.ends_at
      → is_in excluded (lower_trim s.provider) ≡ true
      → Grounds now cfg catalog_known excluded plan s close_excluded
  unknown :
      last_expired now < s.ends_at
      → is_in excluded (lower_trim s.provider) ≡ false
      → catalog_known ≡ true
      → is_in cfg (norm_model s.model_agent_id) ≡ false
      → Grounds now cfg catalog_known excluded plan s skip_unconfigured
  fresh :
      last_expired now < s.ends_at
      → is_in excluded (lower_trim s.provider) ≡ false
      → young_after now < s.opened_at
      → Kept plan s
      → Grounds now cfg catalog_known excluded plan s skip_young
  second_one :
      last_expired now < s.ends_at
      → is_in excluded (lower_trim s.provider) ≡ false
      → s.opened_at ≤ young_after now
      → Kept plan s
      → Grounds now cfg catalog_known excluded plan s close_duplicate
  usable :
      last_expired now < s.ends_at
      → is_in excluded (lower_trim s.provider) ≡ false
      → Grounds now cfg catalog_known excluded plan s adopt_usable
