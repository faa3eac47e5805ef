-- ===== src/Pool/Reconcile/Boot.antt =====
-- One pass of the boot reconcile (internal/pool/reconcile.go: verifiable, plan, runCloses,
-- reconcileOnce). The answers to its reads are arguments, `none` for an error of one of them;
-- `stateKnown` is set exactly by a plan that is answered. The audit events and the wallet address that is
-- kept are left out, and so is what other requests do between the closes.
mod Trail
mod Counts
mod Accounts
mod Grounds
mod Tests
use morpheus_uplink.Base.{
  ℕ, zero, suc, ◌+◌, ◌-◌, ◌*◌, Bool, true, false, ◌&&◌, ◌||◌, Option, none, some, List, [], ◌∷◌,
  ◌++◌, Text, same, ltb, ◌==◌, if◌then◌else◌, length, any, not, is_some, Map, lookup, insert,
  delete, to_lower, trim_space,
}
use morpheus_uplink.Pool.Slot.{WalletSlot, SlotToken, second}
use morpheus_uplink.Pool.Lease.{Pool, Entry, norm_model}
use morpheus_uplink.Pool.Lease.Sweep.{cut_close_mark}
use morpheus_uplink.Pool.Attempts.{ChainSession}
use morpheus_uplink.Pool.Transient.{CallError}
use morpheus_uplink.Pool.Scan.{Wallet}
use morpheus_uplink.Pool.Scan.Close.{
  CloseOutcome, close_ok, close_already, close_failed, close_cut, Reread, close_with_token,
}
use morpheus_uplink.Pool.Reconcile.{
  Decision, adopt_usable, close_expired, close_excluded, close_duplicate, skip_unconfigured,
  skip_young, plan_reconcile, expiry_seconds,
}

abbrev pub max_boot_closes : ℕ
max_boot_closes = 20

abbrev pub Decided : Type 0
Decided = ChainSession × Decision

-- The counts of a `ReconcileResult`; `listed` is `Open`, and what is only reported is left out.
pub record Tally : Type 0 where
  pub listed : ℕ
  pub adopted : ℕ
  pub closed : ℕ
  pub failed : ℕ
  pub skipped : ℕ
  pub deferred : ℕ

is_bad_row : ChainSession → Bool
is_bad_row s =
    same (trim_space s.id) []
    || same (trim_space s.model_agent_id) []
    || s.ends_at == 0
    || not (s.closed_at == 0)

pub verifiable : List ChainSession → Bool
unfolding is_bad_row
verifiable ss = not (any is_bad_row ss)

-- The state of the loop over the decisions: the three lists are the closes by reason.
pub record Planning : Type 0 where
  pub pool : Pool
  pub tally : Tally
  pub expired : List Decided
  pub excluded : List Decided
  pub duplicates : List Decided

pub skip_one : Planning → Planning
skip_one g = record g { tally = record g.tally { skipped = g.tally.skipped + 1 } }

pub usable_until : ChainSession → ℕ
usable_until s = (s.ends_at - expiry_seconds) * second

pooled_longer : Option Entry → ℕ → Bool
pooled_longer none until = false
pooled_longer (some e) until = ltb until e.expires_at

adopt_one : ChainSession → Planning → Planning
unfolding usable_until
adopt_one s g = record g {
  pool = record g.pool {
    entries =
        insert (norm_model s.model_agent_id)
          (record {
            session_id = s.id;
            expires_at = usable_until s;
            stake = s.stake;
            provider = s.provider;
          })
          g.pool.entries;
  };
  tally = record g.tally { adopted = g.tally.adopted + 1 };
}

pub sort_one : Bool → Decided → Planning → Planning
unfolding skip_one usable_until pooled_longer adopt_one
sort_one late (s, adopt_usable) g =
    if pooled_longer (lookup (norm_model s.model_agent_id) g.pool.entries) (usable_until s)
    then skip_one g
    else adopt_one s g
sort_one late (s, close_expired) g = record g { expired = g.expired ++ (s, close_expired) ∷ [] }
sort_one late (s, close_excluded) g = record g { excluded = g.excluded ++ (s, close_excluded) ∷ [] }
sort_one late (s, close_duplicate) g =
    if late then skip_one g else record g { duplicates = g.duplicates ++ (s, close_duplicate) ∷ [] }
sort_one late (s, skip_unconfigured) g = skip_one g
sort_one late (s, skip_young) g = skip_one g

pub sort_all : Bool → List Decided → Planning → Planning
unfolding sort_one
sort_all late [] g = g
sort_all late (d ∷ ds) g = sort_all late ds (sort_one late d g)

pub empty_planning : ℕ → Pool → Planning
empty_planning n p = record {
  pool = p;
  tally = record { listed = n; adopted = 0; closed = 0; failed = 0; skipped = 0; deferred = 0 };
  expired = [];
  excluded = [];
  duplicates = [];
}

-- `closes[:n]`
pub first : ℕ → List Decided → List Decided
first zero ds = []
first (suc n) [] = []
first (suc n) (d ∷ ds) = d ∷ first n ds

mark_all : List Decided → Map ℕ → Map ℕ
mark_all [] marks = marks
mark_all ((s, d) ∷ ds) marks = mark_all ds (insert (to_lower s.id) 0 marks)

pub record Planned : Type 0 where
  pub wallet : Wallet
  pub tally : Tally
  pub closes : List Decided

-- The expired ones come first, then those of excluded providers.
cut_off : Wallet → Planning → Planned
unfolding first mark_all
cut_off w g =
    let all : List Decided = g.expired ++ (g.excluded ++ g.duplicates) in
    let closes : List Decided = first max_boot_closes all in
    record {
      wallet = record w {
        pool = record g.pool { closing_ids = mark_all closes g.pool.closing_ids };
      };
      tally = record g.tally { deferred = length all - max_boot_closes };
      closes = closes;
    }

pub ids_of : Option (List Text) → List Text
ids_of none = []
ids_of (some ids) = ids

pub plan_listed :
    List ChainSession → Option (List Text) → List Text → Bool → ℕ → Wallet → Option Planned
unfolding verifiable sort_all empty_planning cut_off ids_of
plan_listed ss configured excluded late now w =
    let ds : List Decided =
      plan_reconcile ss now (ids_of configured) (is_some configured) excluded in
    if not (verifiable ss)
    then none
    else some (cut_off w (sort_all late ds (empty_planning (length ss) w.pool)))

-- `none` is the error, which changes nothing.
pub plan :
    Option (List ChainSession) → Option (List Text) → List Text → Bool → ℕ → Wallet → Option Planned
unfolding plan_listed
plan none configured excluded late now w = none
plan (some ss) configured excluded late now w = plan_listed ss configured excluded late now w

-- What each close meets: the clock, the slot when it is free, and the router's answers.
pub record CloseEnv : Type 0 where
  pub now : ℕ → ℕ
  pub free_slot : ℕ → Option (WalletSlot × SlotToken)
  pub close : ℕ → Option CallError
  pub reread : ℕ → Option Reread

pub record Ran : Type 0 where
  pub wallet : Wallet
  pub tally : Tally
  pub sweep_asked : Bool

unmark_one : Option ℕ → Text → Map ℕ → Map ℕ
unmark_one none lid marks = marks
unmark_one (some exp) lid marks = if exp == 0 then delete lid marks else marks

unmark_all : List Decided → Map ℕ → Map ℕ
unfolding unmark_one
unmark_all [] marks = marks
unmark_all ((s, d) ∷ ds) marks =
    unmark_all ds (unmark_one (lookup (to_lower s.id) marks) (to_lower s.id) marks)

abbrev with_marks : Wallet → Map ℕ → Wallet
with_marks w marks = record w { pool = record w.pool { closing_ids = marks } }

-- The closes that are left go to the sweep.
pub defer_rest : List Decided → Wallet → Tally → Ran
unfolding unmark_all
defer_rest ds w t = record {
  wallet = with_marks w (unmark_all ds w.pool.closing_ids);
  tally = record t { deferred = t.deferred + length ds };
  sweep_asked = true;
}

counted : CloseOutcome → Tally → Tally
counted close_ok t = record t { closed = t.closed + 1 }
counted close_already t = record t { closed = t.closed + 1 }
counted close_failed t = record t { failed = t.failed + 1 }
counted close_cut t = record t { failed = t.failed + 1 }

-- One close with the slot held.
pub close_one : CloseEnv → ℕ → Text → WalletSlot → SlotToken → Wallet → Tally → Wallet × Tally
unfolding counted
close_one env i id slot tok w t =
    let (v, out) = close_with_token slot (some tok) id (env.close i) (env.reread i) (env.now i) w in
    (v, counted out t)

pub with_slot : Option (WalletSlot × SlotToken) → (WalletSlot → SlotToken → Ran) → Ran → Ran
with_slot none go busy = busy
with_slot (some (slot, tok)) go busy = go slot tok

pub run_closes : CloseEnv → ℕ → List Decided → Wallet → Tally → Ran
unfolding defer_rest close_one with_slot
run_closes env i [] w t = record { wallet = w; tally = t; sweep_asked = false }
run_closes env i ((s, d) ∷ ds) w t =
    let rest : Wallet × Tally → Ran = λ r. run_closes env (i + 1) ds r.0 r.1 in
    let (marks, hold) = cut_close_mark w.pool.closing_ids (env.now i) in
    let v : Wallet = with_marks w marks in
    let busy : Ran = defer_rest ((s, d) ∷ ds) v t in
    if hold
    then busy
    else with_slot (env.free_slot i) (λ slot tok. rest (close_one env i s.id slot tok v t)) busy

pub after_plan : Option Planned → CloseEnv → Option Ran
unfolding run_closes
after_plan none env = none
after_plan (some p) env = some (run_closes env 0 p.closes p.wallet p.tally)

pub reconcile_once :
    Option (List ChainSession) → Option (List Text) → List Text → ℕ → CloseEnv → Wallet → Option Ran
unfolding plan after_plan
reconcile_once listed configured excluded now env w =
    after_plan (plan listed configured excluded false now w) env
