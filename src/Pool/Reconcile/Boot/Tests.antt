-- ===== src/Pool/Reconcile/Boot/Tests.antt =====
-- A boot reconcile of two sessions (internal/pool/reconcile.go), and instances of the theorems.
use morpheus_uplink.Base.{
  ℕ, ◌*◌, ◌≡◌, refl, false, none, some, List, [], ◌∷◌, Text, codes, dec_text,
}
use morpheus_uplink.Pool.Slot.{second}
use morpheus_uplink.Pool.Attempts.{ChainSession}
use morpheus_uplink.Pool.Scan.{Wallet}
use morpheus_uplink.Pool.Reconcile.{plan_reconcile}
use morpheus_uplink.Pool.Reconcile.Laws.{Grounds}
use morpheus_uplink.Pool.Reconcile.Boot.{
  Planned, CloseEnv, Ran, cut_off, sort_all, empty_planning, ids_of, plan_listed, plan, verifiable,
  run_closes, after_plan, reconcile_once,
}
use morpheus_uplink.Pool.Reconcile.Boot.Accounts.{Pass, reconcile_once-Accounted}

abbrev session_until : Text → ℕ → ChainSession
session_until id ends = record {
  id = id;
  model_agent_id = codes "M";
  provider = codes "0xaa";
  bid_id = codes "0xb1";
  stake = none;
  opened_at = 100;
  ends_at = ends;
  closed_at = 0;
}

-- The second session ends later, and the third has ended.
abbrev three : List ChainSession
three =
    session_until (codes "s1") 5000
    ∷ session_until (codes "s2") 6000
    ∷ session_until (codes "s3") 900
    ∷ []

abbrev fresh_wallet : Wallet
fresh_wallet = record {
  pool = record { entries = []; sess = []; closing_ids = []; retired = []; opened = [] };
  pending = [];
  known_dup = [];
  close_due_at = [];
  foreign_at = [];
  started = 0;
}

abbrev planned_three : Planned
planned_three = cut_off fresh_wallet (
    sort_all false (plan_reconcile three (1000 * second) [] false [])
      (empty_planning 3 fresh_wallet.pool))

-- The slot is busy from the start.
abbrev busy_env : CloseEnv
busy_env = record {
  now = λ i. 1000 * second;
  free_slot = λ i. none;
  close = λ i. none;
  reread = λ i. none;
}

abbrev ran_three : Ran
ran_three = run_closes busy_env 0 planned_three.closes planned_three.wallet planned_three.tally

three_run :
    reconcile_once (some three) none [] (1000 * second) busy_env fresh_wallet ≡ some ran_three
unfolding reconcile_once plan plan_listed verifiable ids_of after_plan dec_text
three_run = refl

reconcile_once-Accounted_example :
    Pass three (plan_reconcile three (1000 * second) (ids_of none) false []) busy_env ran_three
reconcile_once-Accounted_example =
    reconcile_once-Accounted three none [] (1000 * second) busy_env fresh_wallet ran_three three_run
