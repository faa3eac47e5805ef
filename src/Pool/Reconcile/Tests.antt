-- ===== src/Pool/Reconcile/Tests.antt =====
-- A plan for three sessions (internal/pool/reconcile.go), and instances of the theorems.
use morpheus_uplink.Base.{
  ℕ, ◌*◌, ◌≡◌, refl, false, none, some, List, [], ◌∷◌, Text, codes, dec_text, lookup, insert,
  lower_trim,
}
use morpheus_uplink.Pool.Slot.{second}
use morpheus_uplink.Pool.Lease.{norm_model}
use morpheus_uplink.Pool.Attempts.{ChainSession}
use morpheus_uplink.Pool.Reconcile.{
  adopt_usable, plan_reconcile, verdict, better, pick_one, better_of, settle, best_from,
}
use morpheus_uplink.Pool.Reconcile.Kept.{decided}
use morpheus_uplink.Pool.Reconcile.Laws.{plan_reconcile_adopts_once}

abbrev session_until : Text → ℕ → ChainSession
session_until id ends = record {
  id = id;
  model_agent_id = codes "M";
  provider = codes "0xaa";
  bid_id = codes "0xb1";
  stake = none;
  opened_at = 100;
  ends_at = ends;
  closed_at = 0;
}

-- The second session ends later.
abbrev two : List ChainSession
two = session_until (codes "s1") 5000 ∷ session_until (codes "s2") 6000 ∷ []

second_adopted :
    decided (plan_reconcile two (1000 * second) [] false []) 1
    ≡ some (session_until (codes "s2") 6000, adopt_usable)
unfolding decided plan_reconcile verdict better pick_one better_of settle best_from norm_model
    lower_trim dec_text lookup insert
second_adopted = refl

plan_reconcile_adopts_once_example : ◌≡◌ {A = ℕ} 1 1
plan_reconcile_adopts_once_example =
    plan_reconcile_adopts_once two (1000 * second) [] false [] 1 1 (session_until (codes "s2") 6000)
      (session_until (codes "s2") 6000) second_adopted second_adopted refl
