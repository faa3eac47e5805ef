-- ===== src/Pool/Scan/Tests.antt =====
-- A scan of small lists.
use morpheus_uplink.Base.{
  ℕ, ◌*◌, ◌≡◌, refl, true, some, List, [], ◌∷◌, codes, String, lookup, insert,
}
use morpheus_uplink.Pool.Slot.{second}
use morpheus_uplink.Pool.Lease.{norm_model, closing_marked}
use morpheus_uplink.Pool.Lease.Sweep.{cut_close_mark}
use morpheus_uplink.Pool.Attempts.{ChainSession, prune_attempts, match_attempt}
use morpheus_uplink.Pool.Reconcile.{pick_one}
use morpheus_uplink.Pool.Scan.{Wallet, Due, duplicate, held, sort_one}
use morpheus_uplink.Pool.Scan.Apply.{apply_scan, cleaned}
use morpheus_uplink.Pool.Scan.Apply.Laws.{Chosen, apply_scan-Chosen}

abbrev empty : Wallet
empty = record {
  pool = record { entries = []; sess = []; closing_ids = []; retired = []; opened = [] };
  pending = [];
  known_dup = [];
  close_due_at = [];
  foreign_at = [];
  started = 0;
}

abbrev listed_one : String → ℕ → ChainSession
listed_one id ends = record {
  id = codes id;
  model_agent_id = codes "m";
  provider = codes "p";
  bid_id = codes "b";
  stake = some 5;
  opened_at = 100;
  ends_at = ends;
  closed_at = 0;
}

abbrev two : List ChainSession
two = listed_one "s1" 9000 ∷ listed_one "s2" 8000 ∷ []

abbrev at : ℕ
at = 5000 * second

abbrev second_one : Due
second_one = record { session = listed_one "s2" 8000; reason = duplicate }

-- The longer session is pooled, the other is closed.
two_older : (apply_scan two at at true [] empty).close ≡ some second_one
unfolding apply_scan sort_one closing_marked lookup held match_attempt prune_attempts insert
    norm_model pick_one cut_close_mark
two_older = refl

apply_scan-Chosen_example :
    let out = apply_scan two at at true [] empty in
    Chosen two at (cleaned two at empty).pool (out.wallet, out.close) second_one × (true ≡ true)
apply_scan-Chosen_example = apply_scan-Chosen two at at true [] empty second_one two_older
