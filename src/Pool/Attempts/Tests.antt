-- ===== src/Pool/Attempts/Tests.antt =====
-- Attempts of one open (internal/pool/sweep.go), and instances of the theorems.
use morpheus_uplink.Base.{◌*◌, ◌≡◌, none, List, [], codes, arith}
use morpheus_uplink.Pool.Slot.{second}
use morpheus_uplink.Pool.Attempts.{
  ChainSession, Attempt, add_attempt, match_attempt, prune_attempts,
}
use morpheus_uplink.Pool.Attempts.Laws.{match_attempt-prune_attempts}

abbrev pending_one : List Attempt
pending_one = add_attempt [] 1 (100 * second) (codes "M") (codes "0xB1")

abbrev landed : ChainSession
landed = record {
  id = codes "s1";
  model_agent_id = codes "m";
  provider = codes "0xaa";
  bid_id = codes "0xb1";
  stake = none;
  opened_at = 120;
  ends_at = 5000;
  closed_at = 0;
}

match_attempt-prune_attempts_example :
    match_attempt (prune_attempts pending_one (110 * second)) landed
    ≡ match_attempt pending_one landed
match_attempt-prune_attempts_example =
    match_attempt-prune_attempts pending_one (110 * second) landed (omega arith)
