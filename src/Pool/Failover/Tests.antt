-- ===== src/Pool/Failover/Tests.antt =====
-- Failovers in small worlds, and instances of the theorems (internal/pool/failover.go: FailoverCtx).
use morpheus_uplink.Base.{
  ◌*◌, ◌≡◌, ◌≢◌, refl, true, false, none, some, [], ◌∷◌, Text, codes, lookup, insert, delete,
  dec_text, lower_trim, has_prefix, same, if◌then◌else◌, is_some, ◌⊎◌, List,
}
use morpheus_uplink.Pool.Slot.{second, WalletSlot, SlotToken, holds}
use morpheus_uplink.Pool.Lease.{Entry, norm_model, new_state, retire, lease_locked}
use morpheus_uplink.Pool.Lease.Drop.{
  in_flight, forget, pool_opened_locked, retire_for_failover, failover_state,
}
use morpheus_uplink.Pool.Candidates.{norm_prov, mark_cooling, filter_candidates}
use morpheus_uplink.Pool.Attempts.{add_attempt, resolve_attempt}
use morpheus_uplink.Pool.Open.{Answer, out_of_fuel, opened, failed}
use morpheus_uplink.Pool.Open.Tests.{bid_a, ping, answers, fresh_op}
use morpheus_uplink.Pool.Open.Walk.{
  open_excluding, walk, walk_bid, same_bid, round, after_answer, finish, sent, this_post,
  within_cap,
}
use morpheus_uplink.Pool.Open.Walk.Bids.{AllPosts}
use morpheus_uplink.Pool.Open.Normal.{candidates}
use morpheus_uplink.Pool.Scan.Close.{close_with_token}
use morpheus_uplink.Pool.Failover.{Env, System, FailoverOpts, failover, no_alternate, open_failed}
use morpheus_uplink.Pool.Failover.Laws.{
  failover_keeps_session, failover-Closes, failover-Avoids, failover-Ended,
}

abbrev pub token : SlotToken
token = record { ref = 1; id = 1; key = []; acquired = 100 * second; deadline = 160 * second }

abbrev pub held_slot : WalletSlot
held_slot = record {
  holder = some token;
  waiters = [];
  next_id = 1;
  held = 1;
  max_held = 1;
  handed = [];
  released = [];
  fresh = 2;
}

-- The slot is free, every close lands, and no cap is set.
abbrev pub env_with : (Text → Answer) → Env
env_with ans = record {
  world = answers ans;
  grant = λ t key. some (held_slot, token);
  close = λ t id. none;
  reread = λ t id. none;
  duration = 3600;
  max_duration = 7200;
  cap = none;
  cap_invalid = false;
  inputs_read = true;
  supply = 10;
  budget = 5;
}

abbrev pub pooled : Entry
pooled = record {
  session_id = codes "s";
  expires_at = 1000 * second;
  stake = none;
  provider = codes "0xa";
}

abbrev pub system_with : List (Text × Entry) → System
system_with es = record {
  op = record fresh_op {
    pool = record { entries = es; sess = []; closing_ids = []; retired = []; opened = [] };
  };
  close_due_at = [];
  foreign_at = [];
  started = 0;
  closes = [];
}

abbrev pub one_session : System
one_session = system_with ((codes "m", pooled) ∷ [])

abbrev reopening : FailoverOpts
reopening = record { key_id = codes "k"; duration_sec = 0; reopen = true }

abbrev opens_b : Text → Answer
opens_b bid = if same bid (codes "b") then opened (codes "t") else failed ping

-- The session is closed, and the other provider's is pooled and leased.
swapped :
    let r = failover (env_with opens_b) reopening (codes "m") (codes "s") one_session in
    (r.0.closes ≡ codes "s" ∷ []) × (r.1.lease ≡ some (codes "t")) × (r.2 ≡ none)
unfolding failover candidates filter_candidates open_excluding walk walk_bid same_bid round
    after_answer finish sent this_post within_cap norm_prov lower_trim dec_text mark_cooling
    add_attempt resolve_attempt norm_model lookup insert delete pool_opened_locked
    retire_for_failover failover_state close_with_token forget new_state retire lease_locked
    has_prefix holds
swapped = (refl, refl, refl)

failover-Closes_example :
    ((failover (env_with opens_b) reopening (codes "m") (codes "s") one_session).0.closes ≡ [])
    ⊎ (((failover (env_with opens_b) reopening (codes "m") (codes "s") one_session).0.closes
          ≡ codes "s" ∷ [])
        × (is_some (lookup (codes "s") one_session.op.pool.retired) ≡ false)
        × (in_flight one_session.op.pool (codes "s") ≡ 0))
failover-Closes_example =
    failover-Closes (env_with opens_b) reopening (codes "m") (codes "s") one_session refl

failed_named :
    norm_prov
      (failover (env_with opens_b) reopening (codes "m") (codes "s") one_session).1.failed_provider
    ≢ []
unfolding failover candidates filter_candidates open_excluding walk walk_bid same_bid round
    after_answer finish sent this_post within_cap norm_prov lower_trim dec_text mark_cooling
    add_attempt resolve_attempt norm_model lookup insert delete pool_opened_locked
    retire_for_failover failover_state close_with_token forget new_state retire lease_locked
    has_prefix holds
failed_named e = cc

failover-Avoids_example :
    AllPosts
      (λ b.
        norm_prov b.provider
        ≢ norm_prov
            (failover
              (env_with opens_b)
              reopening
              (codes "m")
              (codes "s")
              one_session).1.failed_provider)
      (failover (env_with opens_b) reopening (codes "m") (codes "s") one_session).0.op
failover-Avoids_example =
    failover-Avoids (env_with opens_b) reopening (codes "m") (codes "s") one_session refl
      failed_named

failover-Ended_example :
    (failover (env_with opens_b) reopening (codes "m") (codes "s") one_session).2
    ≢ some (open_failed out_of_fuel)
failover-Ended_example =
    (failover-Ended (env_with opens_b) reopening (codes "m") (codes "s") one_session refl).0

-- A world with no bid but the failed provider's.
abbrev lonely : Env
lonely = record (env_with (λ bid. failed ping)) {
  world = record (answers (λ bid. failed ping)) { rated = λ t. (bid_a ∷ [], none) };
}

nobody_else : (failover lonely reopening (codes "m") (codes "s") one_session).2 ≡ some no_alternate
unfolding failover candidates filter_candidates norm_prov lower_trim dec_text mark_cooling
    norm_model lookup insert has_prefix
nobody_else = refl

failover_keeps_session_example :
    (failover lonely reopening (codes "m") (codes "s") one_session).0.op.pool ≡ one_session.op.pool
failover_keeps_session_example =
    (failover_keeps_session lonely reopening (codes "m") (codes "s") one_session refl nobody_else).0
