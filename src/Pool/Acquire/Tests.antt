-- ===== src/Pool/Acquire/Tests.antt =====
-- Requests in small worlds, and instances of the theorems (internal/pool/lease.go: AcquireCtx).
use morpheus_uplink.Base.{
  ◌≡◌, ◌≢◌, refl, true, false, none, some, [], codes, lookup, insert, delete, dec_text, lower_trim,
  has_prefix, inl, inr, arith,
}
use morpheus_uplink.Pool.Lease.{
  norm_model, closing_marked, new_state, lease_locked, try_pooled_locked,
}
use morpheus_uplink.Pool.Lease.Drop.{forget, pool_opened_locked}
use morpheus_uplink.Pool.Candidates.{norm_prov, mark_cooling, filter_candidates}
use morpheus_uplink.Pool.Attempts.{add_attempt, resolve_attempt}
use morpheus_uplink.Pool.Open.{opened, out_of_fuel}
use morpheus_uplink.Pool.Open.Walk.{
  open_excluding, walk, walk_bid, same_bid, round, after_answer, finish, sent, this_post,
  within_cap,
}
use morpheus_uplink.Pool.Open.Normal.{candidates, open_avoiding_cooling}
use morpheus_uplink.Pool.Scan.{closed_late}
use morpheus_uplink.Pool.Scan.Apply.{apply_scan}
use morpheus_uplink.Pool.Failover.{System, wallet_of, with_wallet, duration_max}
use morpheus_uplink.Pool.Failover.Tests.{env_with, one_session, system_with, pooled}
use morpheus_uplink.Pool.Acquire.{AcquireEnv, AcquireOpts, acquire, open_failed, dur}
use morpheus_uplink.Pool.Acquire.Laws.{Holds, acquire-Holds, acquire-Ended, acquire_reuses}

-- The gate is open, and the router opens every bid that it is asked for.
abbrev env : AcquireEnv
env = record {
  base = env_with (λ bid. opened (codes "t"));
  gate_cut = λ t. false;
  slot_busy = λ t. true;
  gated = false;
  state_known = true;
}

abbrev asks : AcquireOpts
asks = record { key_id = codes "k"; duration_sec = 0 }

abbrev empty_pool : System
empty_pool = system_with []

opened_new :
    (acquire env asks (codes "m") empty_pool).1
    ≡ inr (codes "t", record { session_id = codes "t"; opened = true; duration_sec = 3600 })
unfolding acquire candidates filter_candidates open_excluding walk walk_bid same_bid round
    after_answer finish sent this_post within_cap norm_prov lower_trim dec_text mark_cooling
    add_attempt resolve_attempt norm_model lookup insert delete pool_opened_locked forget new_state
    lease_locked has_prefix open_avoiding_cooling try_pooled_locked apply_scan with_wallet wallet_of
    closed_late duration_max
opened_new = refl

acquire-Holds_example :
    Holds
      (acquire env asks (codes "m") empty_pool).0.op.pool
      (acquire env asks (codes "m") empty_pool).1
acquire-Holds_example = acquire-Holds env asks (codes "m") empty_pool refl

acquire-Ended_example : (acquire env asks (codes "m") empty_pool).1 ≢ inl (open_failed out_of_fuel)
acquire-Ended_example = (acquire-Ended env asks (codes "m") empty_pool refl).0

there : lookup (norm_model (codes "m")) one_session.op.pool.entries ≡ some pooled
unfolding lookup norm_model lower_trim dec_text
there = refl

unmarked : closing_marked one_session.op.pool (codes "s") ≡ false
unfolding closing_marked lookup
unmarked = refl

no_state : lookup (codes "s") one_session.op.pool.sess ≡ none
unfolding lookup
no_state = refl

acquire_reuses_example :
    (acquire env asks (codes "m") one_session).1
    ≡ inr (
      codes "s",
      record { session_id = codes "s"; opened = false; duration_sec = dur env asks (codes "m") },
    )
acquire_reuses_example =
    (acquire_reuses env asks (codes "m") one_session pooled there
      (ground arith, unmarked, λ st h. absurd (ground (arith, h, no_state)))).0
