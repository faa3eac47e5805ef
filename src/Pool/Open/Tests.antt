-- ===== src/Pool/Open/Tests.antt =====
-- Operations against small worlds, and instances of the theorems (internal/pool/failover.go).
use morpheus_uplink.Base.{
  lookup, insert, ◌*◌, ◌≡◌, refl, inl, true, false, none, some, [], ◌∷◌, Text, codes, length, ◌⊎◌,
  dec_text, lower_trim, has_prefix, contains, lookup,
}
use morpheus_uplink.Pool.Slot.{second}
use morpheus_uplink.Stake.{pos}
use morpheus_uplink.Pool.Lease.{norm_model, closing_marked}
use morpheus_uplink.Pool.Candidates.{filter_candidates, RatedBid, norm_prov, mark_cooling}
use morpheus_uplink.Pool.Attempts.{
  ChainSession, add_attempt, resolve_attempt, mark_cut, mark_stuck, match_attempt,
}
use morpheus_uplink.Pool.Transient.{
  CallError, transport, status, classify_open_err, provider_stage_texts, pre_send_prefixes,
  window_prefixes, transient_cap,
}
use morpheus_uplink.Pool.Transient.Reads.{chain_wait_reason}
use morpheus_uplink.Pool.Open.{
  World, Args, Op, Answer, failed, transient, walk_exhausted, no_available, max_bid_attempts,
}
use morpheus_uplink.Pool.Lease.Drop.{OpenResult}
use morpheus_uplink.Pool.Open.Adopt.{
  Unusable, adoptable, adopted_result, reconcile, match_open, give_up, why_not,
}
use morpheus_uplink.Pool.Open.Walk.{
  open_excluding, walk, walk_bid, same_bid, round, after_answer, after_class, maybe_sent_end,
  finish, sent, this_post, within_cap,
}
use morpheus_uplink.Pool.Open.Walk.Trace.{EndedOut}
use morpheus_uplink.Pool.Open.Normal.{open_avoiding_cooling, candidates}
use morpheus_uplink.Pool.Candidates.Retry.{retry_after}
use morpheus_uplink.Pool.Open.Normal.Laws.{open_avoiding_cooling-EndedOut}

abbrev pub bid_a : RatedBid
bid_a = record { id = codes "a"; provider = codes "0xa"; price_per_second = some (pos 1) }

abbrev pub bid_b : RatedBid
bid_b = record { id = codes "b"; provider = codes "0xb"; price_per_second = some (pos 9) }

abbrev pub ping : CallError
ping = status 500 (codes "provider healthcheck ping failed")

-- A world whose clock stands still and whose router gives that answer to every open.
abbrev pub answers : (Text → Answer) → World
answers ans = record {
  now = λ t. 100 * second;
  wall = λ t. 100 * second;
  ended = λ t. false;
  provided_rpc = λ t. true;
  sleeps = λ t d. true;
  random = λ t b. 0;
  post = λ t bid. ans bid;
  rated = λ t. (bid_a ∷ bid_b ∷ [], none);
  healthy = λ t. some (codes "a" ∷ codes "b" ∷ []);
  list = λ t. some [];
  read = λ t id. none;
}

abbrev pub uncapped : Args
uncapped = record {
  model = codes "m";
  start = 100 * second;
  deadline = 160 * second;
  duration = 3600;
  cap = none;
  cap_invalid = false;
  inputs_read = true;
  supply = 10;
  budget = 5;
}

abbrev pub fresh_op : Op
fresh_op = record {
  tick = 0;
  retries = 0;
  window_retries = 0;
  fresh = 1;
  pending = [];
  pool = record { entries = []; sess = []; closing_ids = []; retired = []; opened = [] };
  known_dup = [];
  memory = record { cooldown = second; cooling = []; cut_next = []; exclude = [] };
  posts = [];
}

-- Two providers at fault: the walk tries both and is exhausted.
both_fail :
    (open_excluding (answers (λ bid. failed ping)) uncapped (bid_a ∷ bid_b ∷ []) fresh_op).1
    ≡ walk_exhausted 2
unfolding open_excluding walk walk_bid same_bid round after_answer after_class finish sent this_post
    within_cap classify_open_err provider_stage_texts pre_send_prefixes window_prefixes contains
    has_prefix norm_prov lower_trim dec_text mark_cooling add_attempt resolve_attempt
both_fail = refl

-- An open that was cut may have been sent: one open, and the wallet is asked for it.
cut_once :
    let r =
      open_excluding (answers (λ bid. failed transport)) uncapped (bid_a ∷ bid_b ∷ []) fresh_op in
    (r.1 ≡ transient transient_cap) × (length r.0.posts ≡ 1)
unfolding open_excluding walk walk_bid same_bid round after_answer after_class maybe_sent_end
    reconcile match_open give_up finish sent this_post within_cap classify_open_err norm_prov
    lower_trim dec_text add_attempt resolve_attempt mark_cut mark_stuck chain_wait_reason
cut_once = (refl, refl)

-- Both providers fail: the refusal says when to try again.
none_left :
    (open_avoiding_cooling (answers (λ bid. failed ping)) uncapped fresh_op).1 ≡ no_available second
unfolding open_avoiding_cooling candidates filter_candidates retry_after open_excluding walk
    walk_bid same_bid round after_answer after_class finish sent this_post within_cap
    classify_open_err provider_stage_texts pre_send_prefixes window_prefixes contains has_prefix
    norm_prov lower_trim dec_text mark_cooling add_attempt resolve_attempt norm_model lookup insert
none_left = refl

open_avoiding_cooling-EndedOut_example :
    EndedOut uncapped max_bid_attempts
      (open_avoiding_cooling (answers (λ bid. failed ping)) uncapped fresh_op)
open_avoiding_cooling-EndedOut_example =
    open_avoiding_cooling-EndedOut (answers (λ bid. failed ping)) uncapped fresh_op refl refl

abbrev live_one : ChainSession
live_one = record {
  id = codes "s";
  model_agent_id = codes "M";
  provider = codes "0xa";
  bid_id = codes "a";
  stake = none;
  opened_at = 90;
  ends_at = 4000;
  closed_at = 0;
}

live_adopted :
    (adoptable fresh_op (100 * second) (codes "m") live_one false false).1
    ≡ inl (adopted_result live_one true)
unfolding adoptable why_not norm_model lower_trim dec_text closing_marked lookup match_attempt
live_adopted = refl

abbrev first_look : Op × (OpenResult ⊎ Unusable)
first_look = adoptable fresh_op (100 * second) (codes "m") live_one false false
