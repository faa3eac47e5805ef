-- ===== src/Pool/Open/Normal.antt =====
-- A normal open (internal/pool/failover.go: candidates, openAvoidingCooling, pendingCut, clearCut): the
-- candidates are read inside the wallet slot, then walked. The loop of the read has fuel; each round
-- but the last spends a retry, so five rounds are enough.
pub mod Laws
pub mod Reads
use morpheus_uplink.Base.{
  ℕ, zero, suc, ◌+◌, Bool, true, false, Option, none, some, List, [], Text, same, if◌then◌else◌,
  not, lookup, delete,
}
use morpheus_uplink.Pool.Lease.{norm_model}
use morpheus_uplink.Pool.Candidates.{RatedBid, Memory, RatedError, filter_candidates}
use morpheus_uplink.Pool.Candidates as Candidates
use morpheus_uplink.Pool.Candidates.Retry.{retry_after}
use morpheus_uplink.Pool.Transient.{CallError}
use morpheus_uplink.Pool.Transient.Reads.{is_transient_read}
use morpheus_uplink.Pool.Open.{
  World, Args, Op, Outcome, got, ctx_error, transient, walk_exhausted, refused, no_available,
  out_of_fuel, tick_on, backoff,
}
use morpheus_uplink.Pool.Open.Walk.{open_excluding, rounds}

-- How the read of the candidates ends: with bids to walk and the bids that Retry-After looks at, or
-- without.
pub data ReadEnd : Type 0 where
  walkable : List RatedBid → List RatedBid → ReadEnd
  stop : Outcome → ReadEnd

read_end : Candidates.Outcome → ReadEnd
read_end (Candidates.refused why) = stop (refused why)
read_end (Candidates.found cands pool) = walkable cands pool

pub read_again : World → Op × ℕ × Bool → (Op → Op × ReadEnd) → Op × ReadEnd
read_again w (op, d, true) again = again op
read_again w (op, d, false) again =
    if w.ended op.tick then (op, stop ctx_error) else (op, stop (transient d))

filtered : World → Args → Text → Option RatedError → List RatedBid → Op → Op × ReadEnd
unfolding read_end
filtered w a extra kind rows op = (
  op,
  read_end
      (filter_candidates op.memory (w.wall op.tick) a.model extra kind rows (w.healthy op.tick)),
)

-- The rows, or the error, of one read.
pub after_read :
    Option (RatedError × CallError)
    → World
    → Args
    → Text
    → List RatedBid
    → (Op → Op × ReadEnd)
    → Op
    → Op × ReadEnd
unfolding filtered read_again
after_read none w a extra rows again op = filtered w a extra none rows op
after_read (some (kind, e)) w a extra rows again op =
    if w.ended op.tick
    then (op, stop ctx_error)
    else if is_transient_read e
    then read_again w (backoff w a op) again
    else filtered w a extra (some kind) rows op

unfoldable pub candidates : ℕ → World → Args → Text → Op → Op × ReadEnd
unfolding after_read
candidates zero w a extra op = (op, stop out_of_fuel)
candidates (suc fuel) w a extra op =
    let (rows, err) = w.rated op.tick in
    if w.ended op.tick
    then (op, stop ctx_error)
    else after_read err w a extra rows (candidates fuel w a extra) (tick_on op)

text_or_empty : Option Text → Text
text_or_empty none = []
text_or_empty (some t) = t

pub pending_cut : Memory → Text → Text
unfolding text_or_empty
pending_cut mem model = text_or_empty (lookup (norm_model model) mem.cut_next)

-- The cut that was pending when the open began is cleared.
pub clear_cut : Text → Args → Op → Op
clear_cut cut a op = if same cut [] then op else record op {
  memory = record (op.memory) { cut_next = delete (norm_model a.model) op.memory.cut_next };
}

pub after_walk : Text → World → Args → List RatedBid → Op × Outcome → Op × Outcome
unfolding clear_cut
after_walk cut w a pool (op, walk_exhausted n) =
    (clear_cut cut a op, no_available (retry_after op.memory (w.wall op.tick) a.model pool))
after_walk cut w a pool (op, got res) = (clear_cut cut a op, got res)
after_walk cut w a pool (op, o) = (op, o)

pub after_candidates : Text → World → Args → Op × ReadEnd → Op × Outcome
unfolding after_walk clear_cut
after_candidates cut w a (op, stop o) = (clear_cut cut a op, o)
after_candidates cut w a (op, walkable cands pool) =
    after_walk cut w a pool (open_excluding w a cands op)

unfoldable pub open_avoiding_cooling : World → Args → Op → Op × Outcome
unfolding after_candidates candidates pending_cut
open_avoiding_cooling w a op =
    after_candidates (pending_cut op.memory a.model) w a (candidates rounds w a [] op)
