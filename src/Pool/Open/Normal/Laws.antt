-- ===== src/Pool/Open/Normal/Laws.antt =====
-- A normal open as a whole (internal/pool/failover.go: openAvoidingCooling).
use morpheus_uplink.Base.{
  ℕ, zero, suc, ◌+◌, ◌≤◌, ◌<◌, ◌≡◌, ◌≢◌, refl, ◌∙◌, ◌⊎◌, inl, inr, Bool, true, false, Option, none,
  some, List, [], Text, same, arith, Bool-cases,
}
use morpheus_uplink.Pool.Candidates.{RatedBid, RatedError}
use morpheus_uplink.Pool.Candidates as Candidates
use morpheus_uplink.Pool.Transient.{CallError}
use morpheus_uplink.Pool.Transient.Reads.{is_transient_read}
use morpheus_uplink.Pool.Open.{
  World, Args, Op, Outcome, got, ctx_error, transient, chain_wait, wallet_needs_funds, no_alternate,
  walk_exhausted, stake_limit_invalid, stake_inputs_unreadable, stake_limit_exceeded, refused,
  no_available, out_of_fuel, tick_on, backoff, transient_max_retries, max_bid_attempts,
}
use morpheus_uplink.Pool.Open.Walk.{open_excluding, rounds}
use morpheus_uplink.Pool.Open.Walk.Trace.{Ended, EndedOut}
use morpheus_uplink.Pool.Open.Walk.Laws.{open_excluding-EndedOut}
use morpheus_uplink.Pool.Open.Normal.{
  ReadEnd, walkable, stop, read_end, read_again, filtered, after_read, candidates, clear_cut,
  after_walk, after_candidates, open_avoiding_cooling, pending_cut,
}

-- The read of the candidates sends nothing, keeps the retries in bounds and has fuel enough.
abbrev ReadDone : Op → Op × ReadEnd → Type 0
ReadDone op (q, e) =
    (q.posts ≡ op.posts) × (q.retries ≤ transient_max_retries) × (e ≢ stop out_of_fuel)

backoff_bounds :
    (w : World) (a : Args) (op : Op)
    → op.retries ≤ transient_max_retries
    → let r = backoff w a op in
      (r.0.posts ≡ op.posts)
      × (r.0.retries ≤ transient_max_retries)
      × ((r.2 ≡ false) ⊎ (r.0.retries ≡ op.retries + 1))
unfolding backoff
backoff_bounds w a op le = ground arith

read_end_lem : (o : Candidates.Outcome) → read_end o ≢ stop out_of_fuel
unfolding read_end
read_end_lem (Candidates.refused why) e = cc
read_end_lem (Candidates.found cands pool) e = cc

read_again-ReadDone :
    (w : World) (op : Op) (r : Op × ℕ × Bool) (again : Op → Op × ReadEnd)
    → r.0.posts ≡ op.posts
    → r.0.retries ≤ transient_max_retries
    → (r.2 ≡ false) ⊎ (r.0.retries ≡ op.retries + 1)
    → ((q : Op)
        → q.posts ≡ op.posts
        → q.retries ≤ transient_max_retries
        → q.retries ≡ op.retries + 1
        → ReadDone op (again q))
    → ReadDone op (read_again w r again)
unfolding read_again
read_again-ReadDone w op (q, d, true) again e le (inl spent) on = absurd (ground arith)
read_again-ReadDone w op (q, d, true) again e le (inr more) on = on q e le more
read_again-ReadDone w op (q, d, false) again e le how on = elim (Bool-cases (w.ended q.tick)) [
  | inl over ↦ rw over (e, le, λ c. cc)
  | inr live ↦ rw live (e, le, λ c. cc)
]

after_read-ReadDone :
    (o : Option (RatedError × CallError)) (w : World) (a : Args) (extra : Text)
    (rows : List RatedBid) (again : Op → Op × ReadEnd) (op : Op)
    → op.retries ≤ transient_max_retries
    → ((q : Op)
        → q.posts ≡ op.posts
        → q.retries ≤ transient_max_retries
        → q.retries ≡ op.retries + 1
        → ReadDone op (again q))
    → ReadDone op (after_read o w a extra rows again op)
unfolding after_read filtered
after_read-ReadDone none w a extra rows again op le on = (refl, le, read_end_lem _)
after_read-ReadDone (some (kind, e)) w a extra rows again op le on =
    elim (Bool-cases (w.ended op.tick)) [
      | inl over ↦ rw over (refl, le, λ c. cc)
      | inr live ↦ rw live (elim (Bool-cases (is_transient_read e)) [
        | inl soon ↦
            let r = backoff_bounds w a op le in
            rw soon (read_again-ReadDone w op (backoff w a op) again r.0 r.1 r.2 on)
        | inr final ↦ rw final (refl, le, read_end_lem _)
      ])
    ]

candidates-ReadDone :
    (fuel : ℕ) (w : World) (a : Args) (extra : Text) (op : Op)
    → op.retries ≤ transient_max_retries
    → transient_max_retries < op.retries + fuel
    → ReadDone op (candidates fuel w a extra op)
unfolding candidates
candidates-ReadDone zero w a extra op le lt = absurd (omega arith)
candidates-ReadDone (suc fuel) w a extra op le lt = elim (Bool-cases (w.ended op.tick)) [
  | inl over ↦ rw over (refl, le, λ c. cc)
  | inr live ↦ rw live (
      after_read-ReadDone (w.rated op.tick).1 w a extra (w.rated op.tick).0
        (candidates fuel w a extra) (tick_on op) le
        (λ q e few more.
          let d = candidates-ReadDone fuel w a extra q few (omega (arith, more)) in
          (d.0 ∙ e, d.1, d.2)))
]

-- The rounds of an operation that has spent no retry are enough.
pub candidates-ends :
    (w : World) (a : Args) (extra : Text) (op : Op)
    → op.retries ≡ 0
    → (candidates rounds w a extra op).1 ≢ stop out_of_fuel
candidates-ends w a extra op none_yet =
    (candidates-ReadDone rounds w a extra op (omega (arith, none_yet)) (omega (arith, none_yet))).2

-- Clearing the pending cut changes nothing of what was sent.
cleared : (cut : Text) (a : Args) (op : Op) → (clear_cut cut a op).posts ≡ op.posts
unfolding clear_cut
cleared cut a op = elim (Bool-cases (same cut [])) [ inl e ↦ rw e refl | inr e ↦ rw e refl ]

Ended-posts : (a : Args) (n : ℕ) (op q : Op) → q.posts ≡ op.posts → Ended a n op → Ended a n q
Ended-posts a n op q e h = record {
  older_unsent = rw e h.older_unsent;
  counted = rw e h.counted;
  allowed = rw e h.allowed;
}

after_walk-EndedOut :
    (cut : Text) (w : World) (a : Args) (pool : List RatedBid) (n : ℕ) (op : Op) (o : Outcome)
    → EndedOut a n (op, o)
    → EndedOut a n (after_walk cut w a pool (op, o))
unfolding after_walk
after_walk-EndedOut cut w a pool n op (walk_exhausted k) h =
    (Ended-posts a n op _ (cleared cut a op) h.0, λ e. cc)
after_walk-EndedOut cut w a pool n op (got res) h =
    (Ended-posts a n op _ (cleared cut a op) h.0, λ e. cc)
after_walk-EndedOut cut w a pool n op ctx_error h = h
after_walk-EndedOut cut w a pool n op (transient d) h = h
after_walk-EndedOut cut w a pool n op (chain_wait c) h = h
after_walk-EndedOut cut w a pool n op wallet_needs_funds h = h
after_walk-EndedOut cut w a pool n op no_alternate h = h
after_walk-EndedOut cut w a pool n op stake_limit_invalid h = h
after_walk-EndedOut cut w a pool n op stake_inputs_unreadable h = h
after_walk-EndedOut cut w a pool n op (stake_limit_exceeded need) h = h
after_walk-EndedOut cut w a pool n op (refused why) h = h
after_walk-EndedOut cut w a pool n op (no_available d) h = h
after_walk-EndedOut cut w a pool n op out_of_fuel h = h

after_candidates-EndedOut :
    (cut : Text) (w : World) (a : Args) (op : Op) (r : Op × ReadEnd)
    → op.posts ≡ []
    → ReadDone op r
    → EndedOut a max_bid_attempts (after_candidates cut w a r)
unfolding after_candidates
after_candidates-EndedOut cut w a op (q, stop o) clean (same_posts, le, fuel) = (
  record {
    older_unsent = rw (cleared cut a q, same_posts, clean) tt;
    counted = rw (cleared cut a q, same_posts, clean) (omega arith);
    allowed = rw (cleared cut a q, same_posts, clean) tt;
  },
  λ e. fuel (rw e refl),
)
after_candidates-EndedOut cut w a op (q, walkable cands pool) clean (same_posts, le, fuel) =
    let r = open_excluding w a cands q in
    after_walk-EndedOut cut w a pool max_bid_attempts r.0 r.1
      (open_excluding-EndedOut w a cands q (same_posts ∙ clean) le)

-- Whatever the router answers to the reads and to the opens, a normal open that has sent nothing and
-- retried nothing yet ends with an outcome of the program's, within the fuel of both loops. What was
-- shown of the walk holds of the whole: of the opens sent, each but the last failed as the provider's
-- fault or with a proof that nothing was sent; there are at most seven; and none goes to a bid whose
-- stake is above the cap or unknown while the cap is on.
pub open_avoiding_cooling-EndedOut :
    (w : World) (a : Args) (op : Op)
    → op.posts ≡ []
    → op.retries ≡ 0
    → EndedOut a max_bid_attempts (open_avoiding_cooling w a op)
unfolding open_avoiding_cooling
open_avoiding_cooling-EndedOut w a op clean zero_yet =
    after_candidates-EndedOut (pending_cut op.memory a.model) w a op (candidates rounds w a [] op)
      clean
      (candidates-ReadDone rounds w a [] op (omega (arith, zero_yet)) (omega (arith, zero_yet)))
