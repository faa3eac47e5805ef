-- ===== src/Pool/Open/Walk/Bids.antt =====
-- The opens of a walk go to bids of the list that it walks (internal/pool/failover.go: openExcluding).
use morpheus_uplink.Base.{
  ℕ, zero, suc, ◌+◌, ◌≡◌, sym, subst, Bool, true, false, ◌&&◌, List, [], ◌∷◌, arith, Bool-cases,
  if◌then◌else◌, ltb, leb, ◌==◌, some, not, is_some, All, inl, inr,
}
use morpheus_uplink.Pool.Candidates.{RatedBid, norm_prov, is_in}
use morpheus_uplink.Pool.Attempts.{Attempt, mark_cut, mark_stuck}
use morpheus_uplink.Pool.Transient.{
  CallError, OpenClass, maybe_sent, provider_fault, transient_pre_send, transient_window,
  wallet_funds, classify_open_err, is_transport_err,
}
use morpheus_uplink.Pool.Transient.Reads.{chain_wait_reason}
use morpheus_uplink.Pool.Open.{
  World, Args, Op, Post, Answer, opened, existing, failed, Outcome, remaining, backoff,
  max_bid_attempts, open_min_post_time, reconcile_reserve,
}
use morpheus_uplink.Pool.Open.Adopt.{reconcile, adopt_existing}
use morpheus_uplink.Pool.Open.Adopt.Quiet.{reconcile-Quiet, adopt_existing-Quiet}
use morpheus_uplink.Pool.Open.Walk.{
  BidEnd, next_bid, stop, stopped, retry_or, stick_for, drop_attempt, maybe_sent_end, after_class,
  after_answer, new_attempt, this_post, sent, round, same_bid, rounds, Walk, finish, bid_end,
  walk_bid, walk, open_excluding, within_cap,
}

abbrev pub AllPosts : (RatedBid → Type 0) → Op → Type 0
AllPosts P op = All (λ (p : Post). P p.bid) op.posts

backoff-posts : (w : World) (a : Args) (op : Op) → (backoff w a op).0.posts ≡ op.posts
unfolding backoff
backoff-posts w a op = ground arith

module _ (P : RatedBid → Type 0) where
  abbrev Kept : {X : Type 0} → Op × X → Type 0
  Kept (op, x) = AllPosts P op

  moved : (op q : Op) → q.posts ≡ op.posts → AllPosts P op → AllPosts P q
  moved op q e h = subst (All (λ (p : Post). P p.bid)) (sym e) h

  retry_or-Kept :
      (w : World) (r : Op × ℕ × Bool) (again : Op → Op × BidEnd)
      → AllPosts P r.0
      → ((q : Op) → AllPosts P q → Kept (again q))
      → Kept (retry_or w r again)
  unfolding retry_or
  retry_or-Kept w (q, d, true) again h on = on q h
  retry_or-Kept w (q, d, false) again h on = elim (Bool-cases (w.ended q.tick)) [
    | inl over ↦ rw over h
    | inr live ↦ rw live h
  ]

  stopped-Kept : (q : Op) (r : Op × Outcome) → r.0.posts ≡ q.posts → AllPosts P q → Kept (stopped r)
  unfolding stopped
  stopped-Kept q (op, o) e h = moved q op e h

  after_class-Kept :
      (c : OpenClass) (w : World) (a : Args) (b : RatedBid) (att : Attempt) (e : CallError)
      (again : Op → Op × BidEnd) (op : Op)
      → AllPosts P op
      → ((q : Op) → AllPosts P q → Kept (again q))
      → Kept (after_class c w a b att e again op)
  unfolding after_class drop_attempt maybe_sent_end
  after_class-Kept wallet_funds w a b att e again op h on = h
  after_class-Kept provider_fault w a b att e again op h on = h
  after_class-Kept transient_pre_send w a b att e again op h on =
      let q : Op = drop_attempt op att.ref in
      retry_or-Kept w (backoff w a q) again (moved q (backoff w a q).0 (backoff-posts w a q) h) on
  after_class-Kept transient_window w a b att e again op h on =
      let q : Op = record op { window_retries = op.window_retries + 1 } in
      retry_or-Kept w (backoff w a q) again (moved q (backoff w a q).0 (backoff-posts w a q) h) on
  after_class-Kept maybe_sent w a b att e again op h on =
      let cut : List Attempt =
        if is_transport_err e then mark_cut op.pending att.ref else op.pending in
      let reason = chain_wait_reason e in
      let q : Op = record op { pending = mark_stuck cut att.ref reason } in
      stopped-Kept q (reconcile w a (stick_for reason att) reason q)
        (reconcile-Quiet w a (stick_for reason att) reason q).0 h

  after_answer-Kept :
      (ans : Answer) (w : World) (a : Args) (att : Attempt) (again : Op → Op × BidEnd) (op : Op)
      (p : Post)
      → AllPosts P op
      → ((q : Op) → AllPosts P q → Kept (again q))
      → Kept (after_answer ans w a att again op p)
  unfolding after_answer drop_attempt
  after_answer-Kept (opened id) w a att again op p h on = h
  after_answer-Kept (existing id) w a att again op p h on =
      let q : Op = drop_attempt op att.ref in
      stopped-Kept q (adopt_existing w a id q) (adopt_existing-Quiet w a id q).0 h
  after_answer-Kept (failed e) w a att again op p h on =
      after_class-Kept (classify_open_err (some e) p.elapsed p.window_ok) w a p.bid att e again op h
        on

  round-Kept :
      (w : World) (a : Args) (b : RatedBid) (again : Op → Op × BidEnd) (op : Op)
      → P b
      → AllPosts P op
      → ((q : Op) → AllPosts P q → Kept (again q))
      → Kept (round w a b again op)
  unfolding round sent this_post
  round-Kept w a b again op ok h on = elim (Bool-cases (w.ended op.tick)) [
    | inl over ↦ rw over h
    | inr live ↦
        rw live
          (elim (Bool-cases (ltb (remaining w a op) (open_min_post_time + reconcile_reserve))) [
            | inl late ↦ rw late h
            | inr early ↦ rw early (
                after_answer-Kept (w.post op.tick b.id) w a (new_attempt w a b op) again
                  (sent w a b op) (this_post w a b op) (ok, h) on)
          ])
  ]

  same_bid-Kept :
      (fuel : ℕ) (w : World) (a : Args) (b : RatedBid) (op : Op)
      → P b
      → AllPosts P op
      → Kept (same_bid fuel w a b op)
  unfolding same_bid
  same_bid-Kept zero w a b op ok h = h
  same_bid-Kept (suc fuel) w a b op ok h =
      round-Kept w a b (same_bid fuel w a b) op ok h (λ q g. same_bid-Kept fuel w a b q ok g)

  finish-Kept : (s : Walk) → AllPosts P s.op → Kept (finish s)
  unfolding finish
  finish-Kept s h = elim (Bool-cases (ltb 0 s.skipped)) [
    | inl skips ↦ rw skips h
    | inr allowed ↦ rw allowed (elim (Bool-cases (s.attempts == 0)) [
      | inl nothing ↦ rw nothing h
      | inr something ↦ rw something h
    ])
  ]

  bid_end-Kept :
      (r : Op × BidEnd) (s : Walk) (again : Walk → Op × Outcome)
      → Kept r
      → ((t : Walk) → AllPosts P t.op → Kept (again t))
      → Kept (bid_end r s again)
  unfolding bid_end
  bid_end-Kept (op, next_bid) s again h on = on (record s { op = op }) h
  bid_end-Kept (op, stop o) s again h on = h

  walk-Kept :
      (w : World) (a : Args) (bs : List RatedBid) (s : Walk)
      → All P bs
      → AllPosts P s.op
      → Kept (walk w a bs s)
  unfolding walk walk_bid
  walk-Kept w a [] s all h = finish-Kept s h
  walk-Kept w a (b ∷ bs) s (ok, all) h = elim (Bool-cases (leb max_bid_attempts s.attempts)) [
    | inl full ↦ rw full (finish-Kept s h)
    | inr room ↦ rw room (elim (Bool-cases (is_in s.tried (norm_prov b.provider))) [
      | inl again ↦ rw again (walk-Kept w a bs s all h)
      | inr new ↦ rw new (elim (Bool-cases (within_cap a b)) [
        | inr above ↦ rw above (walk-Kept w a bs _ all h)
        | inl fits ↦ rw fits (
            bid_end-Kept (same_bid rounds w a b s.op) _ (walk w a bs)
              (same_bid-Kept rounds w a b s.op ok h) (λ t g. walk-Kept w a bs t all g))
      ])
    ])
  ]

  -- What holds of all the bids of the list holds of those that were opened.
  pub open_excluding-AllPosts :
      (w : World) (a : Args) (alts : List RatedBid) (op : Op)
      → All P alts
      → AllPosts P op
      → AllPosts P (open_excluding w a alts op).0
  unfolding open_excluding
  open_excluding-AllPosts w a alts op all h = elim (Bool-cases a.cap_invalid) [
    | inl invalid ↦ simp invalid h
    | inr valid ↦ elim (Bool-cases (is_some a.cap && not a.inputs_read)) [
      | inl unread ↦ simp (valid, unread) h
      | inr ready ↦ simp (valid, ready) (walk-Kept w a alts _ all h)
    ]
  ]
