-- ===== src/Pool/Open/Walk/Laws.antt =====
-- What the walk over the bids guarantees, whatever the router, the clock and the context do
-- (internal/pool/failover.go: openExcluding).
use morpheus_uplink.Base.{
  ℕ, zero, suc, ◌+◌, ◌≤◌, ◌<◌, ◌≡◌, refl, sym, subst, ◌∙◌, ◌⊎◌, inl, inr, Bool, true, false, ◌&&◌,
  none, some, Option, List, [], ◌∷◌, arith, Bool-cases, if◌then◌else◌, ltb, leb, ◌==◌, not, is_some,
}
use morpheus_uplink.Pool.Candidates.{RatedBid, norm_prov, is_in}
use morpheus_uplink.Pool.Attempts.{Attempt, mark_cut, mark_stuck}
use morpheus_uplink.Pool.Transient.{
  CallError, OpenClass, maybe_sent, provider_fault, transient_pre_send, transient_window,
  wallet_funds, classify_open_err, is_transport_err,
}
use morpheus_uplink.Pool.Transient.Reads.{chain_wait_reason}
use morpheus_uplink.Pool.Open.{
  World, Args, Op, Post, Answer, opened, existing, failed, Outcome, remaining, backoff,
  transient_max_retries, max_bid_attempts, open_min_post_time, reconcile_reserve,
}
use morpheus_uplink.Pool.Open.Adopt.Quiet.{Quiet, reconcile-Quiet, adopt_existing-Quiet}
use morpheus_uplink.Pool.Open.Walk.{
  BidEnd, next_bid, stop, stopped, retry_or, stick_for, drop_attempt, maybe_sent_end, after_class,
  after_answer, new_attempt, this_post, sent, round, same_bid, rounds, Walk, finish, bid_end,
  walk_bid, walk, open_excluding, within_cap, within, fits, bid_stake,
}
use morpheus_uplink.Pool.Open.Walk.Trace.{
  retried, Unsent, Going, Ended, Going-Ended, EndedOut, BidDone, Posted, AllowedBid,
}

backoff_lem :
    (w : World) (a : Args) (op : Op)
    → let r = backoff w a op in
      (r.0.posts ≡ op.posts)
      × ((r.2 ≡ false) ⊎ ((r.0.retries ≡ op.retries + 1) × (r.0.retries ≤ transient_max_retries)))
unfolding backoff
backoff_lem w a op = ground arith

Posted-Ended :
    (a : Args) (n : ℕ) (p : Post) (op q : Op)
    → Posted a n p op
    → q.posts ≡ op.posts
    → Ended a (n + 1) q
Posted-Ended a n p op q h e = record {
  older_unsent = rw (e, h.posts) h.unsent;
  counted = rw e (omega (arith, h.counted, h.retries_le));
  allowed = rw e h.allowed;
}

Posted-Going :
    (a : Args) (n m : ℕ) (p : Post) (op q : Op)
    → Posted a n p op
    → Unsent p
    → q.posts ≡ op.posts
    → n + 1 + op.retries ≤ m + q.retries
    → q.retries ≤ transient_max_retries
    → Going a m q
Posted-Going a n m p op q h u e le cap = record {
  unsent = rw (e, h.posts) (u, h.unsent);
  counted = rw e (omega (arith, h.counted));
  retries_le = cap;
  allowed = rw e h.allowed;
}

-- What may follow a post, for the rounds that are left.
abbrev GoesOn : Args → ℕ → ℕ → (Op → Op × BidEnd) → Type 0
GoesOn a n retries again =
    (q : Op) → Going a n q → retries < q.retries → BidDone a (n + 1) (again q)

retry_or-BidDone :
    (a : Args) (n : ℕ) (w : World) (p : Post) (op : Op) (r : Op × ℕ × Bool)
    (again : Op → Op × BidEnd)
    → Posted a n p op
    → Unsent p
    → r.0.posts ≡ op.posts
    → (r.2 ≡ false) ⊎ ((r.0.retries ≡ op.retries + 1) × (r.0.retries ≤ transient_max_retries))
    → GoesOn a n op.retries again
    → BidDone a (n + 1) (retry_or w r again)
unfolding retry_or
retry_or-BidDone a n w p op (q, d, true) again h u e (inl x) on = absurd (ground arith)
retry_or-BidDone a n w p op (q, d, true) again h u e (inr (x, cap)) on =
    on q (Posted-Going a n n p op q h u e (omega (arith, x)) cap) (omega (arith, x))
retry_or-BidDone a n w p op (q, d, false) again h u e x on = elim (Bool-cases (w.ended q.tick)) [
  | inl over ↦ rw over (Posted-Ended a n p op q h e, λ c. cc)
  | inr on_yet ↦ rw on_yet (Posted-Ended a n p op q h e, λ c. cc)
]

stopped-BidDone :
    (a : Args) (n : ℕ) (p : Post) (op q : Op) (r : Op × Outcome)
    → Posted a n p op
    → q.posts ≡ op.posts
    → Quiet q r
    → BidDone a (n + 1) (stopped r)
unfolding stopped
stopped-BidDone a n p op q (s, o) h e quiet = (Posted-Ended a n p op s h (quiet.0 ∙ e), quiet.1)

maybe_sent_end-BidDone :
    (a : Args) (n : ℕ) (w : World) (p : Post) (op : Op) (att : Attempt) (e : CallError)
    → Posted a n p op
    → BidDone a (n + 1) (maybe_sent_end w a att e op)
unfolding maybe_sent_end
maybe_sent_end-BidDone a n w p op att e h =
    let cut : List Attempt =
      if is_transport_err e then mark_cut op.pending att.ref else op.pending in
    let q : Op = record op { pending = mark_stuck cut att.ref (chain_wait_reason e) } in
    stopped-BidDone a n p op q _ h refl
      (reconcile-Quiet w a (stick_for (chain_wait_reason e) att) (chain_wait_reason e) q)

after_class-BidDone :
    (c : OpenClass) (a : Args) (n : ℕ) (w : World) (b : RatedBid) (p : Post) (op : Op)
    (att : Attempt) (e : CallError) (again : Op → Op × BidEnd)
    → Posted a n p op
    → ((retried c ≡ true) → Unsent p)
    → GoesOn a n op.retries again
    → BidDone a (n + 1) (after_class c w a b att e again op)
unfolding after_class drop_attempt
after_class-BidDone wallet_funds a n w b p op att e again h u on =
    (Posted-Ended a n p op _ h refl, λ c. cc)
after_class-BidDone provider_fault a n w b p op att e again h u on =
    Posted-Going a n (n + 1) p op _ h (u refl) refl (omega arith) h.retries_le
after_class-BidDone transient_pre_send a n w b p op att e again h u on =
    let q : Op = drop_attempt op att.ref in
    let r = backoff_lem w a q in
    retry_or-BidDone a n w p op (backoff w a q) again h (u refl) r.0 r.1 on
after_class-BidDone transient_window a n w b p op att e again h u on =
    let q : Op = record op { window_retries = op.window_retries + 1 } in
    let r = backoff_lem w a q in
    retry_or-BidDone a n w p op (backoff w a q) again h (u refl) r.0 r.1 on
after_class-BidDone maybe_sent a n w b p op att e again h u on =
    maybe_sent_end-BidDone a n w p op att e h

after_answer-BidDone :
    (ans : Answer) (a : Args) (n : ℕ) (w : World) (p : Post) (op : Op) (att : Attempt)
    (again : Op → Op × BidEnd)
    → p.answer ≡ ans
    → Posted a n p op
    → GoesOn a n op.retries again
    → BidDone a (n + 1) (after_answer ans w a att again op p)
unfolding after_answer drop_attempt
after_answer-BidDone (opened id) a n w p op att again is h on =
    (Posted-Ended a n p op _ h refl, λ c. cc)
after_answer-BidDone (existing id) a n w p op att again is h on =
    stopped-BidDone a n p op (drop_attempt op att.ref) _ h refl
      (adopt_existing-Quiet w a id (drop_attempt op att.ref))
after_answer-BidDone (failed e) a n w p op att again is h on =
    after_class-BidDone (classify_open_err (some e) p.elapsed p.window_ok) a n w p.bid p op att e
      again h (λ r. simp is r) on

within-AllowedBid :
    (c o : Option ℕ) (cap : ℕ)
    → within c o ≡ true
    → c ≡ some cap
    → (st : ℕ) × (o ≡ some st) × (st ≤ cap)
unfolding within fits
within-AllowedBid none o cap ok e = absurd (ground arith)
within-AllowedBid (some c) none cap ok e = absurd (ground arith)
within-AllowedBid (some c) (some st) cap ok e = (st, refl, ground arith)

within_cap-AllowedBid : (a : Args) (b : RatedBid) → within_cap a b ≡ true → AllowedBid a b
unfolding within_cap
within_cap-AllowedBid a b ok cap e = within-AllowedBid a.cap (bid_stake a b) cap ok e

sent-Posted :
    (a : Args) (n : ℕ) (w : World) (b : RatedBid) (op : Op)
    → within_cap a b ≡ true
    → Going a n op
    → Posted a n (this_post w a b op) (sent w a b op)
unfolding sent this_post
sent-Posted a n w b op ok g = record {
  before = op.posts;
  posts = refl;
  unsent = g.unsent;
  counted = omega (arith, g.counted);
  retries_le = g.retries_le;
  allowed = (within_cap-AllowedBid a b ok, g.allowed);
}

Ended-suc : (a : Args) (n : ℕ) (op : Op) → Going a n op → Ended a (n + 1) op
Ended-suc a n op g =
    let e = Going-Ended a n op g in
    record {
      older_unsent = e.older_unsent;
      counted = omega (arith, e.counted);
      allowed = e.allowed;
    }

round-BidDone :
    (a : Args) (n : ℕ) (w : World) (b : RatedBid) (op : Op) (again : Op → Op × BidEnd)
    → within_cap a b ≡ true
    → Going a n op
    → GoesOn a n op.retries again
    → BidDone a (n + 1) (round w a b again op)
unfolding round
round-BidDone a n w b op again ok g on = elim (Bool-cases (w.ended op.tick)) [
  | inl over ↦ rw over (Ended-suc a n op g, λ c. cc)
  | inr live ↦
      rw live (elim (Bool-cases (ltb (remaining w a op) (open_min_post_time + reconcile_reserve))) [
        | inl late ↦ rw late (Ended-suc a n op g, λ c. cc)
        | inr early ↦ rw early (
            after_answer-BidDone (w.post op.tick b.id) a n w (this_post w a b op) (sent w a b op)
              (new_attempt w a b op) again (unfold this_post in refl) (sent-Posted a n w b op ok g)
              (unfold sent in on))
      ])
]

same_bid-BidDone :
    (fuel : ℕ) (a : Args) (n : ℕ) (w : World) (b : RatedBid) (op : Op)
    → within_cap a b ≡ true
    → Going a n op
    → transient_max_retries < op.retries + fuel
    → BidDone a (n + 1) (same_bid fuel w a b op)
unfolding same_bid
same_bid-BidDone zero a n w b op ok g lt = absurd (omega (arith, g.retries_le))
same_bid-BidDone (suc fuel) a n w b op ok g lt =
    round-BidDone a n w b op (same_bid fuel w a b) ok g
      (λ q going more. same_bid-BidDone fuel a n w b q ok going (omega arith))

finish-EndedOut :
    (a : Args) (s : Walk)
    → Going a s.attempts s.op
    → s.attempts ≤ max_bid_attempts
    → EndedOut a max_bid_attempts (finish s)
unfolding finish
finish-EndedOut a s g le =
    let e = Going-Ended a s.attempts s.op g in
    let f : Ended a max_bid_attempts s.op = record {
      older_unsent = e.older_unsent;
      counted = omega (arith, e.counted);
      allowed = e.allowed;
    } in
    elim (Bool-cases (ltb 0 s.skipped)) [
      | inl skips ↦ rw skips (f, λ c. cc)
      | inr all_allowed ↦ rw all_allowed (elim (Bool-cases (s.attempts == 0)) [
        | inl nothing ↦ rw nothing (f, λ c. cc)
        | inr something ↦ rw something (f, λ c. cc)
      ])
    ]

bid_end-EndedOut :
    (a : Args) (n : ℕ) (r : Op × BidEnd) (s : Walk) (again : Walk → Op × Outcome)
    → n + 1 ≤ max_bid_attempts
    → s.attempts ≡ n + 1
    → BidDone a (n + 1) r
    → ((t : Walk)
        → Going a t.attempts t.op
        → t.attempts ≤ max_bid_attempts
        → EndedOut a max_bid_attempts (again t))
    → EndedOut a max_bid_attempts (bid_end r s again)
unfolding bid_end
bid_end-EndedOut a n (op, next_bid) s again le e g on =
    on (record s { op = op }) (subst (λ k. Going a k op) (sym e) g) (omega (arith, e))
bid_end-EndedOut a n (op, stop o) s again le e (f, ends) on = (
  record { older_unsent = f.older_unsent; counted = omega (arith, f.counted); allowed = f.allowed },
  ends,
)

walk-EndedOut :
    (a : Args) (w : World) (bs : List RatedBid) (s : Walk)
    → Going a s.attempts s.op
    → s.attempts ≤ max_bid_attempts
    → EndedOut a max_bid_attempts (walk w a bs s)
unfolding walk walk_bid
walk-EndedOut a w [] s g le = finish-EndedOut a s g le
walk-EndedOut a w (b ∷ bs) s g le = elim (Bool-cases (leb max_bid_attempts s.attempts)) [
  | inl full ↦ rw full (finish-EndedOut a s g le)
  | inr room ↦ rw room (elim (Bool-cases (is_in s.tried (norm_prov b.provider))) [
    | inl again ↦ rw again (walk-EndedOut a w bs s g le)
    | inr new ↦ rw new (elim (Bool-cases (within_cap a b)) [
      | inr above ↦ rw above (walk-EndedOut a w bs _ g le)
      | inl ok ↦ rw ok (
          bid_end-EndedOut a s.attempts (same_bid rounds w a b s.op) _ (walk w a bs) (ground arith)
            refl (same_bid-BidDone rounds a s.attempts w b s.op ok g (omega arith))
            (λ t going few. walk-EndedOut a w bs t going few))
    ])
  ])
]

-- Whatever the router answers and whatever the clock, the random source and the context do, an open
-- operation that has sent nothing yet ends with an outcome of the program's. Of the opens that it
-- sends, each but the last failed as the provider's fault or with a proof that nothing was sent, so an
-- open that may have been sent is never sent again; it sends at most seven; and none of them by a bid
-- whose stake is above the cap or cannot be computed while the cap is on.
pub open_excluding-EndedOut :
    (w : World) (a : Args) (alts : List RatedBid) (op : Op)
    → op.posts ≡ []
    → op.retries ≤ transient_max_retries
    → EndedOut a max_bid_attempts (open_excluding w a alts op)
unfolding open_excluding
open_excluding-EndedOut w a alts op clean few =
    let g : Going a 0 op = record {
      unsent = rw clean tt;
      counted = rw clean (omega arith);
      retries_le = few;
      allowed = rw clean tt;
    } in
    let e = Going-Ended a 0 op g in
    let f : Ended a max_bid_attempts op = record {
      older_unsent = e.older_unsent;
      counted = omega (arith, e.counted);
      allowed = e.allowed;
    } in
    elim (Bool-cases a.cap_invalid) [
      | inl invalid ↦ simp invalid (f, λ c. cc)
      | inr valid ↦ elim (Bool-cases (is_some a.cap && not a.inputs_read)) [
        | inr ready ↦ simp (valid, ready) (walk-EndedOut a w alts _ g (omega arith))
        | inl unread ↦ elim (Bool-cases (w.ended op.tick)) [
          | inl over ↦ simp (valid, unread, over) (f, λ c. cc)
          | inr live ↦ simp (valid, unread, live) (f, λ c. cc)
        ]
      ]
    ]
