-- ===== src/Pool/Open/Walk/Trace.antt =====
-- What the opens of one operation look like (internal/pool/failover.go: openExcluding).
use morpheus_uplink.Base.{
  ℕ, ◌+◌, ◌≤◌, ◌≡◌, ◌≢◌, Bool, true, false, some, List, [], ◌∷◌, arith, length, All,
}
use morpheus_uplink.Pool.Transient.{
  OpenClass, maybe_sent, provider_fault, transient_pre_send, transient_window, wallet_funds,
  classify_open_err,
}
use morpheus_uplink.Pool.Candidates.{RatedBid}
use morpheus_uplink.Pool.Open.{
  Args, Op, Post, Answer, opened, existing, failed, Outcome, out_of_fuel, transient_max_retries,
}
use morpheus_uplink.Pool.Open.Walk.{BidEnd, next_bid, stop, bid_stake}

abbrev pub retried : OpenClass → Bool
retried maybe_sent = false
retried provider_fault = true
retried transient_pre_send = true
retried transient_window = true
retried wallet_funds = false

-- The post failed with a class that is the provider's fault or that proves that nothing was sent.
abbrev pub failed_unsent : Answer → ℕ → Bool → Bool
failed_unsent (opened id) elapsed window_ok = false
failed_unsent (existing id) elapsed window_ok = false
failed_unsent (failed e) elapsed window_ok = retried (classify_open_err (some e) elapsed window_ok)

abbrev pub Unsent : Post → Type 0
Unsent p = failed_unsent p.answer p.elapsed p.window_ok ≡ true

-- While the cap is on, the bid has a stake, which is not above it.
abbrev pub AllowedBid : Args → RatedBid → Type 0
AllowedBid a b = (cap : ℕ) → a.cap ≡ some cap → (st : ℕ) × (bid_stake a b ≡ some st) × (st ≤ cap)

abbrev pub Allowed : Args → Post → Type 0
Allowed a p = AllowedBid a p.bid

-- All but the newest.
abbrev pub OlderUnsent : List Post → Type 0
OlderUnsent [] = Unit
OlderUnsent (p ∷ ps) = All Unsent ps

-- An operation that goes on after `n` attempts.
pub record Going (a : Args) (n : ℕ) (op : Op) : Type 0 where
  pub unsent : All Unsent op.posts
  pub counted : length op.posts ≤ n + op.retries
  pub retries_le : op.retries ≤ transient_max_retries
  pub allowed : All (Allowed a) op.posts

-- One that has ended.
pub record Ended (a : Args) (n : ℕ) (op : Op) : Type 0 where
  pub older_unsent : OlderUnsent op.posts
  pub counted : length op.posts ≤ n + transient_max_retries
  pub allowed : All (Allowed a) op.posts

All-older : (ps : List Post) → All Unsent ps → OlderUnsent ps
All-older [] h = tt
All-older (p ∷ ps) h = h.1

pub Going-Ended : (a : Args) (n : ℕ) (op : Op) → Going a n op → Ended a n op
Going-Ended a n op g = record {
  older_unsent = All-older op.posts g.unsent;
  counted = omega (arith, g.counted, g.retries_le);
  allowed = g.allowed;
}

abbrev pub EndedOut : Args → ℕ → Op × Outcome → Type 0
EndedOut a n p = Ended a n p.0 × (p.1 ≢ out_of_fuel)

abbrev pub BidDone : Args → ℕ → Op × BidEnd → Type 0
BidDone a n (op, next_bid) = Going a n op
BidDone a n (op, stop o) = EndedOut a n (op, o)

-- What follows a post of an operation that was going: it has the post, and nothing is said of it yet.
pub record Posted (a : Args) (n : ℕ) (p : Post) (op : Op) : Type 0 where
  pub before : List Post
  pub posts : op.posts ≡ p ∷ before
  pub unsent : All Unsent before
  pub counted : length op.posts ≤ n + 1 + op.retries
  pub retries_le : op.retries ≤ transient_max_retries
  pub allowed : All (Allowed a) op.posts
