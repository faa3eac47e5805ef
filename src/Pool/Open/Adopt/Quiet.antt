-- ===== src/Pool/Open/Adopt/Quiet.antt =====
-- The search for an open's session sends nothing (internal/pool/failover.go: reconcile, adoptExisting).
use morpheus_uplink.Base.{
  ℕ, zero, suc, ◌+◌, ◌/◌, ◌≡◌, refl, ◌∙◌, ◌≢◌, ◌⊎◌, inl, inr, Bool, true, false, ◌||◌, ◌&&◌, Option,
  none, some, List, [], ◌∷◌, arith, Text, Bool-cases, if◌then◌else◌, keep, ltb, ◌==◌, not, is_some,
  lookup, same,
}
use morpheus_uplink.Pool.Attempts.{
  ChainSession, Attempt, ChainWait, wallet_tx_pending, chain_congested, other_wait, match_attempt,
}
use morpheus_uplink.Pool.Lease.Drop.{OpenResult}
use morpheus_uplink.Pool.Open.{
  World, Args, Op, Outcome, out_of_fuel, tick_on, remaining, reconcile_gap, read_call_timeout,
  reconcile_polls,
}
use morpheus_uplink.Pool.Open.Adopt.{
  can_match, match_among, match_open, found_or, listed_or, give_up, polls, reconcile, Unusable,
  why_not, adopt_named, adopt_unless, adoptable, is_provider_excluded, adopted_or_not, named_or_not,
  adopt_existing,
}

-- The posts are the ones before, and the outcome is one of the program's.
abbrev pub Quiet : Op → Op × Outcome → Type 0
Quiet op p = (p.0.posts ≡ op.posts) × (p.1 ≢ out_of_fuel)

give_up-Quiet : (reason : ChainWait) (op : Op) → Quiet op (give_up reason op)
unfolding give_up
give_up-Quiet other_wait op = (refl, λ e. cc)
give_up-Quiet wallet_tx_pending op = (refl, λ e. cc)
give_up-Quiet chain_congested op = (refl, λ e. cc)

match_among-posts :
    (op : Op) (att : Attempt) (ss : List ChainSession) → (match_among op att ss).0.posts ≡ op.posts
unfolding match_among
match_among-posts op att [] = refl
match_among-posts op att (s ∷ ss) = refl

found_or-Quiet :
    (op : Op) (p : Op × Option OpenResult) (again : Op → Op × Outcome)
    → p.0.posts ≡ op.posts
    → ((q : Op) → q.posts ≡ op.posts → Quiet op (again q))
    → Quiet op (found_or p again)
unfolding found_or
found_or-Quiet op (q, some res) again e h = (e, λ x. cc)
found_or-Quiet op (q, none) again e h = h q e

listed_or-Quiet :
    (o : Option (List ChainSession)) (op : Op) (now : ℕ) (att : Attempt) (again : Op → Op × Outcome)
    → ((q : Op) → q.posts ≡ op.posts → Quiet op (again q))
    → Quiet op (listed_or o op now att again)
unfolding listed_or match_open
listed_or-Quiet none op now att again h = h op refl
listed_or-Quiet (some listed) op now att again h =
    found_or-Quiet op _ again (match_among-posts op att (keep (can_match op now att) listed)) h

polls-Quiet :
    (n : ℕ) (first : Bool) (w : World) (a : Args) (att : Attempt) (reason : ChainWait) (op q : Op)
    → q.posts ≡ op.posts
    → Quiet op (polls n first w a att reason q)
unfolding polls
polls-Quiet zero first w a att reason op q e = let g = give_up-Quiet reason q in (g.0 ∙ e, g.1)
polls-Quiet (suc n) first w a att reason op q e =
    let g = give_up-Quiet reason (tick_on q) in
    elim (Bool-cases (
      not first
      && (ltb (remaining w a q) (reconcile_gap + read_call_timeout / 2)
          || not (w.sleeps q.tick reconcile_gap)))) [
            | inl cut ↦ rw cut (g.0 ∙ e, g.1)
            | inr on ↦ rw on (elim (Bool-cases (remaining w a (tick_on q) == 0)) [
              | inl over ↦ rw over (g.0 ∙ e, g.1)
              | inr left ↦ rw left (
                  let l =
                    listed_or-Quiet (w.list (q.tick + 1)) (record q { tick = q.tick + 2 })
                      (w.now (q.tick + 2)) att (polls n false w a att reason)
                      (λ r same_posts.
                        polls-Quiet n false w a att reason (record q { tick = q.tick + 2 }) r
                          same_posts) in
                  (l.0 ∙ e, l.1))
            ])
          ]

pub reconcile-Quiet :
    (w : World) (a : Args) (att : Attempt) (reason : ChainWait) (op : Op)
    → Quiet op (reconcile w a att reason op)
unfolding reconcile
reconcile-Quiet w a att reason op = polls-Quiet reconcile_polls true w a att reason op op refl

adopt_named-posts :
    (o : Option Attempt) (op : Op) (s : ChainSession) → (adopt_named o op s).0.posts ≡ op.posts
unfolding adopt_named
adopt_named-posts none op s = refl
adopt_named-posts (some att) op s = refl

adopted_or_not-Quiet :
    (op : Op) (p : Op × (OpenResult ⊎ Unusable))
    → p.0.posts ≡ op.posts
    → Quiet op (adopted_or_not p)
unfolding adopted_or_not
adopted_or_not-Quiet op (q, inl res) e = (e, λ x. cc)
adopted_or_not-Quiet op (q, inr why) e = (e, λ x. cc)

adopt_unless-posts :
    (o : Option Unusable) (op : Op) (s : ChainSession) → (adopt_unless o op s).0.posts ≡ op.posts
unfolding adopt_unless
adopt_unless-posts (some why) op s = refl
adopt_unless-posts none op s = adopt_named-posts (match_attempt op.pending s) op s

adoptable-posts :
    (op : Op) (now : ℕ) (model : Text) (s : ChainSession) (retired barred : Bool)
    → (adoptable op now model s retired barred).0.posts ≡ op.posts
unfolding adoptable
adoptable-posts op now model s retired barred =
    adopt_unless-posts (why_not op now model s retired barred) op s

named_or_not-Quiet :
    (o : Option ChainSession) (w : World) (a : Args) (id : Text) (op : Op)
    → Quiet op (named_or_not o w a id op)
unfolding named_or_not
named_or_not-Quiet none w a id op = ground arith
named_or_not-Quiet (some read) w a id op =
    let s : ChainSession = if same read.id [] then record read { id = id } else read in
    adopted_or_not-Quiet op _ (
      adoptable-posts (tick_on op) (w.now (op.tick + 1)) a.model s
        (is_some (lookup s.id op.pool.retired)) (is_provider_excluded op s.provider))

pub adopt_existing-Quiet :
    (w : World) (a : Args) (id : Text) (op : Op) → Quiet op (adopt_existing w a id op)
unfolding adopt_existing
adopt_existing-Quiet w a id op = named_or_not-Quiet (w.read op.tick id) w a id op
