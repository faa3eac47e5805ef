-- ===== src/Pool/Scan/Collected.antt =====
-- What the first loop of a scan collects (internal/pool/sweep.go: applyScan).
use morpheus_uplink.Base.{
  ℕ, ◌-◌, ◌*◌, ◌≡◌, ◌⊎◌, inl, inr, true, false, ◌&&◌, Option, none, some, List, [], ◌∷◌, ◌++◌, Text,
  ltb, not, All, arith, Map, lookup, insert, delete, to_lower, Bool-cases, dec_text, ite,
}
use morpheus_uplink.Pool.Slot.{second}
use morpheus_uplink.Pool.Lease.{norm_model, closing_marked}
use morpheus_uplink.Pool.Candidates.{is_in, norm_prov}
use morpheus_uplink.Pool.Attempts.{ChainSession, Attempt, match_attempt}
use morpheus_uplink.Pool.Reconcile.{prune_grace}
use morpheus_uplink.Pool.Scan.{
  Wallet, Reason, expired, duplicate, retired, excluded, Due, Sorted, held, idle_state, add_to, owe,
  usable, sort_unheld, sort_matched, sort_one, sort_open, retired_id, group_of,
}

-- Some predicate of sessions, over what the loops collect.
module _ (P : ChainSession → Type 0) where
  abbrev pub AllDue : List Due → Type 0
  AllDue due = All (λ d. P d.session) due

  abbrev pub Groups : Map (List ChainSession) → Type 0
  Groups m = All (λ r. All P r.1) m

  pub record Sound (t : Sorted) : Type 0 where
    pub due : AllDue t.due
    pub matched : Groups t.matched
    pub older : Groups t.older

  pub AllDue-append : (xs ys : List Due) → AllDue xs → AllDue ys → AllDue (xs ++ ys)
  AllDue-append [] ys h g = g
  AllDue-append (x ∷ xs) ys h g = (h.0, AllDue-append xs ys h.1 g)

  All-snoc : (ss : List ChainSession) (s : ChainSession) → All P ss → P s → All P (ss ++ s ∷ [])
  All-snoc [] s h p = (p, tt)
  All-snoc (x ∷ xs) s h p = (h.0, All-snoc xs s h.1 p)

  add_to-Groups :
      (m : Map (List ChainSession)) (key : Text) (s : ChainSession)
      → Groups m
      → P s
      → Groups (add_to m key s)
  unfolding add_to insert lookup
  add_to-Groups [] key s h p = ((p, tt), tt)
  add_to-Groups ((j, ss) ∷ m) key s h p =
      elim (dec_text j key)
        as (λ d. Groups (
          ite d ((j, group_of (ite d (some ss) (lookup key m)) ++ s ∷ []) ∷ m)
            ((j, ss) ∷ insert key (group_of (ite d (some ss) (lookup key m)) ++ s ∷ []) m))) [
              | yes e ↦ (All-snoc ss s h.0 p, h.1)
              | no ne ↦ (h.0, add_to-Groups m key s h.1 p)
            ]

  pub delete-Groups : (m : Map (List ChainSession)) (key : Text) → Groups m → Groups (delete key m)
  unfolding delete
  delete-Groups [] key h = tt
  delete-Groups ((j, ss) ∷ m) key h =
      elim (dec_text j key) as (λ d. Groups (ite d (delete key m) ((j, ss) ∷ delete key m))) [
        | yes e ↦ delete-Groups m key h.1
        | no ne ↦ (h.0, delete-Groups m key h.1)
      ]

  owe-Sound : (t : Sorted) (s : ChainSession) (why : Reason) → Sound t → P s → Sound (owe t s why)
  unfolding owe
  owe-Sound t s why h p = record {
    due = AllDue-append t.due _ h.due (p, tt);
    matched = h.matched;
    older = h.older;
  }

  sort_unheld-Sound :
      (w : Wallet) (now : ℕ) (barred : List Text) (t : Sorted) (s : ChainSession)
      → Sound t
      → P s
      → Sound (sort_unheld w now barred t s)
  unfolding sort_unheld
  sort_unheld-Sound w now barred t s h p = elim (Bool-cases (usable now s)) [
    | inr late ↦ rw late (owe-Sound t s expired h p)
    | inl fresh ↦ rw fresh (elim (Bool-cases (is_in w.known_dup (to_lower s.id))) [
      | inl dup ↦ rw dup (owe-Sound t s duplicate h p)
      | inr once ↦ rw once (elim (Bool-cases (ltb (now - prune_grace) (s.opened_at * second))) [
        | inl young ↦ rw young h
        | inr old ↦ rw old (elim (Bool-cases (retired_id w.pool s)) [
          | inl gone ↦ rw gone (owe-Sound t s retired h p)
          | inr active ↦ rw active (elim (Bool-cases (is_in barred (norm_prov s.provider))) [
            | inl out ↦ rw out (owe-Sound t s excluded h p)
            | inr ok ↦ rw ok (record {
              due = h.due;
              matched = h.matched;
              older = add_to-Groups t.older (norm_model s.model_agent_id) s h.older p;
            })
          ])
        ])
      ])
    ])
  ]

  sort_matched-Sound :
      (o : Option Attempt) (w : Wallet) (now : ℕ) (barred : List Text) (t : Sorted)
      (s : ChainSession)
      → Sound t
      → P s
      → Sound (sort_matched o w now barred t s)
  unfolding sort_matched
  sort_matched-Sound none w now barred t s h p = sort_unheld-Sound w now barred t s h p
  sort_matched-Sound (some a) w now barred t s h p = elim (Bool-cases (usable now s)) [
    | inr late ↦
        rw late
          (owe-Sound _ s expired (record { due = h.due; matched = h.matched; older = h.older }) p)
    | inl fresh ↦ rw fresh (record {
      due = h.due;
      matched = add_to-Groups t.matched a.model s h.matched p;
      older = h.older;
    })
  ]

  sort_one-Sound :
      (w : Wallet) (now : ℕ) (barred : List Text) (t : Sorted) (s : ChainSession)
      → Sound t
      → (closing_marked w.pool s.id ≡ false
          → (held w.pool (to_lower s.id) ≡ false) ⊎ (idle_state (lookup s.id w.pool.sess) ≡ true)
          → P s)
      → Sound (sort_one w now barred t s)
  unfolding sort_one
  sort_one-Sound w now barred t s h p = elim (Bool-cases (closing_marked w.pool s.id)) [
    | inl marked ↦ rw marked h
    | inr free ↦ rw free (elim (Bool-cases (held w.pool (to_lower s.id))) [
      | inr loose ↦
          rw loose
            (sort_matched-Sound (match_attempt t.pending s) w now barred t s h (p free (inl loose)))
      | inl tied ↦
          rw tied (elim (Bool-cases (not (usable now s) && idle_state (lookup s.id w.pool.sess))) [
            | inl over ↦ rw over (owe-Sound t s expired h (p free (inr (ground (arith, over)))))
            | inr stays ↦ rw stays h
          ])
    ])
  ]

  abbrev pub MayOwe : Wallet → ChainSession → Type 0
  MayOwe w s =
      closing_marked w.pool s.id ≡ false
      → (held w.pool (to_lower s.id) ≡ false) ⊎ (idle_state (lookup s.id w.pool.sess) ≡ true)
      → P s

  pub sort_open-Sound :
      (ss : List ChainSession) (w : Wallet) (now : ℕ) (barred : List Text) (t : Sorted)
      → Sound t
      → All (MayOwe w) ss
      → Sound (sort_open w now barred t ss)
  unfolding sort_open
  sort_open-Sound [] w now barred t h p = h
  sort_open-Sound (s ∷ ss) w now barred t h p =
      sort_open-Sound ss w now barred (sort_one w now barred t s)
        (sort_one-Sound w now barred t s h p.0) p.1
