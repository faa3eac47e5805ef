-- ===== src/Pool/Reconcile/Boot/Trail.antt =====
-- What a boot reconcile closes, one by one (internal/pool/reconcile.go: plan, runCloses).
use mathlib.Core.List.{append_assoc, append-nil}
use morpheus_uplink.Base.{
  ℕ, ◌+◌, ◌≡◌, refl, sym, ◌∙◌, ◌⊎◌, inl, inr, Bool, true, false, none, some, List, [], ◌∷◌, ◌++◌,
  arith, length, count_if, keep, Bool-cases, Option-cases, lookup, if_either, not,
}
use morpheus_uplink.Pool.Slot.{WalletSlot, SlotToken}
use morpheus_uplink.Pool.Lease.{norm_model}
use morpheus_uplink.Pool.Lease.Sweep.{cut_close_mark}
use morpheus_uplink.Pool.Attempts.{ChainSession}
use morpheus_uplink.Pool.Scan.{Wallet}
use morpheus_uplink.Pool.Scan.Close.{
  CloseOutcome, close_ok, close_already, close_failed, close_cut, close_with_token,
}
use morpheus_uplink.Pool.Reconcile.{
  Decision, adopt_usable, close_expired, close_excluded, close_duplicate, skip_unconfigured,
  skip_young,
}
use morpheus_uplink.Pool.Reconcile.Boot.{
  Decided, Tally, Planning, CloseEnv, Ran, skip_one, usable_until, pooled_longer, adopt_one,
  sort_one, sort_all, defer_rest, counted, close_one, with_slot, run_closes,
}

abbrev pub is_expired : Decided → Bool
is_expired (s, close_expired) = true
is_expired _ = false

abbrev pub is_excluded : Decided → Bool
is_excluded (s, close_excluded) = true
is_excluded _ = false

abbrev pub is_duplicate : Decided → Bool
is_duplicate (s, close_duplicate) = true
is_duplicate _ = false

abbrev pub is_closed : CloseOutcome → Bool
is_closed close_ok = true
is_closed close_already = true
is_closed _ = false

abbrev Lists : List Decided → Planning → Planning → Type 0
Lists ds g q =
    (q.expired ≡ g.expired ++ keep is_expired ds)
    × (q.excluded ≡ g.excluded ++ keep is_excluded ds)
    × (q.duplicates ≡ g.duplicates ++ keep is_duplicate ds)

-- Each close of the plan is listed once, with those of its reason and in their order.
pub sort_all-Lists :
    (ds : List Decided) (g : Planning)
    → let q = sort_all false ds g in
      (q.expired ≡ g.expired ++ keep is_expired ds)
      × (q.excluded ≡ g.excluded ++ keep is_excluded ds)
      × (q.duplicates ≡ g.duplicates ++ keep is_duplicate ds)
unfolding sort_all sort_one skip_one adopt_one
sort_all-Lists [] g =
    (sym (append-nil g.expired), sym (append-nil g.excluded), sym (append-nil g.duplicates))
sort_all-Lists ((s, adopt_usable) ∷ ds) g =
    if_either (λ (q : Planning). Lists ds g (sort_all false ds q))
      (pooled_longer (lookup (norm_model s.model_agent_id) g.pool.entries) (usable_until s))
      (skip_one g) (adopt_one s g) (λ h. sort_all-Lists ds (skip_one g))
      (λ h. sort_all-Lists ds (adopt_one s g))
sort_all-Lists ((s, close_expired) ∷ ds) g =
    let h = sort_all-Lists ds (sort_one false (s, close_expired) g) in
    (h.0 ∙ append_assoc g.expired ((s, close_expired) ∷ []) (keep is_expired ds), h.1, h.2)
sort_all-Lists ((s, close_excluded) ∷ ds) g =
    let h = sort_all-Lists ds (sort_one false (s, close_excluded) g) in
    (h.0, h.1 ∙ append_assoc g.excluded ((s, close_excluded) ∷ []) (keep is_excluded ds), h.2)
sort_all-Lists ((s, close_duplicate) ∷ ds) g =
    let h = sort_all-Lists ds (sort_one false (s, close_duplicate) g) in
    (h.0, h.1, h.2 ∙ append_assoc g.duplicates ((s, close_duplicate) ∷ []) (keep is_duplicate ds))
sort_all-Lists ((s, skip_unconfigured) ∷ ds) g = sort_all-Lists ds (skip_one g)
sort_all-Lists ((s, skip_young) ∷ ds) g = sort_all-Lists ds (skip_one g)

abbrev held_back : CloseEnv → ℕ → Wallet → Bool
held_back env i w = (cut_close_mark w.pool.closing_ids (env.now i)).1

-- The wallet without the marks that have run out.
abbrev pub unmarked : CloseEnv → ℕ → Wallet → Wallet
unmarked env i w = record w {
  pool = record w.pool { closing_ids = (cut_close_mark w.pool.closing_ids (env.now i)).0 };
}

-- The closes in the order of the list, each sent once with the slot held, with what came of each, up to
-- the ones that are left because a cut close is pending or the slot is busy.
pub data Trail (env : CloseEnv)
    : ℕ → List Decided → Wallet → List CloseOutcome → List Decided → Type 0 where
  over : (i : ℕ) (w : Wallet) → Trail env i [] w [] []
  stops :
      (i : ℕ) (d : Decided) (ds : List Decided) (w : Wallet)
      → ((cut_close_mark w.pool.closing_ids (env.now i)).1 ≡ true) ⊎ (env.free_slot i ≡ none)
      → Trail env i (d ∷ ds) w [] (d ∷ ds)
  closes :
      (i : ℕ) (s : ChainSession) (d : Decision) (ds : List Decided) (w v : Wallet)
      (slot : WalletSlot) (tok : SlotToken) (o : CloseOutcome) (outs : List CloseOutcome)
      (left : List Decided)
      → (cut_close_mark w.pool.closing_ids (env.now i)).1 ≡ false
      → env.free_slot i ≡ some (slot, tok)
      → close_with_token slot
          (some tok)
          s.id
          (env.close i)
          (env.reread i)
          (env.now i)
          (unmarked env i w)
        ≡ (v, o)
      → Trail env (i + 1) ds v outs left
      → Trail env i ((s, d) ∷ ds) w (o ∷ outs) left

-- The counts are those of what came of the closes.
pub record Run (env : CloseEnv) (i : ℕ) (ds : List Decided) (w : Wallet) (t : Tally) (r : Ran)
    : Type 0 where
  pub outcomes : List CloseOutcome
  pub left : List Decided
  pub trail : Trail env i ds w outcomes left
  pub closed : r.tally.closed ≡ t.closed + count_if is_closed outcomes
  pub failed : r.tally.failed ≡ t.failed + count_if (λ o. not (is_closed o)) outcomes
  pub deferred : r.tally.deferred ≡ t.deferred + length left

counted-closed :
    (o : CloseOutcome) (t : Tally)
    → ((counted o t).closed ≡ t.closed + count_if is_closed (o ∷ []))
      × ((counted o t).failed ≡ t.failed + count_if (λ o. not (is_closed o)) (o ∷ []))
      × ((counted o t).deferred ≡ t.deferred)
unfolding counted
counted-closed close_ok t = (omega arith, omega arith, refl)
counted-closed close_already t = (omega arith, omega arith, refl)
counted-closed close_failed t = (omega arith, omega arith, refl)
counted-closed close_cut t = (omega arith, omega arith, refl)

stops-Run :
    (env : CloseEnv) (i : ℕ) (d : Decided) (ds : List Decided) (w v : Wallet) (t : Tally)
    → ((cut_close_mark w.pool.closing_ids (env.now i)).1 ≡ true) ⊎ (env.free_slot i ≡ none)
    → Run env i (d ∷ ds) w t (defer_rest (d ∷ ds) v t)
unfolding defer_rest
stops-Run env i d ds w v t why = record {
  outcomes = [];
  left = d ∷ ds;
  trail = stops i d ds w why;
  closed = omega arith;
  failed = omega arith;
  deferred = refl;
}

closes-Run :
    (env : CloseEnv) (i : ℕ) (s : ChainSession) (d : Decision) (ds : List Decided) (w : Wallet)
    (slot : WalletSlot) (tok : SlotToken) (t : Tally) (r : Ran)
    → held_back env i w ≡ false
    → env.free_slot i ≡ some (slot, tok)
    → let q = close_one env i s.id slot tok (unmarked env i w) t in
      Run env (i + 1) ds q.0 q.1 r → Run env i ((s, d) ∷ ds) w t r
unfolding close_one
closes-Run env i s d ds w slot tok t r go free rest =
    let x =
      close_with_token slot (some tok) s.id (env.close i) (env.reread i) (env.now i)
        (unmarked env i w) in
    let c = counted-closed x.1 t in
    record {
      outcomes = x.1 ∷ rest.outcomes;
      left = rest.left;
      trail = closes i s d ds w x.0 slot tok x.1 rest.outcomes rest.left go free refl rest.trail;
      closed = omega (arith, c.0, rest.closed);
      failed = omega (arith, c.1, rest.failed);
      deferred = omega (arith, c.2, rest.deferred);
    }

pub run_closes-Run :
    (env : CloseEnv) (i : ℕ) (ds : List Decided) (w : Wallet) (t : Tally)
    → Run env i ds w t (run_closes env i ds w t)
unfolding run_closes with_slot
run_closes-Run env i [] w t = record {
  outcomes = [];
  left = [];
  trail = over i w;
  closed = omega arith;
  failed = omega arith;
  deferred = omega arith;
}
run_closes-Run env i ((s, d) ∷ ds) w t =
    let v : Wallet = unmarked env i w in
    elim (Bool-cases (held_back env i w)) [
      | inl hold ↦ rw hold (stops-Run env i (s, d) ds w v t (inl hold))
      | inr go ↦ rw go (elim (Option-cases (env.free_slot i)) [
        | inl busy ↦ rw (busy, with_slot) (stops-Run env i (s, d) ds w v t (inr busy))
        | inr ((slot, tok), free) ↦
            rw (free, with_slot)
              (let q = close_one env i s.id slot tok v t in
                closes-Run env i s d ds w slot tok t _ go free
                  (run_closes-Run env (i + 1) ds q.0 q.1))
      ])
    ]
