-- ===== src/Pool/Reconcile/Boot/Accounts.antt =====
-- The counts of a boot reconcile are those of what it did (internal/pool/reconcile.go).
use mathlib.Core.Option.{some-injective}
use morpheus_uplink.Pool.Reconcile.Boot.Trail.{
  is_expired, is_excluded, is_duplicate, is_closed, sort_all-Lists, Trail, run_closes-Run,
}
use morpheus_uplink.Base.{
  ap, keep, count_if, ℕ, ◌+◌, ◌-◌, ◌≡◌, refl, ◌∙◌, inl, inr, false, Option, some, List, ◌++◌, Text,
  arith, length, Bool-cases, not, subst, is_some, Option-cases,
}
use morpheus_uplink.Pool.Attempts.{ChainSession}
use morpheus_uplink.Pool.Scan.{Wallet}
use morpheus_uplink.Pool.Scan.Close.{CloseOutcome}
use morpheus_uplink.Pool.Reconcile.{plan_reconcile}
use morpheus_uplink.Pool.Reconcile.Boot.{
  Decided, Planning, Planned, CloseEnv, Ran, sort_all, empty_planning, first, max_boot_closes,
  cut_off, ids_of, plan_listed, plan, verifiable, run_closes, after_plan, reconcile_once,
}
use morpheus_uplink.Pool.Reconcile.Boot.Counts.{
  settled, sort_all-closed, run_closes-Settles, plan_listed-Accounted,
}

-- What the plan of a boot reconcile closes: the expired ones, those of excluded providers and the
-- duplicates, in this order.
abbrev pub to_be_closed : List Decided → List Decided
to_be_closed ds = keep is_expired ds ++ (keep is_excluded ds ++ keep is_duplicate ds)

-- The counts of a pass.
pub record Pass (ss : List ChainSession) (ds : List Decided) (env : CloseEnv) (r : Ran)
    : Type 0 where
  pub planned : Wallet
  pub outcomes : List CloseOutcome
  pub left : List Decided
  pub trail : Trail env 0 (first max_boot_closes (to_be_closed ds)) planned outcomes left
  pub listed : r.tally.listed ≡ length ss
  pub closed : r.tally.closed ≡ count_if is_closed outcomes
  pub failed : r.tally.failed ≡ count_if (λ o. not (is_closed o)) outcomes
  pub deferred : r.tally.deferred ≡ (length (to_be_closed ds) - max_boot_closes) + length left
  pub all : settled r.tally ≡ length ss

plan_listed-Lists :
    (ss : List ChainSession) (configured : Option (List Text)) (excluded : List Text) (now : ℕ)
    (w : Wallet) (p : Planned)
    → plan_listed ss configured excluded false now w ≡ some p
    → let all =
        to_be_closed (plan_reconcile ss now (ids_of configured) (is_some configured) excluded) in
      (p.closes ≡ first max_boot_closes all)
      × (p.tally.closed ≡ 0)
      × (p.tally.failed ≡ 0)
      × (p.tally.deferred ≡ length all - max_boot_closes)
unfolding plan_listed
plan_listed-Lists ss configured excluded now w p e = elim (Bool-cases (not (verifiable ss))) [
  | inl bad ↦ absurd (ground (arith, rw bad at e))
  | inr good ↦
      let ds : List Decided =
        plan_reconcile ss now (ids_of configured) (is_some configured) excluded in
      let g0 : Planning = empty_planning (length ss) w.pool in
      let g : Planning = sort_all false ds g0 in
      let l = sort_all-Lists ds g0 in
      let none_run = sort_all-closed false ds g0 in
      let all : g.expired ++ (g.excluded ++ g.duplicates) ≡ to_be_closed ds =
        unfold empty_planning in rw (l.0, l.1, l.2) refl in
      subst
        (λ (q : Planned).
          (q.closes ≡ first max_boot_closes (to_be_closed ds))
          × (q.tally.closed ≡ 0)
          × (q.tally.failed ≡ 0)
          × (q.tally.deferred ≡ length (to_be_closed ds) - max_boot_closes))
        (some-injective (cut_off w g) p (rw good at e))
        (unfold cut_off empty_planning in
          (
            ap (first max_boot_closes) all,
            none_run.0,
            none_run.1,
            ap (λ (l : List Decided). length l - max_boot_closes) all,
          ))
]

-- A pass of the reconcile that is not refused for an error of its reads closes, one after the other,
-- sessions that its plan lists to be closed, each at most once and at most twenty, until a cut close is
-- pending or the slot is busy. Its closed count is of the closes that landed, its failed count of the
-- other ones sent, and its deferred count of what is left and of what is past the twenty; with the
-- adopted and the skipped they add up to the sessions listed.
pub reconcile_once-Accounted :
    (ss : List ChainSession) (configured : Option (List Text)) (excluded : List Text) (now : ℕ)
    (env : CloseEnv) (w : Wallet) (r : Ran)
    → reconcile_once (some ss) configured excluded now env w ≡ some r
    → Pass ss (plan_reconcile ss now (ids_of configured) (is_some configured) excluded) env r
unfolding reconcile_once plan
reconcile_once-Accounted ss configured excluded now env w r e =
    let q = plan_listed ss configured excluded false now w in
    elim (Option-cases q) [
      | inl refused ↦ absurd (unfold after_plan in ground (arith, rw refused at e))
      | inr (p, ok) ↦
          let ds = plan_reconcile ss now (ids_of configured) (is_some configured) excluded in
          let a = plan_listed-Accounted ss configured excluded false now w p ok in
          let l = plan_listed-Lists ss configured excluded now w p ok in
          let c = run_closes-Settles env 0 p.closes p.wallet p.tally in
          let t = run_closes-Run env 0 p.closes p.wallet p.tally in
          subst (Pass ss ds env)
            (some-injective (run_closes env 0 p.closes p.wallet p.tally) r
              (unfold after_plan in (rw ok at e)))
            (record {
              planned = p.wallet;
              outcomes = t.outcomes;
              left = t.left;
              trail =
                  subst (λ (x : List Decided). Trail env 0 x p.wallet t.outcomes t.left) l.0
                    t.trail;
              listed = c.1 ∙ a.0;
              closed = omega (arith, t.closed, l.1);
              failed = omega (arith, t.failed, l.2);
              deferred = omega (arith, t.deferred, l.3);
              all = omega (arith, c.0, a.1);
            })
    ]
