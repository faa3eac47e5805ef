-- ===== src/Pool/Reconcile/Boot/Counts.antt =====
-- How the counts of a boot reconcile add up (internal/pool/reconcile.go: plan, runCloses).
use mathlib.Core.Option.{some-injective}
use morpheus_uplink.Base.{
  ℕ, zero, suc, ◌+◌, ◌-◌, ◌≡◌, refl, ◌∙◌, inl, inr, Bool, true, false, Option, none, some, List, [],
  ◌∷◌, ◌++◌, Text, arith, length, length-append, Bool-cases, lookup, if_either, not, subst, is_some,
  Map, map, ◌&&◌, ltb, ◌/◌,
}
use morpheus_uplink.Pool.Slot.{WalletSlot, SlotToken, second}
use morpheus_uplink.Pool.Lease.{norm_model}
use morpheus_uplink.Pool.Lease.Sweep.{cut_close_mark}
use morpheus_uplink.Pool.Attempts.{ChainSession}
use morpheus_uplink.Pool.Scan.{Wallet}
use morpheus_uplink.Pool.Scan.Close.{CloseOutcome, close_ok, close_already, close_failed, close_cut}
use morpheus_uplink.Pool.Reconcile.{
  Decision, adopt_usable, close_expired, close_excluded, close_duplicate, skip_unconfigured,
  skip_young, plan_reconcile, settle_from, verdict, best_from, prune_grace,
}
use morpheus_uplink.Pool.Reconcile.Boot.{
  Decided, Tally, Planning, Planned, CloseEnv, Ran, skip_one, usable_until, pooled_longer,
  adopt_one, sort_one, sort_all, empty_planning, first, max_boot_closes, cut_off, ids_of,
  plan_listed, verifiable, defer_rest, counted, close_one, with_slot, run_closes,
}

-- What has been decided about the sessions that were looked at.
abbrev pub settled : Tally → ℕ
settled t = t.adopted + t.skipped + t.closed + t.failed + t.deferred

abbrev to_close : Planning → ℕ
to_close g = length g.expired + length g.excluded + length g.duplicates

abbrev looked_at : Planning → ℕ
looked_at g = settled g.tally + to_close g

sort_one-looked_at :
    (late : Bool) (d : Decided) (g : Planning)
    → (looked_at (sort_one late d g) ≡ looked_at g + 1)
      × ((sort_one late d g).tally.listed ≡ g.tally.listed)
      × ((sort_one late d g).tally.deferred ≡ g.tally.deferred)
unfolding sort_one skip_one adopt_one
sort_one-looked_at late (s, adopt_usable) g =
    if_either
      (λ (q : Planning).
        (looked_at q ≡ looked_at g + 1)
        × (q.tally.listed ≡ g.tally.listed)
        × (q.tally.deferred ≡ g.tally.deferred))
      (pooled_longer (lookup (norm_model s.model_agent_id) g.pool.entries) (usable_until s))
      (skip_one g) (adopt_one s g) (λ h. (omega arith, refl, refl)) (λ h. (omega arith, refl, refl))
sort_one-looked_at late (s, close_expired) g =
    (omega (arith, length-append g.expired ((s, close_expired) ∷ [])), refl, refl)
sort_one-looked_at late (s, close_excluded) g =
    (omega (arith, length-append g.excluded ((s, close_excluded) ∷ [])), refl, refl)
sort_one-looked_at true (s, close_duplicate) g = (omega arith, refl, refl)
sort_one-looked_at false (s, close_duplicate) g =
    (omega (arith, length-append g.duplicates ((s, close_duplicate) ∷ [])), refl, refl)
sort_one-looked_at late (s, skip_unconfigured) g = (omega arith, refl, refl)
sort_one-looked_at late (s, skip_young) g = (omega arith, refl, refl)

sort_all-looked_at :
    (late : Bool) (ds : List Decided) (g : Planning)
    → (looked_at (sort_all late ds g) ≡ looked_at g + length ds)
      × ((sort_all late ds g).tally.listed ≡ g.tally.listed)
      × ((sort_all late ds g).tally.deferred ≡ g.tally.deferred)
unfolding sort_all
sort_all-looked_at late [] g = (omega arith, refl, refl)
sort_all-looked_at late (d ∷ ds) g =
    let h = sort_one-looked_at late d g in
    let r = sort_all-looked_at late ds (sort_one late d g) in
    (omega (arith, h.0, r.0), r.1 ∙ h.1, r.2 ∙ h.2)

-- Planning closes nothing.
sort_one-closed :
    (late : Bool) (d : Decided) (g : Planning)
    → ((sort_one late d g).tally.closed ≡ g.tally.closed)
      × ((sort_one late d g).tally.failed ≡ g.tally.failed)
unfolding sort_one skip_one adopt_one
sort_one-closed late (s, adopt_usable) g =
    if_either
      (λ (q : Planning). (q.tally.closed ≡ g.tally.closed) × (q.tally.failed ≡ g.tally.failed))
      (pooled_longer (lookup (norm_model s.model_agent_id) g.pool.entries) (usable_until s))
      (skip_one g) (adopt_one s g) (λ h. (refl, refl)) (λ h. (refl, refl))
sort_one-closed late (s, close_expired) g = (refl, refl)
sort_one-closed late (s, close_excluded) g = (refl, refl)
sort_one-closed true (s, close_duplicate) g = (refl, refl)
sort_one-closed false (s, close_duplicate) g = (refl, refl)
sort_one-closed late (s, skip_unconfigured) g = (refl, refl)
sort_one-closed late (s, skip_young) g = (refl, refl)

pub sort_all-closed :
    (late : Bool) (ds : List Decided) (g : Planning)
    → ((sort_all late ds g).tally.closed ≡ g.tally.closed)
      × ((sort_all late ds g).tally.failed ≡ g.tally.failed)
unfolding sort_all
sort_all-closed late [] g = (refl, refl)
sort_all-closed late (d ∷ ds) g =
    let h = sort_one-closed late d g in
    let r = sort_all-closed late ds (sort_one late d g) in (r.0 ∙ h.0, r.1 ∙ h.1)

length-first : (n : ℕ) (ds : List Decided) → length (first n ds) + (length ds - n) ≡ length ds
unfolding first
length-first zero ds = omega arith
length-first (suc n) [] = omega arith
length-first (suc n) (d ∷ ds) = omega (arith, length-first n ds)

-- A plan has decided about every session, but for the closes that it is to run.
abbrev pub Accounted : ℕ → Tally → ℕ → Type 0
Accounted n t left = (t.listed ≡ n) × (settled t + left ≡ n)

cut_off-Accounted :
    (w : Wallet) (g : Planning) (n : ℕ)
    → g.tally.listed ≡ n
    → g.tally.deferred ≡ 0
    → looked_at g ≡ n
    → Accounted n (cut_off w g).tally (length (cut_off w g).closes)
unfolding cut_off
cut_off-Accounted w g n listed no_deferral looked =
    let all : List Decided = g.expired ++ (g.excluded ++ g.duplicates) in
    let total : length all ≡ to_close g = omega (
      arith,
      length-append g.expired (g.excluded ++ g.duplicates),
      length-append g.excluded g.duplicates,
    ) in
    (listed, omega (arith, no_deferral, looked, total, length-first max_boot_closes all))

counted-settled :
    (out : CloseOutcome) (t : Tally)
    → (settled (counted out t) ≡ settled t + 1) × ((counted out t).listed ≡ t.listed)
unfolding counted
counted-settled close_ok t = (omega arith, refl)
counted-settled close_already t = (omega arith, refl)
counted-settled close_failed t = (omega arith, refl)
counted-settled close_cut t = (omega arith, refl)

with_slot-either :
    (P : Ran → Type 0) (o : Option (WalletSlot × SlotToken)) (go : WalletSlot → SlotToken → Ran)
    (busy : Ran)
    → ((slot : WalletSlot) (tok : SlotToken) → P (go slot tok))
    → P busy
    → P (with_slot o go busy)
unfolding with_slot
with_slot-either P none go busy goes not_free = not_free
with_slot-either P (some (slot, tok)) go busy goes not_free = goes slot tok

abbrev pub Settles : Tally → ℕ → Ran → Type 0
Settles t n r = (settled r.tally ≡ settled t + n) × (r.tally.listed ≡ t.listed)

defer_rest-Settles :
    (ds : List Decided) (w : Wallet) (t : Tally) → Settles t (length ds) (defer_rest ds w t)
unfolding defer_rest
defer_rest-Settles ds w t = (omega arith, refl)

close_one-settled :
    (env : CloseEnv) (i : ℕ) (id : Text) (slot : WalletSlot) (tok : SlotToken) (w : Wallet)
    (t : Tally)
    → let q = (close_one env i id slot tok w t).1 in
      (settled q ≡ settled t + 1) × (q.listed ≡ t.listed)
unfolding close_one
close_one-settled env i id slot tok w t = counted-settled _ t

pub run_closes-Settles :
    (env : CloseEnv) (i : ℕ) (ds : List Decided) (w : Wallet) (t : Tally)
    → Settles t (length ds) (run_closes env i ds w t)
unfolding run_closes
run_closes-Settles env i [] w t = (omega arith, refl)
run_closes-Settles env i ((s, d) ∷ ds) w t =
    let P : Ran → Type 0 = Settles t (length ((s, d) ∷ ds)) in
    let c = cut_close_mark w.pool.closing_ids (env.now i) in
    let v : Wallet = record w { pool = record w.pool { closing_ids = c.0 } } in
    let busy : Ran = defer_rest ((s, d) ∷ ds) v t in
    let next : WalletSlot → SlotToken → Ran =
      λ slot tok. let r = close_one env i s.id slot tok v t in run_closes env (i + 1) ds r.0 r.1 in
    if_either P c.1 busy (with_slot (env.free_slot i) next busy)
      (λ h. defer_rest-Settles ((s, d) ∷ ds) v t)
      (λ h.
        with_slot-either P (env.free_slot i) next busy
          (λ slot tok.
            let one = close_one-settled env i s.id slot tok v t in
            let r = close_one env i s.id slot tok v t in
            let rest = run_closes-Settles env (i + 1) ds r.0 r.1 in
            (omega (arith, one.0, rest.0), rest.1 ∙ one.1))
          (defer_rest-Settles ((s, d) ∷ ds) v t))

settle_from-length :
    (judge : ChainSession → Decision) (young : ℕ) (best : Map (ℕ × ChainSession))
    (ss : List ChainSession) (i : ℕ)
    → length (settle_from judge young best ss i) ≡ length ss
unfolding settle_from
settle_from-length judge young best [] i = refl
settle_from-length judge young best (s ∷ ss) i =
    omega (arith, settle_from-length judge young best ss (i + 1))

plan_reconcile-length :
    (ss : List ChainSession) (now : ℕ) (configured : List Text) (known : Bool)
    (excluded : List Text)
    → length (plan_reconcile ss now configured known excluded) ≡ length ss
unfolding plan_reconcile
plan_reconcile-length ss now configured known excluded =
    let cfg : List Text = map norm_model configured in
    let judge = verdict now cfg (known && ltb 0 (length cfg)) excluded in
    settle_from-length judge ((now - prune_grace) / second) (best_from judge ss 0 []) ss 0

pub plan_listed-Accounted :
    (ss : List ChainSession) (configured : Option (List Text)) (excluded : List Text) (late : Bool)
    (now : ℕ) (w : Wallet) (p : Planned)
    → plan_listed ss configured excluded late now w ≡ some p
    → Accounted (length ss) p.tally (length p.closes)
unfolding plan_listed
plan_listed-Accounted ss configured excluded late now w p e =
    elim (Bool-cases (not (verifiable ss))) [
      | inl bad ↦ absurd (ground (arith, rw bad at e))
      | inr good ↦
          let ds : List Decided =
            plan_reconcile ss now (ids_of configured) (is_some configured) excluded in
          let n : length ds ≡ length ss =
            plan_reconcile-length ss now (ids_of configured) (is_some configured) excluded in
          let g0 : Planning = empty_planning (length ss) w.pool in
          let h = sort_all-looked_at late ds g0 in
          let zero_yet : looked_at g0 ≡ 0 = unfold empty_planning in refl in
          let a =
            cut_off-Accounted w (sort_all late ds g0) (length ss)
              (h.1 ∙ (unfold empty_planning in refl)) (h.2 ∙ (unfold empty_planning in refl))
              (omega (arith, h.0, zero_yet, n)) in
          subst (λ (q : Planned). Accounted (length ss) q.tally (length q.closes))
            (some-injective (cut_off w (sort_all late ds g0)) p (rw good at e)) a
    ]
