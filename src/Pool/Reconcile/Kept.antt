-- ===== src/Pool/Reconcile/Kept.antt =====
-- For each usable session the boot plan keeps one of its model (internal/pool/reconcile.go:
-- PlanReconcile).
use mathlib.Core.Option.{some-injective}
use morpheus_uplink.Base.{
  ℕ, ◌+◌, ◌≡◌, inl, inr, true, ◌&&◌, Option, none, some, List, [], ◌∷◌, arith, Text, Map, lookup,
  Bool-cases, Option-cases, refl, sym, ap, ◌⊎◌, insert, lookup-insert, lookup-insert_self,
  if◌then◌else◌, if_pos, if_neg, dec_text, is_some, zero, suc, subst,
}
use morpheus_uplink.Pool.Lease.{norm_model}
use morpheus_uplink.Pool.Attempts.{ChainSession}
use morpheus_uplink.Pool.Reconcile.{
  Decision, adopt_usable, close_expired, close_excluded, close_duplicate, skip_unconfigured,
  skip_young, is_adopted, takes, best_from, settle, settle_from,
}

abbrev pub Plan : Type 0
Plan = List (ChainSession × Decision)

-- What stands at an index of a plan.
unfoldable pub decided : Plan → ℕ → Option (ChainSession × Decision)
decided [] i = none
decided (d ∷ ds) zero = some d
decided (d ∷ ds) (suc i) = decided ds i

-- The session at an index of a list.
unfoldable pub session_at : List ChainSession → ℕ → Option ChainSession
session_at [] k = none
session_at (s ∷ ss) zero = some s
session_at (s ∷ ss) (suc k) = session_at ss k

adopted-usable : (d : Decision) → is_adopted d ≡ true → d ≡ adopt_usable
adopted-usable adopt_usable h = refl
adopted-usable close_expired h = absurd (ground (arith, h))
adopted-usable close_excluded h = absurd (ground (arith, h))
adopted-usable close_duplicate h = absurd (ground (arith, h))
adopted-usable skip_unconfigured h = absurd (ground (arith, h))
adopted-usable skip_young h = absurd (ground (arith, h))

-- The session that stands for a model at the end of the first pass is one that the pass adopts, at its
-- index.
best_from-stands :
    (judge : ChainSession → Decision) (ss : List ChainSession) (i : ℕ)
    (best : Map (ℕ × ChainSession)) (m : Text) (j : ℕ) (t : ChainSession)
    → lookup m (best_from judge ss i best) ≡ some (j, t)
    → (lookup m best ≡ some (j, t))
      ⊎ ((k : ℕ) × (j ≡ i + k)
          × (session_at ss k ≡ some t)
          × (judge t ≡ adopt_usable)
          × (norm_model t.model_agent_id ≡ m))
unfolding best_from session_at
best_from-stands judge [] i best m j t h = inl h
best_from-stands judge (s ∷ ss) i best m j t h =
    let n : Text = norm_model s.model_agent_id in
    elim (Bool-cases (is_adopted (judge s) && takes s (lookup n best))) [
      | inr stays ↦ elim (best_from-stands judge ss (i + 1) best m j t (rw stays at h)) [
        | inl old ↦ inl old
        | inr (k, at_k, there, adopts, of_m) ↦ inr (suc k, omega (arith, at_k), there, adopts, of_m)
      ]
      | inl moves ↦
          elim (best_from-stands judge ss (i + 1) (insert n (i, s) best) m j t (rw moves at h)) [
            | inr (k, at_k, there, adopts, of_m) ↦
                inr (suc k, omega (arith, at_k), there, adopts, of_m)
            | inl new ↦ elim (dec_text n m) [
              | no other ↦ inl (rw (lookup-insert n m (i, s) best, if_neg _ other) at new)
              | yes its ↦
                  let e : ◌≡◌ {A = ℕ × ChainSession} (i, s) (j, t) =
                    some-injective (i, s) (j, t)
                      (rw (lookup-insert n m (i, s) best, if_pos _ its) at new) in
                  let same_one : s ≡ t = ap (λ (p : ℕ × ChainSession). p.1) e in
                  let same_index : i ≡ j = ap (λ (p : ℕ × ChainSession). p.0) e in
                  inr (
                    0,
                    omega (arith, same_index),
                    ap some same_one,
                    rw (sym same_one) (adopted-usable (judge s) (ground (arith, moves))),
                    rw (sym same_one) its,
                  )
            ]
          ]
    ]

-- Once a session stands for a model, one does to the end of the pass.
best_from-stays :
    (judge : ChainSession → Decision) (ss : List ChainSession) (i : ℕ)
    (best : Map (ℕ × ChainSession)) (m : Text)
    → is_some (lookup m best) ≡ true
    → is_some (lookup m (best_from judge ss i best)) ≡ true
unfolding best_from
best_from-stays judge [] i best m h = h
best_from-stays judge (s ∷ ss) i best m h =
    let n : Text = norm_model s.model_agent_id in
    elim (Bool-cases (is_adopted (judge s) && takes s (lookup n best))) [
      | inr stays ↦ rw stays (best_from-stays judge ss (i + 1) best m h)
      | inl moves ↦ rw moves (
          best_from-stays judge ss (i + 1) (insert n (i, s) best) m
            (ground (arith, lookup-insert n m (i, s) best, h)))
    ]

-- The map after one session.
abbrev takes_or :
    (ChainSession → Decision) → ChainSession → ℕ → Map (ℕ × ChainSession) → Map (ℕ × ChainSession)
takes_or judge s i best =
    if is_adopted (judge s) && takes s (lookup (norm_model s.model_agent_id) best)
    then insert (norm_model s.model_agent_id) (i, s) best
    else best

takes_or-some :
    (judge : ChainSession → Decision) (s : ChainSession) (i : ℕ) (best : Map (ℕ × ChainSession))
    → judge s ≡ adopt_usable
    → is_some (lookup (norm_model s.model_agent_id) (takes_or judge s i best)) ≡ true
takes_or-some judge s i best usable =
    let n : Text = norm_model s.model_agent_id in
    elim (Option-cases (lookup n best)) [
      | inl gone ↦
          let t : takes s (lookup n best) ≡ true = rw gone (unfold takes in refl) in
          rw (usable, t) (rw (lookup-insert_self n (i, s) best) refl)
      | inr (other, found) ↦ elim (Bool-cases (is_adopted (judge s) && takes s (lookup n best))) [
        | inl moves ↦ rw moves (rw (lookup-insert_self n (i, s) best) refl)
        | inr stays ↦ rw (stays, found) refl
      ]
    ]

-- A session that the first pass adopts has one standing for its model in the end.
best_from-some :
    (judge : ChainSession → Decision) (ss : List ChainSession) (i k : ℕ)
    (best : Map (ℕ × ChainSession)) (s : ChainSession)
    → session_at ss k ≡ some s
    → judge s ≡ adopt_usable
    → is_some (lookup (norm_model s.model_agent_id) (best_from judge ss i best)) ≡ true
unfolding best_from session_at
best_from-some judge [] i k best s h usable = absurd (ground (arith, h))
best_from-some judge (t ∷ ss) i (suc k) best s h usable =
    best_from-some judge ss (i + 1) k _ s h usable
best_from-some judge (t ∷ ss) i zero best s h usable =
    let same_one : t ≡ s = some-injective t s h in
    let b : Map (ℕ × ChainSession) = takes_or judge t i best in
    subst
      (λ (x : ChainSession).
        is_some (lookup (norm_model x.model_agent_id) (best_from judge ss (i + 1) b)) ≡ true)
      same_one
      (best_from-stays judge ss (i + 1) b (norm_model t.model_agent_id) (
        takes_or-some judge t i best
          (subst (λ (x : ChainSession). judge x ≡ adopt_usable) (sym same_one) usable)))

settle_from-at :
    (judge : ChainSession → Decision) (young : ℕ) (best : Map (ℕ × ChainSession))
    (ss : List ChainSession) (i k : ℕ) (s : ChainSession)
    → session_at ss k ≡ some s
    → decided (settle_from judge young best ss i) k
      ≡ some (s, settle young best (i + k) s (judge s))
unfolding settle_from decided session_at
settle_from-at judge young best [] i k s h = absurd (ground (arith, h))
settle_from-at judge young best (t ∷ ss) i zero s h =
    let same_one : t ≡ s = some-injective t s h in
    let z : i + 0 ≡ i = omega arith in rw (z, same_one) refl
settle_from-at judge young best (t ∷ ss) i (suc k) s h =
    let e : i + 1 + k ≡ i + suc k = omega arith in
    rw e at (settle_from-at judge young best ss (i + 1) k s h)

pub settle_from-session :
    (judge : ChainSession → Decision) (young : ℕ) (best : Map (ℕ × ChainSession))
    (ss : List ChainSession) (i k : ℕ) (s : ChainSession) (d : Decision)
    → decided (settle_from judge young best ss i) k ≡ some (s, d)
    → session_at ss k ≡ some s
unfolding settle_from decided session_at
settle_from-session judge young best [] i k s d h = absurd (ground (arith, h))
settle_from-session judge young best (t ∷ ss) i zero s d h =
    ap some (ap (λ (p : ChainSession × Decision). p.0) (some-injective _ (s, d) h))
settle_from-session judge young best (t ∷ ss) i (suc k) s d h =
    settle_from-session judge young best ss (i + 1) k s d h

-- Another session of the model that the plan adopts.
pub record Kept (plan : Plan) (s : ChainSession) : Type 0 where
  pub index : ℕ
  pub one : ChainSession
  pub adopted : decided plan index ≡ some (one, adopt_usable)
  pub same_model : norm_model one.model_agent_id ≡ norm_model s.model_agent_id

-- For each session that the first pass adopts the plan keeps one of its model.
pub settle_from-Kept :
    (judge : ChainSession → Decision) (young : ℕ) (ss : List ChainSession) (k : ℕ)
    (s : ChainSession)
    → session_at ss k ≡ some s
    → judge s ≡ adopt_usable
    → Kept (settle_from judge young (best_from judge ss 0 []) ss 0) s
settle_from-Kept judge young ss k s there usable =
    let best = best_from judge ss 0 [] in
    elim (Option-cases (lookup (norm_model s.model_agent_id) best)) [
      | inl gone ↦ absurd (ground (arith, gone, best_from-some judge ss 0 k [] s there usable))
      | inr ((j, t), stands) ↦
          elim (best_from-stands judge ss 0 [] (norm_model s.model_agent_id) j t stands) [
            | inl never ↦ absurd (unfold lookup in ground (arith, never))
            | inr (n, at_n, at_t, adopts, of_model) ↦
                let e : j ≡ 0 + n = at_n in
                let here : lookup (norm_model t.model_agent_id) best ≡ some (0 + n, t) =
                  rw (of_model, sym e) stands in
                let keeps : settle young best (0 + n) t (judge t) ≡ adopt_usable =
                  unfold settle in rw (adopts, here) (ground arith) in
                record {
                  index = n;
                  one = t;
                  adopted = rw keeps at (settle_from-at judge young best ss 0 n t at_t);
                  same_model = of_model;
                }
          ]
    ]
