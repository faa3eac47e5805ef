-- ===== src/Pool/Scan/Apply/Owing.antt =====
-- What the adoption loops of a scan collect as close-due (internal/pool/sweep.go: applyScan).
use morpheus_uplink.Base.{
  ℕ, ◌≡◌, refl, ◌∙◌, inl, inr, Bool, Option, none, some, List, [], ◌∷◌, ◌++◌, Text, same, All, Map,
  lookup, Bool-cases, dec_text, ite,
}
use morpheus_uplink.Pool.Lease.{Pool, SessState, norm_model}
use morpheus_uplink.Pool.Attempts.{ChainSession}
use morpheus_uplink.Pool.Reconcile.{pick_one}
use morpheus_uplink.Pool.Scan.{Due, usable_entry}
use morpheus_uplink.Pool.Scan.Apply.{
  Adopting, adopt_matched, adopt_older, each_matched, each_older, first_due, before, adopt,
  with_state, as_duplicates, others, sessions_of,
}
use morpheus_uplink.Pool.Scan.Collected.{AllDue, Groups, AllDue-append, delete-Groups}

module _ (P : ChainSession → Type 0) where
  -- What holds while sessions are adopted; `marks` are the close marks.
  pub record Owing (marks : Map ℕ) (a : Adopting) : Type 0 where
    pub due : AllDue P a.due
    pub older : Groups P a.older
    pub same_marks : a.wallet.pool.closing_ids ≡ marks

  as_duplicates-All : (ss : List ChainSession) → All P ss → AllDue P (as_duplicates ss)
  as_duplicates-All [] h = tt
  as_duplicates-All (s ∷ ss) h = (h.0, as_duplicates-All ss h.1)

  others-All : (best : ChainSession) (ss : List ChainSession) → All P ss → All P (others best ss)
  others-All best [] h = tt
  others-All best (s ∷ ss) h = elim (Bool-cases (same s.id best.id)) [
    | inl e ↦ rw e (others-All best ss h.1)
    | inr ne ↦ rw ne (h.0, others-All best ss h.1)
  ]

  lookup-All :
      (m : Map (List ChainSession)) (key : Text) → Groups P m → All P (sessions_of (lookup key m))
  unfolding lookup
  lookup-All [] key h = tt
  lookup-All ((j, ss) ∷ m) key h =
      elim (dec_text j key) as (λ d. All P (sessions_of (ite d (some ss) (lookup key m)))) [
        | yes e ↦ h.0
        | no ne ↦ lookup-All m key h.1
      ]

  with_state-marks :
      (o : Option SessState) (p : Pool) (now : ℕ) (key : Text) (s : ChainSession)
      → (with_state o p now key s).closing_ids ≡ p.closing_ids
  unfolding with_state
  with_state-marks none p now key s = refl
  with_state-marks (some st) p now key s = refl

  adopt-marks :
      (p : Pool) (now : ℕ) (s : ChainSession) → (adopt p now s).closing_ids ≡ p.closing_ids
  unfolding adopt
  adopt-marks p now s = with_state-marks (lookup s.id p.sess) _ now (norm_model s.model_agent_id) s

  adopt_matched-Owing :
      (marks : Map ℕ) (now : ℕ) (a : Adopting) (key : Text) (ss : List ChainSession)
      → Owing marks a
      → All P ss
      → Owing marks (adopt_matched now a key ss)
  unfolding adopt_matched
  adopt_matched-Owing marks now a key [] h p = h
  adopt_matched-Owing marks now a key (s ∷ ss) h p =
      elim (Bool-cases (usable_entry a.wallet.pool now key)) [
        | inl has ↦ rw has (record {
          due = AllDue-append P a.due _ h.due (as_duplicates-All (s ∷ ss) p);
          older = h.older;
          same_marks = h.same_marks;
        })
        | inr none_yet ↦
            let best : ChainSession = pick_one s ss in
            rw none_yet (record {
              due =
                  AllDue-append P (a.due ++ as_duplicates (others best (s ∷ ss))) _
                    (AllDue-append P a.due _ h.due
                      (as_duplicates-All _ (others-All best (s ∷ ss) p)))
                    (as_duplicates-All _ (lookup-All a.older key h.older));
              older = delete-Groups P a.older key h.older;
              same_marks = adopt-marks a.wallet.pool now best ∙ h.same_marks;
            })
      ]

  adopt_older-Owing :
      (marks : Map ℕ) (now : ℕ) (uptime_ok : Bool) (a : Adopting) (key : Text)
      (ss : List ChainSession)
      → Owing marks a
      → All P ss
      → Owing marks (adopt_older now uptime_ok a key ss)
  unfolding adopt_older
  adopt_older-Owing marks now uptime_ok a key [] h p = h
  adopt_older-Owing marks now uptime_ok a key (s ∷ ss) h p =
      elim (Bool-cases (usable_entry a.wallet.pool now key)) [
        | inl has ↦ rw has (record {
          due = AllDue-append P a.due _ h.due (as_duplicates-All (s ∷ ss) p);
          older = h.older;
          same_marks = h.same_marks;
        })
        | inr none_yet ↦
            let best : ChainSession = pick_one s ss in
            rw none_yet (record {
              due =
                  AllDue-append P a.due _ h.due (as_duplicates-All _ (others-All best (s ∷ ss) p));
              older = h.older;
              same_marks = adopt-marks a.wallet.pool now best ∙ h.same_marks;
            })
      ]

  pub each_matched-Owing :
      (m : Map (List ChainSession)) (marks : Map ℕ) (now : ℕ) (a : Adopting)
      → Owing marks a
      → Groups P m
      → Owing marks (each_matched now m a)
  unfolding each_matched
  each_matched-Owing [] marks now a h g = h
  each_matched-Owing ((key, ss) ∷ m) marks now a h g =
      each_matched-Owing m marks now _ (adopt_matched-Owing marks now a key ss h g.0) g.1

  pub each_older-Owing :
      (m : Map (List ChainSession)) (marks : Map ℕ) (now : ℕ) (uptime_ok : Bool) (a : Adopting)
      → Owing marks a
      → Groups P m
      → Owing marks (each_older now uptime_ok m a)
  unfolding each_older
  each_older-Owing [] marks now uptime_ok a h g = h
  each_older-Owing ((key, ss) ∷ m) marks now uptime_ok a h g =
      each_older-Owing m marks now uptime_ok _
        (adopt_older-Owing marks now uptime_ok a key ss h g.0) g.1

  pub first_due-P :
      (m : Map ℕ) (d : Due) (es : List Due)
      → P d.session
      → AllDue P es
      → P (first_due m d es).session
  unfolding first_due
  first_due-P m d [] p h = p
  first_due-P m d (e ∷ es) p h = elim (Bool-cases (before m e d)) [
    | inl sooner ↦ rw (sooner, first_due) (first_due-P m e es h.0 h.1)
    | inr later ↦ rw (later, first_due) (first_due-P m d es p h.1)
  ]
