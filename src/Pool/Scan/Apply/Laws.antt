-- ===== src/Pool/Scan/Apply/Laws.antt =====
-- What a scan may close (internal/pool/sweep.go: applyScan).
use mathlib.Core.Option.{some-injective}
use morpheus_uplink.Base.{
  ℕ, ◌≡◌, refl, sym, ◌∙◌, ap, subst, ◌⊎◌, inl, inr, Bool, true, false, ◌&&◌, Option, some, List, [],
  ◌∷◌, Text, same, any, All, arith, Map, lookup, to_lower, dec_text, lookup-insert_self, if_pos,
  if_neg,
}
use morpheus_uplink.Pool.Lease.{Pool, SessState, closing_marked}
use morpheus_uplink.Pool.Lease.Sweep.{cut_close_mark}
use morpheus_uplink.Pool.Attempts.{ChainSession}
use morpheus_uplink.Pool.Scan.{Wallet, Due, Sorted, held, idle_state, tracked}
use morpheus_uplink.Pool.Scan.Apply.{
  first_due, pick_close, close_unless, cleaned, sort_all, adopt_all, pruned, swept, apply_scan,
  prune_slots,
}
use morpheus_uplink.Pool.Scan.Collected.{AllDue, Sound, MayOwe, sort_open-Sound}
use morpheus_uplink.Pool.Scan.Apply.Owing.{Owing, each_matched-Owing, each_older-Owing, first_due-P}

-- A listed session that no close, no request and no lease in use stands on.
pub record Idle (p : Pool) (listed : List ChainSession) (s : ChainSession) : Type 0 where
  pub is_listed : any (λ t. same t.id s.id) listed ≡ true
  pub unmarked : closing_marked p s.id ≡ false
  pub unused :
      (st : SessState) → lookup s.id p.sess ≡ some st → (st.inflight ≡ 0) × (st.closing ≡ false)

any-lookup :
    (f : Text × SessState → Bool) (m : Map SessState) (k : Text) (st : SessState)
    → any f m ≡ false
    → lookup k m ≡ some st
    → f (k, st) ≡ false
unfolding lookup
any-lookup f [] k st h e = ground arith
any-lookup f ((j, v) ∷ m) k st h e = elim (dec_text j k) [
  | yes hit ↦
      (let fv : f (j, v) ≡ false = ground (arith, h) in
        let vs : v ≡ st = some-injective v st (rw (if_pos (dec_text j k) hit) at e) in
        ap (λ x. f (x, st)) (sym hit) ∙ ap (λ x. f (j, x)) (sym vs) ∙ fv)
  | no past ↦ any-lookup f m k st (ground (arith, h)) (rw (if_neg (dec_text j k) past) at e)
]

-- A session that is not held, or whose slot is idle, is used by nothing.
held-unused :
    (p : Pool) (s : ChainSession)
    → (held p (to_lower s.id) ≡ false) ⊎ (idle_state (lookup s.id p.sess) ≡ true)
    → (st : SessState) → lookup s.id p.sess ≡ some st
    → (st.inflight ≡ 0) × (st.closing ≡ false)
unfolding held idle_state
held-unused p s (inl loose) st e =
    let f =
      any-lookup (λ r. tracked r.1 && same (to_lower r.0) (to_lower s.id)) p.sess s.id st
        (ground (arith, loose)) e in
    ground (arith, f)
held-unused p s (inr idle) st e =
    let g : idle_state (some st) ≡ true = subst (λ o. idle_state o ≡ true) e idle in
    ground (arith, g)

Idle-All :
    (p : Pool) (listed ss : List ChainSession)
    → ((s : ChainSession)
        → any (λ t. same t.id s.id) ss ≡ true
        → any (λ t. same t.id s.id) listed ≡ true)
    → (w : Wallet) → w.pool ≡ p
    → All (MayOwe (Idle p listed) w) ss
Idle-All p listed [] sub w e = tt
Idle-All p listed (s ∷ ss) sub w e = (
  λ free how. record {
    is_listed = sub s (ground arith);
    unmarked = rw (sym e) free;
    unused = held-unused p s (rw (sym e) how);
  },
  Idle-All p listed ss (λ t h. sub t (ground (arith, h))) w e,
)

-- What the choice of a close guarantees.
pub record Chosen (listed : List ChainSession) (now : ℕ) (p : Pool) (out : Wallet × Option Due)
    (c : Due) : Type 0 where
  pub idle : Idle p listed c.session
  pub no_cut : (cut_close_mark p.closing_ids now).1 ≡ false
  pub marked : closing_marked (out.0).pool c.session.id ≡ true

close_unless-Chosen :
    (b : Bool) (listed : List ChainSession) (now : ℕ) (p : Pool) (marks : Map ℕ) (best : Due)
    (w : Wallet) (c : Due)
    → (cut_close_mark p.closing_ids now).1 ≡ b
    → Idle p listed best.session
    → (close_unless b marks best w).1 ≡ some c
    → Chosen listed now p (close_unless b marks best w) c
unfolding close_unless closing_marked
close_unless-Chosen true listed now p marks best w c cut h e = ground arith
close_unless-Chosen false listed now p marks best w c cut h e =
    let same_one : best ≡ c = some-injective best c e in
    subst (λ d. Chosen listed now p (close_unless false marks best w) d) same_one
      (record {
        idle = h;
        no_cut = cut;
        marked = rw (lookup-insert_self (to_lower best.session.id) 0 marks) refl;
      })

pick_close-Chosen :
    (due : List Due) (listed : List ChainSession) (now : ℕ) (p : Pool) (w : Wallet) (c : Due)
    → AllDue (Idle p listed) due
    → w.pool.closing_ids ≡ p.closing_ids
    → (pick_close due now w).1 ≡ some c
    → Chosen listed now p (pick_close due now w) c
unfolding pick_close
pick_close-Chosen [] listed now p w c h m e = ground arith
pick_close-Chosen (d ∷ ds) listed now p w c h m e =
    close_unless-Chosen (cut_close_mark w.pool.closing_ids now).1 listed now p
      (cut_close_mark w.pool.closing_ids now).0 (first_due w.close_due_at d ds) w c
      (ap (λ x. (cut_close_mark x now).1) (sym m))
      (first_due-P (Idle p listed) w.close_due_at d ds h.0 h.1) e

sort_all-Sound :
    (listed : List ChainSession) (now : ℕ) (barred : List Text) (w : Wallet)
    → Sound (Idle (cleaned listed now w).pool listed) (sort_all listed now barred w)
unfolding sort_all
sort_all-Sound listed now barred w =
    sort_open-Sound (Idle (cleaned listed now w).pool listed) listed (cleaned listed now w) now
      barred _ (record { due = tt; matched = tt; older = tt })
      (Idle-All (cleaned listed now w).pool listed listed (λ s h. h) (cleaned listed now w) refl)

adopt_all-Owing :
    (listed : List ChainSession) (now : ℕ) (t : Sorted) (w : Wallet)
    → Sound (Idle (cleaned listed now w).pool listed) t
    → Owing
        (Idle (cleaned listed now w).pool listed)
        (cleaned listed now w).pool.closing_ids
        (adopt_all listed now t w)
unfolding adopt_all
adopt_all-Owing listed now t w h =
    let P = Idle (cleaned listed now w).pool listed in
    let a =
      each_matched-Owing P t.matched (cleaned listed now w).pool.closing_ids now _
        (record { due = h.due; older = h.older; same_marks = refl }) h.matched in
    each_older-Owing P _ (cleaned listed now w).pool.closing_ids now _ _ a a.older

swept-Chosen :
    (sweeping : Bool) (listed : List ChainSession) (now : ℕ) (p : Pool) (due : List Due)
    (w : Wallet) (c : Due)
    → AllDue (Idle p listed) due
    → w.pool.closing_ids ≡ p.closing_ids
    → (swept sweeping due now w).1 ≡ some c
    → Chosen listed now p (swept sweeping due now w) c × (sweeping ≡ true)
unfolding swept
swept-Chosen false listed now p due w c h m e = ground arith
swept-Chosen true listed now p due w c h m e = (pick_close-Chosen due listed now p _ c h m e, refl)

-- Whatever a scan closes, it closes in the mode of the sweep, and it is a session of the wallet's list
-- on which no close was in progress or pending, no request was in flight and that was not closing;
-- no cut close was pending at all; and the session is marked as closing after the scan. All but the
-- last is said of the pool after the marks that ran out, or whose session is gone, were dropped.
pub apply_scan-Chosen :
    (listed : List ChainSession) (scan_start now : ℕ) (sweeping : Bool) (barred : List Text)
    (w : Wallet) (c : Due)
    → (apply_scan listed scan_start now sweeping barred w).close ≡ some c
    → let out = apply_scan listed scan_start now sweeping barred w in
      Chosen listed now (cleaned listed now w).pool (out.wallet, out.close) c × (sweeping ≡ true)
unfolding apply_scan
apply_scan-Chosen listed scan_start now sweeping barred w c e =
    let t = sort_all listed now barred w in
    let a = adopt_all listed now t w in
    let h = adopt_all-Owing listed now t w (sort_all-Sound listed now barred w) in
    swept-Chosen sweeping listed now (cleaned listed now w).pool a.due
      (pruned listed scan_start now a.wallet) c h.due (unfold pruned prune_slots in h.same_marks) e
