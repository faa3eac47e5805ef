-- ===== src/Pool/Lease/Sections.antt =====
-- Each critical section of the pool keeps its invariant (internal/pool/lease.go, internal/pool/sweep.go).
use mathlib.Core.Option.{some-injective}
use morpheus_uplink.Base.{
  ℕ, ◌≡◌, refl, sym, subst, ◌+◌, ◌≢◌, inl, inr, Bool, true, ◌||◌, Option, none, some, [], arith,
  Text, lookup, insert, lookup-insert_self, lookup-insert, insert-Distinct, Bool-cases,
  Option-cases, same, dec_text, if_pos, if_neg, ltb,
}
use morpheus_uplink.Pool.Lease.{
  Pool, Entry, SessState, new_state, norm_model, state_for, state_locked, leased, lease_locked,
  lease_if_open, try_entry, try_pooled_locked, drop_entry, retire, mark_retired, closing_marked,
  expiry_buffer,
}
use morpheus_uplink.Pool.Lease.Drop.{
  OpenResult, pool_opened_locked, retire_for_failover, failover_close_failed, failover_state,
  failover_failed_state,
}
use morpheus_uplink.Pool.Lease.Sweep.{
  claim, claim_picked, claim_state, pick, close_failed, fail_state,
}
use morpheus_uplink.Pool.Lease.Sweep.Laws.{pick-sess}
use morpheus_uplink.Pool.Lease.Release.{release_target, release_from, release}
use morpheus_uplink.Pool.Lease.Release.Laws.{
  IsTarget, Freed, release_held-Freed, release_target-IsTarget,
}
use morpheus_uplink.Pool.Lease.Invariant.{Inv, Usable, insert-Inv, retired-Inv, kept-Inv}

-- The pool hands out what its entry names.
lease_state-Inv :
    (p : Pool) (now : ℕ) (key key_id : Text) (e : Entry) (st : SessState)
    → Inv p
    → lookup key p.entries ≡ some e
    → lookup e.session_id p.sess ≡ some st
    → Inv (lease_if_open (p, st) now e.session_id key_id).0
unfolding lease_if_open lease_locked leased
lease_state-Inv p now key key_id e st v there found = elim (Bool-cases (st.retired || st.closing)) [
  | inl off ↦ rw off v
  | inr on ↦
      rw on
        (kept-Inv p _ e.session_id st (leased st now key_id) v found refl refl refl (inl refl) refl)
]

fresh_state-Inv :
    (p : Pool) (key : Text) (e : Entry) (st : SessState)
    → Inv p
    → lookup key p.entries ≡ some e
    → Usable st key
    → Inv (record p { sess = insert e.session_id st p.sess })
fresh_state-Inv p key e st v there u =
    insert-Inv p _ e.session_id st v (λ k f h. h) refl
      λ k f g same_id. subst (Usable st) (v.once key k e f there g (sym same_id)) u

lease_if_open-Inv :
    (o : Option SessState) (p : Pool) (now : ℕ) (key key_id : Text) (e : Entry)
    → Inv p
    → lookup key p.entries ≡ some e
    → lookup e.session_id p.sess ≡ o
    → Inv (lease_if_open (state_for o p now key e) now e.session_id key_id).0
unfolding state_for
lease_if_open-Inv (some st) p now key key_id e v there found =
    lease_state-Inv p now key key_id e st v there found
lease_if_open-Inv none p now key key_id e v there gone =
    let st : SessState = new_state key now now (e.expires_at + expiry_buffer) [] in
    lease_state-Inv (record p { sess = insert e.session_id st p.sess }) now key key_id e st
      (fresh_state-Inv p key e st v there
        (unfold new_state in record { not_retired = refl; not_closing = refl; same_model = refl }))
      there (lookup-insert_self e.session_id st p.sess)

pub try_pooled_locked-Inv :
    (p : Pool) (now : ℕ) (key key_id : Text) → Inv p → Inv (try_pooled_locked p now key key_id).0
unfolding try_pooled_locked state_locked
try_pooled_locked-Inv p now key key_id v = elim (Option-cases (lookup key p.entries)) [
  | inl gone ↦ rw (gone, try_entry) v
  | inr (e, there) ↦
      rw (there, try_entry)
        (elim (Bool-cases (ltb now e.expires_at)) [
          | inr late ↦ rw late v
          | inl live ↦ rw live (elim (Bool-cases (closing_marked p e.session_id)) [
            | inl marked ↦ rw marked v
            | inr clear ↦
                rw clear
                  (lease_if_open-Inv (lookup e.session_id p.sess) p now key key_id e v there refl)
          ])
        ])
]

target-model :
    (p : Pool) (key key_id id : Text) (st : SessState)
    → Inv p
    → IsTarget p key key_id id st
    → st.model ≡ key
target-model p key key_id id st v t = elim t.placed [
  | inl m ↦ m
  | inr (e, there, same_id) ↦ (v.usable key e st there (rw same_id t.found)).same_model
]

Freed-Inv :
    (p q : Pool) (key key_id id : Text) (st : SessState)
    → Inv p
    → IsTarget p key key_id id st
    → Freed p q key key_id id st
    → Inv q
Freed-Inv p q key key_id id st v t f = elim f.moved [
  | inl (r, e) ↦ kept-Inv p q id st f.state v t.found e f.stored r (inl f.closing) f.model
  | inr (r, e) ↦
      retired-Inv p q id st f.state v t.found (rw (target-model p key key_id id st v t) e) f.stored
]

pub release-Inv :
    (p : Pool) (now wall duration_sec : ℕ) (model_id key_id : Text)
    → Inv p
    → Inv (release p now wall duration_sec model_id key_id).0
unfolding release
release-Inv p now wall duration_sec model_id key_id v =
    elim (Option-cases (release_target p (norm_model model_id) key_id)) [
      | inl none_held ↦ rw (none_held, release_from) v
      | inr ((id, st), target) ↦
          rw (target, release_from)
            (elim (Bool-cases (same key_id [])) [
              | inl anonymous ↦ rw anonymous v
              | inr named ↦ rw named (
                  Freed-Inv p _ (norm_model model_id) key_id id st v
                    (release_target-IsTarget p (norm_model model_id) key_id id st v.distinct target)
                    (release_held-Freed p now wall duration_sec (norm_model model_id) key_id id st))
            ])
    ]

marks-Inv : (p q : Pool) → q.sess ≡ p.sess → q.entries ≡ p.entries → Inv p → Inv q
marks-Inv p q s e v = record {
  usable = λ key f st there found. v.usable key f st (rw e at there) (rw s at found);
  once = λ k k' f f' a b. v.once k k' f f' (rw e at a) (rw e at b);
  distinct = rw s v.distinct;
}

claim_state-Inv :
    (p : Pool) (wall duration_sec : ℕ) (id : Text)
    → Inv p
    → Inv (claim_state (lookup id p.sess) p wall duration_sec id)
unfolding claim_state
claim_state-Inv p wall duration_sec id v = elim (Option-cases (lookup id p.sess)) [
  | inl gone ↦ rw (gone, claim_state) v
  | inr (st, found) ↦
      rw (found, claim_state)
        (retired-Inv p _ id st (record st { closing = true }) v found
          (unfold retire drop_entry in refl) (unfold retire drop_entry in refl))
]

claim_picked-Inv :
    (s : Pool × Option Text) (wall duration_sec : ℕ) (id : Text)
    → Inv s.0
    → Inv (claim_picked s wall duration_sec id).0
unfolding claim_picked
claim_picked-Inv (p, none) wall duration_sec id v = v
claim_picked-Inv (p, some other) wall duration_sec id v = elim (Bool-cases (same other id)) [
  | inl chosen ↦ rw chosen (claim_state-Inv p wall duration_sec id v)
  | inr changed ↦ rw changed v
]

pub claim-Inv :
    (p : Pool) (now wall duration_sec grace : ℕ) (idle : Bool) (id : Text)
    → Inv p
    → Inv (claim p now wall duration_sec grace idle id).0
unfolding claim
claim-Inv p now wall duration_sec grace idle id v =
    let s = pick-sess p now grace idle in
    claim_picked-Inv (pick p now grace idle) wall duration_sec id
      (marks-Inv p (pick p now grace idle).0 s.0 s.1 v)

pub failover_close_failed-Inv : (p : Pool) (id : Text) → Inv p → Inv (failover_close_failed p id)
unfolding failover_close_failed
failover_close_failed-Inv p id v = elim (Option-cases (lookup id p.sess)) [
  | inl gone ↦ rw (gone, failover_failed_state) v
  | inr (st, found) ↦
      rw (found, failover_failed_state)
        (kept-Inv p _ id st _ v found refl refl refl (inr refl) refl)
]

pub close_failed-Inv :
    (p : Pool) (now : ℕ) (id : Text) (st : SessState)
    → Inv p
    → lookup id p.sess ≡ some st
    → st.closing ≡ true
    → Inv (close_failed p now id)
unfolding close_failed
close_failed-Inv p now id st v found closing =
    rw (found, fail_state)
      (insert-Inv p _ id _ v (λ k f h. h) refl
        λ key f there same_id.
          absurd (ground (arith, (v.usable key f st there (rw same_id found)).not_closing)))

pub retire_for_failover-Inv :
    (p : Pool) (now : ℕ) (key id : Text) (st : SessState)
    → Inv p
    → lookup id p.sess ≡ some st
    → st.model ≡ key
    → Inv (retire_for_failover p now key id).0
unfolding retire_for_failover drop_entry
retire_for_failover-Inv p now key id st v found m =
    rw (found, failover_state)
      (elim (Bool-cases (ltb 0 (mark_retired st now).inflight || (mark_retired st now).closing)) [
        | inl busy ↦ rw busy (retired-Inv p _ id st (mark_retired st now) v found (rw m) refl)
        | inr quiet ↦ rw quiet (
            retired-Inv p _ id st (record (mark_retired st now) { closing = true }) v found (rw m)
              refl)
      ])

opened-Inv :
    (p q : Pool) (key : Text) (e : Entry) (st : SessState)
    → Inv p
    → q.entries ≡ insert key e p.entries
    → q.sess ≡ insert e.session_id st p.sess
    → Usable st key
    → ((k : Text) (f : Entry) → lookup k p.entries ≡ some f → f.session_id ≢ e.session_id)
    → Inv q
opened-Inv p q key e st v es ss u new = record {
  usable = λ k f st' there found. elim (dec_text key k) [
    | yes same_key ↦
        let is_e : some e ≡ some f =
          rw (es, lookup-insert key k e p.entries, if_pos _ same_key) at there in
        let is_st : some st ≡ some st' =
          rw (← some-injective e f is_e, ss, lookup-insert_self e.session_id st p.sess) at found in
        subst (λ s. Usable s k) (some-injective st st' is_st) (subst (Usable st) same_key u)
    | no other ↦
        let old : lookup k p.entries ≡ some f =
          rw (es, lookup-insert key k e p.entries, if_neg _ other) at there in
        v.usable k f st' old (
          rw
            (
              ss,
              lookup-insert e.session_id f.session_id st p.sess,
              if_neg _ (λ s. new k f old (sym s)),
            )
            at found)
  ];
  once = λ k k' f f' a b c. ground (
    arith,
    lookup-insert key k e p.entries,
    lookup-insert key k' e p.entries,
    es,
    v.once k k' f f',
    new k f,
    new k' f',
  );
  distinct = rw ss (insert-Distinct e.session_id st p.sess v.distinct);
}

-- A session that was just opened, or found on chain, is new to the pool.
pub pool_opened_locked-Inv :
    (p : Pool) (now : ℕ) (key : Text) (got : OpenResult) (duration_sec : ℕ) (opener : Text)
    → Inv p
    → ((k : Text) (e : Entry) → lookup k p.entries ≡ some e → e.session_id ≢ got.id)
    → Inv (pool_opened_locked p now key got duration_sec opener).0
unfolding pool_opened_locked
pool_opened_locked-Inv p now key got duration_sec opener v new =
    opened-Inv p _ key _ _ v refl refl
      (unfold new_state in record { not_retired = refl; not_closing = refl; same_model = refl }) new
