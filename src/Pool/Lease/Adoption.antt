-- ===== src/Pool/Lease/Adoption.antt =====
-- A pool slot that is filled with a session of the chain, or emptied, keeps the pool's invariant
-- (internal/pool/lease.go: adoptLocked; internal/pool/sweep.go: adopt; internal/pool/pool.go:
-- Invalidate).
use mathlib.Core.Option.{some-injective}
use morpheus_uplink.Base.{
  ℕ, ◌*◌, ◌≡◌, refl, sym, subst, inl, inr, some, [], arith, Text, lookup, insert, lookup-insert,
  lookup-insert_self, Option-cases, dec_text, if_pos, if_neg, Distinct, delete-Distinct,
  lookup-delete,
}
use morpheus_uplink.Pool.Slot.{second}
use morpheus_uplink.Pool.Lease.{Pool, Entry, SessState, new_state, norm_model}
use morpheus_uplink.Pool.Lease.Drop.{
  OpenResult, adopt_state, adopt_locked, invalidate, invalidate_entry,
}
use morpheus_uplink.Pool.Lease.Invariant.{Inv, Usable, insert-Inv}
use morpheus_uplink.Pool.Attempts.{ChainSession}
use morpheus_uplink.Pool.Scan.Apply.{with_state, adopt}

-- A session that may fill the slot of a model: its state, if it has one, is usable for the model, and
-- it is not pooled for another one.
pub record Fits (p : Pool) (key id : Text) : Type 0 where
  pub sound : (st : SessState) → lookup id p.sess ≡ some st → Usable st key
  pub only : (k : Text) (f : Entry) → lookup k p.entries ≡ some f → f.session_id ≡ id → k ≡ key

filled-Inv :
    (p q : Pool) (key : Text) (e : Entry)
    → Inv p
    → q.entries ≡ insert key e p.entries
    → q.sess ≡ p.sess
    → Fits p key e.session_id
    → Inv q
filled-Inv p q key e v es ss fits = record {
  usable = λ k f st there found. elim (dec_text key k) [
    | yes same_key ↦
        let is_e : some e ≡ some f =
          rw (es, lookup-insert key k e p.entries, if_pos _ same_key) at there in
        subst (Usable st) same_key (fits.sound st (rw (← some-injective e f is_e, ss) at found))
    | no other ↦
        v.usable k f st (rw (es, lookup-insert key k e p.entries, if_neg _ other) at there)
          (rw ss at found)
  ];
  once = λ k k' f f' a b c. ground (
    arith,
    lookup-insert key k e p.entries,
    lookup-insert key k' e p.entries,
    es,
    v.once k k' f f',
    fits.only k f,
    fits.only k' f',
  );
  distinct = rw ss v.distinct;
}

-- A slot is filled, and a session without a state gets one.
fresh-Inv :
    (p : Pool) (key : Text) (e : Entry) (now opened_at ends_at : ℕ)
    → Inv p
    → lookup key p.entries ≡ some e
    → Inv (record p { sess = insert e.session_id (new_state key now opened_at ends_at []) p.sess })
unfolding new_state
fresh-Inv p key e now opened_at ends_at v there =
    insert-Inv p _ e.session_id _ v (λ k f h. h) refl
      λ k f g same_id.
        let its : key ≡ k = v.once key k e f there g (sym same_id) in
        record { not_retired = refl; not_closing = refl; same_model = its }

pub adopt_locked-Inv :
    (p : Pool) (now : ℕ) (key : Text) (got : OpenResult)
    → Inv p
    → Fits p key got.id
    → Inv (adopt_locked p now key got).0
unfolding adopt_locked
adopt_locked-Inv p now key got v fits = elim (Option-cases (lookup got.id p.sess)) [
  | inr (st, found) ↦ rw (found, adopt_state) (filled-Inv p _ key _ v refl refl fits)
  | inl gone ↦
      rw (gone, adopt_state)
        (fresh-Inv _ key _ now got.opened_at got.ends_at (filled-Inv p _ key _ v refl refl fits)
          (lookup-insert_self key _ p.entries))
]

pub adopt-Inv :
    (p : Pool) (now : ℕ) (s : ChainSession)
    → Inv p
    → Fits p (norm_model s.model_agent_id) s.id
    → Inv (adopt p now s)
unfolding adopt
adopt-Inv p now s v fits =
    let key : Text = norm_model s.model_agent_id in
    elim (Option-cases (lookup s.id p.sess)) [
      | inr (st, found) ↦ rw (found, with_state) (filled-Inv p _ key _ v refl refl fits)
      | inl gone ↦
          rw (gone, with_state)
            (fresh-Inv _ key _ now (s.opened_at * second) (s.ends_at * second)
              (filled-Inv p _ key _ v refl refl fits) (lookup-insert_self key _ p.entries))
    ]

-- What only takes slots and states away keeps the invariant.
less-Inv :
    (p q : Pool)
    → Inv p
    → ((k : Text) (e : Entry) → lookup k q.entries ≡ some e → lookup k p.entries ≡ some e)
    → ((id : Text) (st : SessState) → lookup id q.sess ≡ some st → lookup id p.sess ≡ some st)
    → Distinct q.sess
    → Inv q
less-Inv p q v es ss d = record {
  usable = λ k e st there found. v.usable k e st (es k e there) (ss e.session_id st found);
  once = λ k k' e e' a b c. v.once k k' e e' (es k e a) (es k' e' b) c;
  distinct = d;
}

pub invalidate-Inv : (p : Pool) (model_id : Text) → Inv p → Inv (invalidate p model_id)
unfolding invalidate
invalidate-Inv p model_id v =
    let key : Text = norm_model model_id in
    elim (Option-cases (lookup key p.entries)) [
      | inl gone ↦
          rw (gone, invalidate_entry)
            (less-Inv p _ v (λ k e h. ground (arith, h, lookup-delete key k p.entries))
              (λ id st h. h) v.distinct)
      | inr (e, there) ↦
          rw (there, invalidate_entry)
            (less-Inv p _ v (λ k f h. ground (arith, h, lookup-delete key k p.entries))
              (λ id st h. ground (arith, h, lookup-delete e.session_id id p.sess))
              (delete-Distinct e.session_id p.sess v.distinct))
    ]
