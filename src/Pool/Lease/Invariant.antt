-- ===== src/Pool/Lease/Invariant.antt =====
-- What holds of the pool between two critical sections (internal/pool/lease.go).
use mathlib.Core.Option.{some-injective}
use morpheus_uplink.Base.{
  ℕ, ◌≡◌, refl, sym, subst, ◌∙◌, ◌≢◌, ◌⊎◌, inl, inr, false, Option, none, some, arith, Text, Map,
  lookup, insert, lookup-insert, lookup-delete, Option-cases, dec_text, if_pos, if_neg, Distinct,
  insert-Distinct,
}
use morpheus_uplink.Pool.Lease.{Pool, Entry, SessState, done_state, done, drop_if}

-- A session that the pool may hand out for the model `key`.
pub record Usable (st : SessState) (key : Text) : Type 0 where
  pub not_retired : st.retired ≡ false
  pub not_closing : st.closing ≡ false
  pub same_model : st.model ≡ key

-- Every pooled session is usable for its model, and pooled once.
pub record Inv (p : Pool) : Type 0 where
  pub usable :
      (key : Text) (e : Entry) (st : SessState)
      → lookup key p.entries ≡ some e
      → lookup e.session_id p.sess ≡ some st
      → Usable st key
  pub once :
      (key key' : Text) (e e' : Entry)
      → lookup key p.entries ≡ some e
      → lookup key' p.entries ≡ some e'
      → e.session_id ≡ e'.session_id
      → key ≡ key'
  pub distinct : Distinct p.sess

abbrev pub Within : Map Entry → Map Entry → Type 0
Within m n = (key : Text) (e : Entry) → lookup key m ≡ some e → lookup key n ≡ some e

-- The pool slots may only become fewer, and one session's state may change.
pub insert-Inv :
    (p q : Pool) (id : Text) (st : SessState)
    → Inv p
    → Within q.entries p.entries
    → q.sess ≡ insert id st p.sess
    → ((key : Text) (e : Entry) → lookup key q.entries ≡ some e → e.session_id ≡ id → Usable st key)
    → Inv q
insert-Inv p q id st v sub e ok = record {
  usable = λ key f st' there found. elim (dec_text id f.session_id) [
    | yes same_id ↦
        let h : some st ≡ some st' =
          rw (e, lookup-insert id f.session_id st p.sess, if_pos _ same_id) at found in
        subst (λ s. Usable s key) (some-injective st st' h) (ok key f there (sym same_id))
    | no other ↦
        v.usable key f st' (sub key f there)
          (rw (e, lookup-insert id f.session_id st p.sess, if_neg _ other) at found)
  ];
  once = λ key key' f f' a b c. v.once key key' f f' (sub key f a) (sub key' f' b) c;
  distinct = rw e (insert-Distinct id st p.sess v.distinct);
}

drop_if-Within : (o : Option Entry) (m : Map Entry) (key id : Text) → Within (drop_if o m key id) m
unfolding drop_if
drop_if-Within none m key id k e there = there
drop_if-Within (some f) m key id k e there = ground (arith, lookup-delete key k m)

drop_if-gone :
    (o : Option Entry) (m : Map Entry) (key id : Text)
    → lookup key m ≡ o
    → (e : Entry) → lookup key (drop_if o m key id) ≡ some e
    → e.session_id ≢ id
unfolding drop_if
drop_if-gone none m key id h e there same_id = ground arith
drop_if-gone (some f) m key id h e there same_id = ground (arith, lookup-delete key key m)

-- What retires or closes a session leaves no pool slot that points at it.
pub retired-Inv :
    (p q : Pool) (id : Text) (st st' : SessState)
    → Inv p
    → lookup id p.sess ≡ some st
    → q.entries ≡ drop_if (lookup st.model p.entries) p.entries st.model id
    → q.sess ≡ insert id st' p.sess
    → Inv q
retired-Inv p q id st st' v found e s = insert-Inv p q id st' v sub s gone
  where
    sub : Within q.entries p.entries
    sub = rw e (drop_if-Within (lookup st.model p.entries) p.entries st.model id)

    gone :
        (key : Text) (f : Entry)
        → lookup key q.entries ≡ some f
        → f.session_id ≡ id
        → Usable st' key
    gone key f there same_id =
        let u = v.usable key f st (sub key f there) (rw same_id found) in
        absurd (
          drop_if-gone (lookup st.model p.entries) p.entries st.model id refl f
            (rw (e, ← u.same_model) at there) same_id)

-- What keeps a session's flags and model keeps the pool's invariant, whatever else it changes.
pub kept-Inv :
    (p q : Pool) (id : Text) (st st' : SessState)
    → Inv p
    → lookup id p.sess ≡ some st
    → q.entries ≡ p.entries
    → q.sess ≡ insert id st' p.sess
    → st'.retired ≡ st.retired
    → (st'.closing ≡ st.closing) ⊎ (st'.closing ≡ false)
    → st'.model ≡ st.model
    → Inv q
kept-Inv p q id st st' v found e s r c m =
    insert-Inv p q id st' v (λ k f h. rw e at h) s
      λ key f there same_id.
        let u = v.usable key f st (rw e at there) (rw same_id found) in
        record {
          not_retired = r ∙ u.not_retired;
          not_closing = ground (arith, u.not_closing);
          same_model = m ∙ u.same_model;
        }

pub done-Inv : (p : Pool) (now : ℕ) (id : Text) → Inv p → Inv (done p now id).0
unfolding done
done-Inv p now id v = elim (Option-cases (lookup id p.sess)) [
  | inl gone ↦ rw (gone, done_state) v
  | inr (st, found) ↦
      rw (found, done_state) (kept-Inv p _ id st _ v found refl refl refl (inl refl) refl)
]
