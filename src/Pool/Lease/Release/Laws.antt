-- ===== src/Pool/Lease/Release/Laws.antt =====
-- What a release does (internal/pool/lease.go: Release).
use morpheus_uplink.Base.{
  ℕ, ◌<◌, ◌≡◌, refl, ◌∙◌, ◌≢◌, ◌⊎◌, inl, inr, Bool, true, false, ◌&&◌, not, none, some, [], arith,
  Text, lookup, insert, delete, lookup-insert, lookup-delete, Bool-cases, Option-cases, same,
  dec_text, Distinct, ltb, length, least-keep, is_some,
}
use morpheus_uplink.Pool.Lease.{
  Pool, Entry, SessState, norm_model, holds_key, mark_retired, drop_if,
}
use morpheus_uplink.Pool.Lease.Release.{
  shared, in_flight, closing, drains, draining, if_held, session_of, release_target, release_held,
  release_from, release,
}

-- What is known of the session that a release is about.
pub record IsTarget (p : Pool) (key key_id id : Text) (st : SessState) : Type 0 where
  pub found : lookup id p.sess ≡ some st
  pub open_yet : st.closing ≡ false
  pub held : holds_key key_id st ≡ true
  pub placed :
      (st.model ≡ key) ⊎ ((e : Entry) × (lookup key p.entries ≡ some e) × (e.session_id ≡ id))

draining-IsTarget :
    (p : Pool) (key key_id id : Text) (st : SessState)
    → Distinct p.sess
    → draining p key key_id ≡ some (id, st)
    → IsTarget p key key_id id st
unfolding draining
draining-IsTarget p key key_id id st d h =
    let f = rw h at (least-keep (drains key key_id) p.sess d) in
    record {
      found = f.0;
      open_yet = unfold drains in ground (arith, f.1);
      held = unfold drains in ground (arith, f.1);
      placed = inl (unfold drains in ground (arith, f.1));
    }

pooled-IsTarget :
    (p : Pool) (key key_id id sid : Text) (e : Entry) (s st : SessState)
    → lookup key p.entries ≡ some e
    → lookup sid p.sess ≡ some s
    → e.session_id ≡ sid
    → (not s.closing && holds_key key_id s) ≡ true
    → sid ≡ id
    → s ≡ st
    → IsTarget p key key_id id st
pooled-IsTarget p key key_id id sid e s st there found is_sid ok i t = record {
  found = cc;
  open_yet = ground arith;
  held = ground arith;
  placed = inr (e, there, is_sid ∙ i);
}

-- A release is about a session that the key holds and that is not closing: the pooled one, or one of
-- the model that drains.
pub release_target-IsTarget :
    (p : Pool) (key key_id id : Text) (st : SessState)
    → Distinct p.sess
    → release_target p key key_id ≡ some (id, st)
    → IsTarget p key key_id id st
unfolding release_target session_of if_held
release_target-IsTarget p key key_id id st d h = elim (Option-cases (lookup key p.entries)) [
  | inl gone ↦ draining-IsTarget p key key_id id st d (rw (gone, session_of, if_held) at h)
  | inr (e, there) ↦ elim (Option-cases (lookup e.session_id p.sess)) [
    | inl gone ↦ draining-IsTarget p key key_id id st d (ground (arith, there, gone))
    | inr (s, found) ↦ elim (Bool-cases (not s.closing && holds_key key_id s)) [
      | inl ok ↦
          pooled-IsTarget p key key_id id e.session_id e s st there found refl ok
            (ground (arith, there, found, ok)) (ground (arith, there, found, ok))
      | inr off ↦ draining-IsTarget p key key_id id st d ground (arith, there, found, off)
    ]
  ]
]

release_held_lem :
    (p : Pool) (now wall duration_sec : ℕ) (key key_id id : Text) (st : SessState)
    → let out = (release_held p now wall duration_sec key key_id id st).1 in
      let others = length (delete key_id st.holders) in
      ((out ≡ shared) × (0 < others))
      ⊎ ((out ≡ in_flight) × (others ≡ 0) × (0 < st.inflight))
      ⊎ ((out ≡ closing) × (others ≡ 0) × (st.inflight ≡ 0))
unfolding release_held
release_held_lem p now wall duration_sec key key_id id st = ground arith

-- The answer to a release by a key that is not empty and holds a session of the model: `shared` exactly when another
-- key holds it too, else `in_flight` while a request runs on it, and `closing` when neither is so.
pub release_answers :
    (p : Pool) (now wall duration_sec : ℕ) (model_id key_id id : Text) (st : SessState)
    → release_target p (norm_model model_id) key_id ≡ some (id, st)
    → key_id ≢ []
    → let out = (release p now wall duration_sec model_id key_id).1 in
      let others = length (delete key_id st.holders) in
      ((out ≡ shared) × (0 < others))
      ⊎ ((out ≡ in_flight) × (others ≡ 0) × (0 < st.inflight))
      ⊎ ((out ≡ closing) × (others ≡ 0) × (st.inflight ≡ 0))
unfolding release release_from
release_answers p now wall duration_sec model_id key_id id st target named =
    rw (target, release_from)
      (ground (arith, release_held_lem p now wall duration_sec (norm_model model_id) key_id id st))

-- What a release by a holder does to the state.
pub record Freed (p q : Pool) (key key_id id : Text) (st : SessState) : Type 0 where
  pub state : SessState
  pub stored : q.sess ≡ insert id state p.sess
  pub holders : state.holders ≡ delete key_id st.holders
  pub inflight : state.inflight ≡ st.inflight
  pub closing : state.closing ≡ st.closing
  pub model : state.model ≡ st.model
  pub moved :
      ((state.retired ≡ st.retired) × (q.entries ≡ p.entries))
      ⊎ ((state.retired ≡ true) × (q.entries ≡ drop_if (lookup key p.entries) p.entries key id))

pub release_held-Freed :
    (p : Pool) (now wall duration_sec : ℕ) (key key_id id : Text) (st : SessState)
    → Freed p (release_held p now wall duration_sec key key_id id st).0 key key_id id st
unfolding release_held
release_held-Freed p now wall duration_sec key key_id id st =
    let kept : SessState = record st { holders = delete key_id st.holders } in
    elim (Bool-cases (ltb 0 (length (delete key_id st.holders)))) [
      | inl more ↦ rw more (record {
        state = kept;
        stored = refl;
        holders = refl;
        inflight = refl;
        closing = refl;
        model = refl;
        moved = inl (refl, refl);
      })
      | inr last ↦ elim (Bool-cases (ltb 0 st.inflight)) [
        | inl busy ↦
            rw (last, busy)
              (record {
                state = kept;
                stored = refl;
                holders = refl;
                inflight = refl;
                closing = refl;
                model = refl;
                moved = inl (refl, refl);
              })
        | inr quiet ↦
            rw (last, quiet)
              (record {
                state = mark_retired kept now;
                stored = refl;
                holders = ground arith;
                inflight = ground arith;
                closing = ground arith;
                model = ground arith;
                moved = inr (ground arith, refl);
              })
      ]
    ]

-- Who holds the session of this id, as a set of keys.
abbrev pub holds_session : Pool → Text → Text → Bool
holds_session p id key_id = elim (lookup id p.sess) [
  | none ↦ false
  | some st ↦ is_some (lookup key_id st.holders)
]

-- In a pool where no session has two states, a release by a key that is not empty and holds a session
-- of the model takes away its hold on that session and no other hold: neither another key's on any
-- session nor its own on another session.
pub release_frees_one :
    (p : Pool) (now wall duration_sec : ℕ) (model_id key_id id : Text) (st : SessState)
    (other sid : Text)
    → Distinct p.sess
    → release_target p (norm_model model_id) key_id ≡ some (id, st)
    → key_id ≢ []
    → let q = (release p now wall duration_sec model_id key_id).0 in
      (holds_session q id key_id ≡ false)
      × (((other ≡ key_id) × (sid ≡ id)) ⊎ (holds_session q sid other ≡ holds_session p sid other))
unfolding release release_from
release_frees_one p now wall duration_sec model_id key_id id st other sid d target named =
    let t = release_target-IsTarget p (norm_model model_id) key_id id st d target in
    let named_key : same key_id [] ≡ false = ground arith in
    let f = release_held-Freed p now wall duration_sec (norm_model model_id) key_id id st in
    rw (target, release_from, named_key)
      (
        ground (
          arith,
          f.stored,
          f.holders,
          lookup-insert id id f.state p.sess,
          lookup-delete key_id key_id st.holders,
        ),
        elim (dec_text sid id) [
          | no another ↦
              inr (ground (arith, f.stored, lookup-insert id sid f.state p.sess, another))
          | yes its ↦ elim (dec_text other key_id) [
            | yes e ↦ inl (e, its)
            | no n ↦ inr (
                ground (
                  arith,
                  f.stored,
                  f.holders,
                  t.found,
                  lookup-insert id sid f.state p.sess,
                  lookup-delete key_id other st.holders,
                ))
          ]
        ],
      )
