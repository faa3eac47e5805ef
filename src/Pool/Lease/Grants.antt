-- ===== src/Pool/Lease/Grants.antt =====
-- What a lease guarantees (internal/pool/lease.go: tryPooledLocked, LeaseSession, Lease.Done).
use morpheus_uplink.Base.{
  ℕ, ◌+◌, ◌<◌, ◌≡◌, refl, ◌≢◌, ◌⊎◌, inl, inr, true, false, ◌||◌, Option, none, some, [], arith,
  Text, lookup, lookup-insert, if◌then◌else◌, Bool-cases, Option-cases, ltb, insert, ite, dec_text,
  ◌-◌, if_pos, if_neg, sym,
}
use morpheus_uplink.Pool.Lease.{
  Pool, Entry, SessState, new_state, expiry_buffer, closing_marked, state_for, state_locked, leased,
  lease_locked, lease_if_open, lease_entry, try_entry, try_pooled_locked, done_state, done,
}
use morpheus_uplink.Pool.Lease.Drop.{in_flight, in_flight_of, in_flight_eq, in_flight-insert}

-- What is known of a session that was just leased.
pub record Leased (p : Pool) (now : ℕ) (e : Entry) (id : Text) (q : Pool) : Type 0 where
  pub state : SessState
  pub pooled : e.session_id ≡ id
  pub unexpired : now < e.expires_at
  pub unmarked : closing_marked p id ≡ false
  pub found : lookup id q.sess ≡ some state
  pub not_retired : state.retired ≡ false
  pub not_closing : state.closing ≡ false
  pub counted : state.inflight ≡ in_flight p id + 1
  pub used : state.last_use ≡ now
  pub same_entries : q.entries ≡ p.entries
  pub before :
      (lookup id p.sess ≡ none)
      ⊎ ((st : SessState) × (lookup id p.sess ≡ some st)
          × (st.retired ≡ false)
          × (st.closing ≡ false)
          × (st.model ≡ state.model))
  pub others : (j : Text) → j ≢ id → lookup j q.sess ≡ lookup j p.sess

state_for_lem :
    (o : Option SessState) (p : Pool) (now : ℕ) (key key_id : Text) (e : Entry) (id : Text)
    → lookup e.session_id p.sess ≡ o
    → closing_marked p e.session_id ≡ false
    → now < e.expires_at
    → (lease_if_open (state_for o p now key e) now e.session_id key_id).1 ≡ some id
    → Leased p now e id (lease_if_open (state_for o p now key e) now e.session_id key_id).0
unfolding state_for lease_if_open lease_locked leased in_flight new_state
state_for_lem none p now key key_id e id l m b h = record {
  state = leased (new_state key now now (e.expires_at + expiry_buffer) []) now key_id;
  pooled = ground arith;
  unexpired = b;
  unmarked = ground arith;
  found = ground (
    arith,
    lookup-insert e.session_id id
        (leased (new_state key now now (e.expires_at + expiry_buffer) []) now key_id)
        (insert e.session_id (new_state key now now (e.expires_at + expiry_buffer) []) p.sess),
  );
  not_retired = refl;
  not_closing = refl;
  counted = ground arith;
  used = refl;
  same_entries = refl;
  before = inl (ground arith);
  others = λ j ne. ground (
    arith,
    lookup-insert e.session_id j
        (leased (new_state key now now (e.expires_at + expiry_buffer) []) now key_id)
        (insert e.session_id (new_state key now now (e.expires_at + expiry_buffer) []) p.sess),
    lookup-insert e.session_id j (new_state key now now (e.expires_at + expiry_buffer) []) p.sess,
  );
}
state_for_lem (some st) p now key key_id e id l m b h = record {
  state = leased st now key_id;
  pooled = ground arith;
  unexpired = b;
  unmarked = ground arith;
  found = ground (arith, lookup-insert e.session_id id (leased st now key_id) p.sess);
  not_retired = ground arith;
  not_closing = ground arith;
  counted = ground arith;
  used = refl;
  same_entries = ground arith;
  before = inr (st, ground arith, ground arith, ground arith, refl);
  others = λ j ne. ground (arith, lookup-insert e.session_id j (leased st now key_id) p.sess);
}

try_entry-Leased :
    (e : Entry) (p : Pool) (now : ℕ) (key key_id id : Text)
    → (try_entry (some e) p now key key_id).1 ≡ some id
    → Leased p now e id (try_entry (some e) p now key key_id).0
unfolding try_entry state_locked
try_entry-Leased e p now key key_id id h = elim (Bool-cases (ltb now e.expires_at)) [
  | inr late ↦ absurd (ground arith)
  | inl live ↦ elim (Bool-cases (closing_marked p e.session_id)) [
    | inl marked ↦ absurd (ground arith)
    | inr clear ↦
        rw (live, clear)
          (state_for_lem (lookup e.session_id p.sess) p now key key_id e id refl clear
            (ground arith) (ground arith))
  ]
]

-- The pooled session is handed out only while the entry is unexpired and unmarked and the session is
-- neither retired nor closing; then its count of requests in flight is one more, its last use is now,
-- and no entry changes.
pub try_pooled_locked-Leased :
    (p : Pool) (now : ℕ) (key key_id id : Text)
    → (try_pooled_locked p now key key_id).1 ≡ some id
    → (e : Entry) × (lookup key p.entries ≡ some e)
      × Leased p now e id (try_pooled_locked p now key key_id).0
unfolding try_pooled_locked
try_pooled_locked-Leased p now key key_id id h = elim (Option-cases (lookup key p.entries)) [
  | inl missing ↦ absurd (unfold try_entry in ground arith)
  | inr (e, there) ↦ (e, there, rw there (try_entry-Leased e p now key key_id id (rw there at h)))
]

done_lem :
    (q : Pool) (later : ℕ) (id j : Text) (st : SessState)
    → lookup id q.sess ≡ some st
    → in_flight (done q later id).0 j ≡ ite (dec_text id j) (st.inflight - 1) (in_flight q j)
unfolding done done_state
done_lem q later id j st h =
    rw (h, done_state)
      (ground (
        arith,
        in_flight-insert q
            (record q {
              sess =
                  insert id
                    (record st {
                      inflight = if ltb 0 st.inflight then st.inflight - 1 else st.inflight;
                      last_use = later;
                    })
                    q.sess;
            })
            id j
            (record st {
              inflight = if ltb 0 st.inflight then st.inflight - 1 else st.inflight;
              last_use = later;
            }),
      ))

-- The end of a lease undoes its count: for every session, the requests in flight are what they were
-- before the lease was taken.
pub done-try_pooled_locked :
    (p : Pool) (now later : ℕ) (key key_id id j : Text)
    → (try_pooled_locked p now key key_id).1 ≡ some id
    → in_flight (done (try_pooled_locked p now key key_id).0 later id).0 j ≡ in_flight p j
done-try_pooled_locked p now later key key_id id j h =
    let (e, there, l) = try_pooled_locked-Leased p now key key_id id h in
    let q : Pool = (try_pooled_locked p now key key_id).0 in
    rw (done_lem q later id j l.state l.found) (elim (dec_text id j) [
      | yes eq ↦ rw (if_pos _ eq, ← eq) (omega (arith, l.counted))
      | no ne ↦ rw (if_neg _ ne) (in_flight_eq p q j (l.others j (λ e. ne (sym e))))
    ])

lease_entry_refuses :
    (s : Pool × SessState) (now : ℕ) (id key_id : Text)
    → (s.1.retired || s.1.closing) ≡ true
    → ((lease_if_open s now id key_id).1 ≡ none) × ((lease_entry s now id key_id).1 ≡ none)
unfolding lease_if_open lease_entry
lease_entry_refuses (p, st) now id key_id h = ground arith

-- A session that is retired or closing is never handed out.
try_pooled_locked_refuses :
    (p : Pool) (now : ℕ) (key key_id id : Text) (st : SessState)
    → lookup id p.sess ≡ some st
    → (st.retired || st.closing) ≡ true
    → (try_pooled_locked p now key key_id).1 ≢ some id
try_pooled_locked_refuses p now key key_id id st there off h =
    let (e, _, l) = try_pooled_locked-Leased p now key key_id id h in ground (arith, l.before)

-- A new lease is one more request in flight.
pub in_flight-lease_locked :
    (p : Pool) (now : ℕ) (id key_id : Text) (st : SessState)
    → in_flight (lease_locked p now id st key_id) id ≡ st.inflight + 1
unfolding lease_locked leased
in_flight-lease_locked p now id key_id st =
    ground (
      arith,
      in_flight-insert p (lease_locked p now id st key_id) id id (leased st now key_id) refl,
    )

-- A lease that was just taken is in flight.
pub try_pooled_locked-in_flight :
    (p : Pool) (now : ℕ) (key key_id id : Text)
    → (try_pooled_locked p now key key_id).1 ≡ some id
    → 0 < in_flight (try_pooled_locked p now key key_id).0 id
unfolding in_flight in_flight_of
try_pooled_locked-in_flight p now key key_id id h =
    let (e, _, l) = try_pooled_locked-Leased p now key key_id id h in
    rw l.found (omega (arith, l.counted))

-- Whether the session of an entry may be leased.
abbrev pub Leasable : Pool → ℕ → Entry → Type 0
Leasable p now e =
    (now < e.expires_at)
    × (closing_marked p e.session_id ≡ false)
    × ((st : SessState)
        → lookup e.session_id p.sess ≡ some st
        → (st.retired ≡ false) × (st.closing ≡ false))

lease_state_for :
    (o : Option SessState) (p : Pool) (now : ℕ) (key key_id : Text) (e : Entry)
    → ((st : SessState) → o ≡ some st → (st.retired ≡ false) × (st.closing ≡ false))
    → (lease_if_open (state_for o p now key e) now e.session_id key_id).1 ≡ some e.session_id
unfolding state_for lease_if_open new_state
lease_state_for none p now key key_id e ok = refl
lease_state_for (some st) p now key key_id e ok =
    let (on, at_rest) = ok st refl in ground (arith, on, at_rest)

pub try_pooled_locked-leases :
    (p : Pool) (now : ℕ) (key key_id : Text) (e : Entry)
    → lookup key p.entries ≡ some e
    → Leasable p now e
    → (try_pooled_locked p now key key_id).1 ≡ some e.session_id
unfolding try_pooled_locked try_entry state_locked
try_pooled_locked-leases p now key key_id e there (early, clear, ok) =
    let live : ltb now e.expires_at ≡ true = ground (arith, early) in
    rw (there, live, clear) (lease_state_for (lookup e.session_id p.sess) p now key key_id e ok)
