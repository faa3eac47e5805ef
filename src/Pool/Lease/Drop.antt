-- ===== src/Pool/Lease/Drop.antt =====
-- How sessions enter and leave the pool (internal/pool/lease.go: forget, retireForFailover,
-- failoverCloseFailed, poolOpenedLocked, adoptLocked, holdsLiveLocked, InFlight, TotalInFlight, and
-- internal/pool/pool.go: Invalidate).
use morpheus_uplink.Base.{
  ℕ, ◌+◌, ◌-◌, ◌*◌, Bool, true, false, ◌&&◌, ◌||◌, Option, none, some, [], ◌∷◌, Text, same, ltb,
  if◌then◌else◌, not, any, keep, Map, lookup, insert, delete, to_lower, lower_trim, ite, dec_text,
  lookup-insert, ◌≡◌, refl, arith,
}
use morpheus_uplink.Pool.Slot.{second}
use morpheus_uplink.Pool.Lease.{
  Pool, Entry, SessState, norm_model, new_state, mark_retired, drop_entry, expiry_buffer, retire,
}

-- A session that is closed, with the pool slots that still point at it.
unfoldable pub forget : Pool → Text → Pool
forget p id =
    let q : Pool = record p { sess = delete id p.sess } in
    if same id [] then q else record q {
      entries = keep (λ r. not (same (to_lower r.1.session_id) (to_lower id))) p.entries;
    }

unfoldable pub invalidate_entry : Option Entry → Pool → Pool
invalidate_entry none p = p
invalidate_entry (some e) p = record p { sess = delete e.session_id p.sess }

unfoldable pub invalidate : Pool → Text → Pool
unfolding invalidate_entry
invalidate p model_id =
    let key : Text = norm_model model_id in
    let q : Pool = invalidate_entry (lookup key p.entries) p in
    record q { entries = delete key q.entries }

unfoldable pub failover_state : Option SessState → Pool → ℕ → Text → Pool × Bool
unfolding mark_retired
failover_state none p now id = (p, true)
failover_state (some st) p now id =
    let kept : SessState = mark_retired st now in
    if ltb 0 kept.inflight || kept.closing
    then (record p { sess = insert id kept p.sess }, false)
    else (record p { sess = insert id (record kept { closing = true }) p.sess }, true)

-- The answer says whether the session may be closed now.
unfoldable pub retire_for_failover : Pool → ℕ → Text → Text → Pool × Bool
unfolding failover_state drop_entry
retire_for_failover p now key id = failover_state (lookup id p.sess) (drop_entry p key id) now id

unfoldable pub failover_failed_state : Option SessState → Pool → Text → Pool
failover_failed_state none p id = p
failover_failed_state (some st) p id = record p {
  sess = insert id (record st { closing = false; close_fails = st.close_fails + 1 }) p.sess;
}

unfoldable pub failover_close_failed : Pool → Text → Pool
unfolding failover_failed_state
failover_close_failed p id = failover_failed_state (lookup id p.sess) p id

unfoldable pub in_flight_of : Option SessState → ℕ
in_flight_of none = 0
in_flight_of (some st) = st.inflight

unfoldable pub in_flight : Pool → Text → ℕ
unfolding in_flight_of
in_flight p id = in_flight_of (lookup id p.sess)

pub in_flight-insert :
    (p q : Pool) (id j : Text) (st : SessState)
    → q.sess ≡ insert id st p.sess
    → in_flight q j ≡ ite (dec_text id j) st.inflight (in_flight p j)
unfolding in_flight in_flight_of
in_flight-insert p q id j st e = rw e (ground (arith, lookup-insert id j st p.sess))

pub in_flight_eq :
    (p q : Pool) (j : Text) → lookup j q.sess ≡ lookup j p.sess → in_flight q j ≡ in_flight p j
unfolding in_flight
in_flight_eq p q j e = rw e

failover_state-idle :
    (o : Option SessState) (p : Pool) (now : ℕ) (id : Text)
    → (failover_state o p now id).1 ≡ true
    → in_flight_of o ≡ 0
unfolding failover_state mark_retired in_flight_of
failover_state-idle none p now id h = refl
failover_state-idle (some st) p now id h = ground (arith, h)

drop_entry-sess : (p : Pool) (key id : Text) → (drop_entry p key id).sess ≡ p.sess
unfolding drop_entry
drop_entry-sess p key id = refl

-- A session that may be closed now has no request in flight.
pub retire_for_failover-idle :
    (p : Pool) (now wall duration_sec ends_at : ℕ) (key id : Text)
    → (retire_for_failover (retire p wall duration_sec id ends_at) now key id).1 ≡ true
    → in_flight p id ≡ 0
unfolding retire_for_failover in_flight retire
retire_for_failover-idle p now wall duration_sec ends_at key id h =
    failover_state-idle (lookup id p.sess) _ now id
      (rw (drop_entry-sess (retire p wall duration_sec id ends_at) key id) at h)

unfoldable pub total_in_flight : Map SessState → ℕ
total_in_flight [] = 0
total_in_flight ((id, st) ∷ m) = st.inflight + total_in_flight m

pub record OpenResult : Type 0 where
  pub id : Text
  pub provider : Text
  pub stake : Option ℕ
  pub adopted : Bool
  pub resumed : Bool
  pub opened_at : ℕ
  pub ends_at : ℕ

-- The expiry stops at 0 where the source's time would be before its zero.
unfoldable pub pool_opened_locked : Pool → ℕ → Text → OpenResult → ℕ → Text → Pool × SessState
unfolding new_state
pool_opened_locked p now key got duration_sec opener =
    let opened : ℕ = if got.adopted then got.opened_at else now in
    let ends : ℕ = if got.adopted then got.ends_at else now + duration_sec * second in
    let st : SessState = new_state key now opened ends opener in
    (
      record p {
        entries =
            insert key
              (record {
                session_id = got.id;
                expires_at = ends - expiry_buffer;
                stake = got.stake;
                provider = lower_trim got.provider;
              })
              p.entries;
        sess = insert got.id st p.sess;
        opened = insert (to_lower got.id) true p.opened;
      },
      st,
    )

unfoldable pub adopt_state : Option SessState → Pool → ℕ → Text → OpenResult → Pool × SessState
unfolding new_state
adopt_state (some st) p now key got = (p, st)
adopt_state none p now key got =
    let st : SessState = new_state key now got.opened_at got.ends_at [] in
    (record p { sess = insert got.id st p.sess }, st)

unfoldable pub adopt_locked : Pool → ℕ → Text → OpenResult → Pool × SessState
unfolding adopt_state
adopt_locked p now key got =
    adopt_state (lookup got.id p.sess)
      (record p {
        entries =
            insert key
              (record {
                session_id = got.id;
                expires_at = got.ends_at - expiry_buffer;
                stake = got.stake;
                provider = lower_trim got.provider;
              })
              p.entries;
      })
      now key got

-- Whether a session of the model is tracked that is still live on chain.
unfoldable pub holds_live_locked : Pool → ℕ → Text → Bool
holds_live_locked p now key = any (λ r. same r.1.model key && ltb now r.1.ends_at) p.sess
