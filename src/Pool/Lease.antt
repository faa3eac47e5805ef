-- ===== src/Pool/Lease.antt =====
-- Leases, holders and release (internal/pool/lease.go, and Invalidate of internal/pool/pool.go).
-- Each section under `p.mu` is a function on the fields that it uses; time is an argument and counts
-- nanoseconds. The maps `entries`, `sess` and `closingIDs` are association lists. Log lines and the
-- hooks of the tests are left out.
mod Release
pub mod Sweep
pub mod Drop
pub mod Grants
mod Invariant
mod Adoption
mod Sections
mod Steps
mod Tests
use morpheus_uplink.Base.{
  ℕ, ◌+◌, ◌-◌, ◌*◌, Bool, true, false, ◌&&◌, ◌||◌, Option, none, some, List, [], ◌∷◌, Text, same,
  ltb, leb, ◌==◌, if◌then◌else◌, is_some, length, not, Map, lookup, insert, delete, to_lower,
  lower_trim, keep, map, text_ltb,
}
use morpheus_uplink.Pool.Slot.{second}

abbrev pub expiry_buffer : ℕ
expiry_buffer = 90 * second

abbrev pub max_close_retries : ℕ
max_close_retries = 3

pub record Entry : Type 0 where
  pub session_id : Text
  pub expires_at : ℕ
  pub stake : Option ℕ
  pub provider : Text

pub record SessState : Type 0 where
  pub model : Text
  pub inflight : ℕ
  pub holders : Map ℕ
  pub last_use : ℕ
  pub opened_at : ℕ
  pub ends_at : ℕ
  pub opener : Text
  pub retired : Bool
  pub retired_at : ℕ
  pub closing : Bool
  pub close_fails : ℕ

-- The fields of `Pool` that leases use. `closing_ids` maps to the expiry of a mark, 0 for one whose
-- close is in progress; `retired` maps to the end of a session that is never adopted again; `opened` is a
-- set of lowercase ids.
pub record Pool : Type 0 where
  pub entries : Map Entry
  pub sess : Map SessState
  pub closing_ids : Map ℕ
  pub retired : Map ℕ
  pub opened : Map Bool

unfoldable pub norm_model : Text → Text
unfolding lower_trim
norm_model = lower_trim

unfoldable pub new_state : Text → ℕ → ℕ → ℕ → Text → SessState
new_state key now opened_at ends_at opener = record {
  model = key;
  inflight = 0;
  holders = [];
  last_use = now;
  opened_at = opened_at;
  ends_at = ends_at;
  opener = opener;
  retired = false;
  retired_at = 0;
  closing = false;
  close_fails = 0;
}

-- The pool with the state of the entry's session, which is made if there is none.
state_for : Option SessState → Pool → ℕ → Text → Entry → Pool × SessState
unfolding new_state
state_for (some st) p now key e = (p, st)
state_for none p now key e =
    let st : SessState = new_state key now now (e.expires_at + expiry_buffer) [] in
    (record p { sess = insert e.session_id st p.sess }, st)

pub state_locked : Pool → ℕ → Text → Entry → Pool × SessState
unfolding state_for
state_locked p now key e = state_for (lookup e.session_id p.sess) p now key e

unfoldable pub closing_marked : Pool → Text → Bool
closing_marked p id = is_some (lookup (to_lower id) p.closing_ids)

leased : SessState → ℕ → Text → SessState
leased st now key_id = record st {
  inflight = st.inflight + 1;
  holders = if same key_id [] then st.holders else insert key_id now st.holders;
  last_use = now;
}

unfoldable pub lease_locked : Pool → ℕ → Text → SessState → Text → Pool
unfolding leased
lease_locked p now id st key_id = record p { sess = insert id (leased st now key_id) p.sess }

-- The state is made before it is looked at, so a refusal may leave one behind.
pub lease_if_open : Pool × SessState → ℕ → Text → Text → Pool × Option Text
lease_if_open (p, st) now id key_id =
    if st.retired || st.closing then (p, none) else (lease_locked p now id st key_id, some id)

try_entry : Option Entry → Pool → ℕ → Text → Text → Pool × Option Text
unfolding lease_if_open
try_entry none p now key key_id = (p, none)
try_entry (some e) p now key key_id =
    if not (ltb now e.expires_at)
    then (p, none)
    else if closing_marked p e.session_id
    then (p, none)
    else lease_if_open (state_locked p now key e) now e.session_id key_id

-- The lease is the session id that it holds.
unfoldable pub try_pooled_locked : Pool → ℕ → Text → Text → Pool × Option Text
unfolding try_entry
try_pooled_locked p now key key_id = try_entry (lookup key p.entries) p now key key_id

lease_entry : Pool × SessState → ℕ → Text → Text → Pool × Option Text
lease_entry (p, st) now id key_id =
    if st.retired || st.closing || closing_marked p id
    then (p, none)
    else (lease_locked p now id st key_id, some id)

-- The loop of `LeaseSession` over the entries.
lease_from : Map Entry → Pool → ℕ → Text → Text → Pool × Option Text
unfolding lease_entry
lease_from [] p now id key_id = (p, none)
lease_from ((key, e) ∷ es) p now id key_id =
    let next = lease_from es p now id key_id in
    if not (same e.session_id id) || not (ltb now e.expires_at)
    then next
    else lease_entry (state_locked p now key e) now id key_id

pub lease_session : Pool → ℕ → Text → Text → Pool × Option Text
unfolding lease_from
lease_session p now id key_id = lease_from p.entries p now id key_id

-- What `Lease.Done` does once; the answer says whether it asks for a sweep.
done_state : Option SessState → Pool → ℕ → Text → Pool × Bool
done_state none p now id = (p, false)
done_state (some st) p now id =
    let left : ℕ = if ltb 0 st.inflight then st.inflight - 1 else st.inflight in
    (
      record p { sess = insert id (record st { inflight = left; last_use = now }) p.sess },
      left == 0 && st.retired && not st.closing && ltb st.close_fails max_close_retries,
    )

pub done : Pool → ℕ → Text → Pool × Bool
unfolding done_state
done p now id = done_state (lookup id p.sess) p now id

pub mark_retired : SessState → ℕ → SessState
mark_retired st now = if st.retired then st else record st { retired = true; retired_at = now }

unfoldable pub unheld_since : SessState → ℕ
unheld_since st = if ltb st.retired_at st.last_use then st.last_use else st.retired_at

-- `if e, ok := p.entries[key]; ok && e.sessionID == id { delete(p.entries, key) }`
pub drop_if : Option Entry → Map Entry → Text → Text → Map Entry
drop_if none m key id = m
drop_if (some e) m key id = if same e.session_id id then delete key m else m

pub drop_entry : Pool → Text → Text → Pool
unfolding drop_if
drop_entry p key id = record p { entries = drop_if (lookup key p.entries) p.entries key id }

pub holds_key : Text → SessState → Bool
holds_key key_id st = is_some (lookup key_id st.holders)

-- `retire`, on the wall clock.
unfoldable pub retire : Pool → ℕ → ℕ → Text → ℕ → Pool
retire p wall duration_sec id ends_at =
    let end : ℕ =
      if ltb wall ends_at then ends_at else wall + (duration_sec * second + expiry_buffer) in
    record p { retired = insert id end (keep (λ r. ltb wall r.1) p.retired) }
