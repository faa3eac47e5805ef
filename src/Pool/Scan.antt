-- ===== src/Pool/Scan.antt =====
-- One list of the wallet's open sessions, applied to the pool (internal/pool/sweep.go: applyScan). Log
-- lines, the warnings about a shared wallet and the copy for the status page are left out. A Go map
-- of lists is an association list in the order of its first keys.
pub mod Apply
pub mod Close
mod Collected
mod Tests
use morpheus_uplink.Base.{
  ℕ, ◌+◌, ◌-◌, ◌*◌, ◌/◌, Bool, true, false, ◌&&◌, ◌||◌, Option, none, some, List, [], ◌∷◌, ◌++◌,
  Text, same, ltb, leb, ◌==◌, if◌then◌else◌, is_some, keep, map, not, any, Map, lookup, insert,
  delete, to_lower, text_ltb, length,
}
use morpheus_uplink.Pool.Slot.{second}
use morpheus_uplink.Pool.Lease.{
  Pool, Entry, SessState, norm_model, closing_marked, expiry_buffer, new_state,
}
use morpheus_uplink.Pool.Lease.Sweep.{cut_close_mark}
use morpheus_uplink.Pool.Candidates.{is_in, norm_prov}
use morpheus_uplink.Pool.Attempts.{
  ChainSession, Attempt, prune_attempts, match_attempt, resolve_attempt,
}
use morpheus_uplink.Pool.Reconcile.{expiry_seconds, pick_one, prune_grace}

-- The fields of `Pool` that a scan uses; `known_dup` is a set of lowercase ids, `close_due_at` maps a lowercase id to
-- when the sweep first saw it close-due.
pub record Wallet : Type 0 where
  pub pool : Pool
  pub pending : List Attempt
  pub known_dup : List Text
  pub close_due_at : Map ℕ
  pub foreign_at : List ℕ
  pub started : ℕ

pub data Reason : Type 0 where
  expired duplicate retired excluded : Reason

pub record Due : Type 0 where
  pub session : ChainSession
  pub reason : Reason

-- What the first loop has sorted so far.
pub record Sorted : Type 0 where
  pub pending : List Attempt
  pub opened : Map Bool
  pub due : List Due
  pub matched : Map (List ChainSession)
  pub older : Map (List ChainSession)
  pub any_matched : Bool

pub on_chain : List ChainSession → Text → Bool
on_chain listed lid = any (λ s. same (to_lower s.id) lid) listed

-- The marks that stay: those of a close in progress, and of a cut close that is neither seen closed nor
-- run out.
unfoldable pub drop_marks : List ChainSession → ℕ → Map ℕ → Map ℕ
unfolding on_chain
drop_marks listed now = keep (λ r. r.1 == 0 || (on_chain listed r.0 && ltb now r.1))

unfoldable pub closed_late : List ChainSession → ℕ → Map ℕ → List Text
unfolding on_chain
closed_late listed now m =
    map (λ r. r.0) (keep (λ r. not (r.1 == 0) && not (on_chain listed r.0)) m)

-- Tracked by leases: not retired with nothing in flight.
abbrev pub tracked : SessState → Bool
tracked st = not (st.retired && not st.closing && st.inflight == 0)

unfoldable pub held : Pool → Text → Bool
held p lid =
    any (λ r. same (to_lower r.1.session_id) lid) p.entries
    || any (λ r. tracked r.1 && same (to_lower r.0) lid) p.sess

-- Whether the session is leased out: in flight, closing or retired.
unfoldable pub idle_state : Option SessState → Bool
idle_state none = true
idle_state (some st) = st.inflight == 0 && not st.closing && not st.retired

closable_state : Option SessState → Bool
closable_state none = true
closable_state (some st) = not st.retired && not st.closing

usable_slot : Option Entry → Pool → ℕ → Bool
unfolding closable_state
usable_slot none p now = false
usable_slot (some e) p now =
    ltb now e.expires_at
    && not (closing_marked p e.session_id)
    && closable_state (lookup e.session_id p.sess)

pub usable_entry : Pool → ℕ → Text → Bool
unfolding usable_slot
usable_entry p now key = usable_slot (lookup key p.entries) p now

pub usable : ℕ → ChainSession → Bool
usable now s = ltb (now / second + expiry_seconds) s.ends_at

is_retired_state : Option SessState → Bool
is_retired_state none = false
is_retired_state (some st) = st.retired

-- `retired[lid]`: never adopted again, or released or failed over with nothing in flight.
pub retired_id : Pool → ChainSession → Bool
unfolding is_retired_state
retired_id p s =
    any (λ r. same (to_lower r.0) (to_lower s.id)) p.retired
    || is_retired_state (lookup s.id p.sess)

abbrev pub group_of : Option (List ChainSession) → List ChainSession
group_of none = []
group_of (some ss) = ss

pub add_to : Map (List ChainSession) → Text → ChainSession → Map (List ChainSession)
add_to m key s = insert key (group_of (lookup key m) ++ s ∷ []) m

pub owe : Sorted → ChainSession → Reason → Sorted
owe t s why = record t { due = t.due ++ record { session = s; reason = why } ∷ [] }

-- The `switch` for a session that is neither held nor matched.
pub sort_unheld : Wallet → ℕ → List Text → Sorted → ChainSession → Sorted
unfolding usable owe retired_id add_to
sort_unheld w now barred t s =
    if not (usable now s)
    then owe t s expired
    else if is_in w.known_dup (to_lower s.id)
    then owe t s duplicate
    else if ltb (now - prune_grace) (s.opened_at * second)
    then t
    else if retired_id w.pool s
    then owe t s retired
    else if is_in barred (norm_prov s.provider)
    then owe t s excluded
    else record t { older = add_to t.older (norm_model s.model_agent_id) s }

pub sort_matched : Option Attempt → Wallet → ℕ → List Text → Sorted → ChainSession → Sorted
unfolding sort_unheld usable owe add_to
sort_matched none w now barred t s = sort_unheld w now barred t s
sort_matched (some a) w now barred t s =
    let u : Sorted = record t {
      pending = resolve_attempt t.pending a.ref;
      opened = insert (to_lower s.id) true t.opened;
      any_matched = true;
    } in
    if usable now s then record u { matched = add_to u.matched a.model s } else owe u s expired

unfoldable pub sort_one : Wallet → ℕ → List Text → Sorted → ChainSession → Sorted
unfolding sort_matched owe usable
sort_one w now barred t s =
    if closing_marked w.pool s.id
    then t
    else if held w.pool (to_lower s.id)
    then (if not (usable now s) && idle_state (lookup s.id w.pool.sess) then owe t s expired else t)
    else sort_matched (match_attempt t.pending s) w now barred t s

unfoldable pub sort_open : Wallet → ℕ → List Text → Sorted → List ChainSession → Sorted
sort_open w now barred t [] = t
sort_open w now barred t (s ∷ ss) = sort_open w now barred (sort_one w now barred t s) ss
