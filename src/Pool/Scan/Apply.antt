-- ===== src/Pool/Scan/Apply.antt =====
-- The second half of a scan: adoption, pruning and the choice of one close (internal/pool/sweep.go:
-- applyScan).
mod Owing
pub mod Laws
use morpheus_uplink.Base.{
  ℕ, ◌+◌, ◌-◌, ◌*◌, ◌/◌, Bool, true, false, ◌&&◌, ◌||◌, Option, none, some, List, [], ◌∷◌, ◌++◌,
  Text, same, ltb, leb, ◌==◌, if◌then◌else◌, is_some, keep, map, not, any, Map, lookup, insert,
  delete, to_lower, text_ltb, length,
}
use morpheus_uplink.Pool.Slot.{second}
use morpheus_uplink.Pool.Lease.{Pool, Entry, SessState, norm_model, expiry_buffer, new_state}
use morpheus_uplink.Pool.Lease.Sweep.{cut_close_mark}
use morpheus_uplink.Pool.Candidates.{norm_prov}
use morpheus_uplink.Pool.Attempts.{ChainSession, prune_attempts}
use morpheus_uplink.Pool.Reconcile.{pick_one, prune_grace}
use morpheus_uplink.Pool.Scan.{
  Wallet, Reason, duplicate, Due, Sorted, on_chain, drop_marks, usable_entry, sort_open,
}

unfoldable pub with_state : Option SessState → Pool → ℕ → Text → ChainSession → Pool
unfolding new_state
with_state (some st) p now key s = p
with_state none p now key s = record p {
  sess = insert s.id (new_state key now (s.opened_at * second) (s.ends_at * second) []) p.sess;
}

unfoldable pub adopt : Pool → ℕ → ChainSession → Pool
unfolding with_state
adopt p now s =
    let key : Text = norm_model s.model_agent_id in
    let q : Pool = record p {
      entries =
          insert key
            (record {
              session_id = s.id;
              expires_at = s.ends_at * second - expiry_buffer;
              stake = s.stake;
              provider = norm_prov s.provider;
            })
            p.entries;
    } in
    with_state (lookup s.id p.sess) q now key s

-- What the two adoption loops change. `uptime_ok` is the process's age above the grace.
pub record Adopting : Type 0 where
  pub wallet : Wallet
  pub older : Map (List ChainSession)
  pub due : List Due
  pub adopted : ℕ

abbrev pub as_duplicates : List ChainSession → List Due
as_duplicates = map (λ s. record { session = s; reason = duplicate })

abbrev lower_ids : List ChainSession → List Text
lower_ids = map (λ s. to_lower s.id)

abbrev pub others : ChainSession → List ChainSession → List ChainSession
others best = keep (λ s. not (same s.id best.id))

abbrev pub sessions_of : Option (List ChainSession) → List ChainSession
sessions_of none = []
sessions_of (some ss) = ss

-- Sessions of one model that this process opened.
pub adopt_matched : ℕ → Adopting → Text → List ChainSession → Adopting
unfolding usable_entry adopt
adopt_matched now a key [] = a
adopt_matched now a key (s ∷ ss) =
    let w : Wallet = a.wallet in
    let best : ChainSession = pick_one s ss in
    if usable_entry w.pool now key
    then record a {
      wallet = record w { known_dup = lower_ids (s ∷ ss) ++ w.known_dup };
      due = a.due ++ as_duplicates (s ∷ ss);
    }
    else record a {
      wallet = record w {
        pool = adopt w.pool now best;
        known_dup = lower_ids (others best (s ∷ ss)) ++ w.known_dup;
      };
      due =
          a.due
          ++ as_duplicates (others best (s ∷ ss))
          ++ as_duplicates (sessions_of (lookup key a.older));
      older = delete key a.older;
      adopted = a.adopted + 1;
    }

-- Older sessions of one model.
pub adopt_older : ℕ → Bool → Adopting → Text → List ChainSession → Adopting
unfolding usable_entry adopt
adopt_older now uptime_ok a key [] = a
adopt_older now uptime_ok a key (s ∷ ss) =
    let w : Wallet = a.wallet in
    let best : ChainSession = pick_one s ss in
    let q : Pool = adopt w.pool now best in
    if usable_entry w.pool now key
    then record a { due = a.due ++ as_duplicates (s ∷ ss) }
    else record a {
      wallet = record w {
        pool = q;
        foreign_at =
            if not (is_some (lookup (to_lower best.id) q.opened)) && uptime_ok
            then w.foreign_at ++ now ∷ []
            else w.foreign_at;
      };
      due = a.due ++ as_duplicates (others best (s ∷ ss));
      adopted = a.adopted + 1;
    }

pub each_matched : ℕ → Map (List ChainSession) → Adopting → Adopting
unfolding adopt_matched
each_matched now [] a = a
each_matched now ((key, ss) ∷ m) a = each_matched now m (adopt_matched now a key ss)

pub each_older : ℕ → Bool → Map (List ChainSession) → Adopting → Adopting
unfolding adopt_older
each_older now uptime_ok [] a = a
each_older now uptime_ok ((key, ss) ∷ m) a =
    each_older now uptime_ok m (adopt_older now uptime_ok a key ss)

-- Whether a slot whose session is not listed is kept: its session is in flight or too new.
keeps_state : Option SessState → ℕ → Bool
keeps_state none keep_after = false
keeps_state (some st) keep_after = ltb 0 st.inflight || ltb keep_after st.opened_at

pub prune_slots : List ChainSession → ℕ → Pool → Pool
unfolding keeps_state on_chain
prune_slots listed scan_start p = record p {
  entries =
      keep
        (λ r.
          on_chain listed (to_lower r.1.session_id)
          || keeps_state (lookup r.1.session_id p.sess) (scan_start - prune_grace))
        p.entries;
}

since : Option ℕ → ℕ → ℕ
since none now = now
since (some t) now = t

mark_due : List Due → ℕ → Map ℕ → Map ℕ
unfolding since
mark_due [] now m = m
mark_due (d ∷ ds) now m =
    let lid : Text = to_lower d.session.id in
    mark_due ds now (insert lid (since (lookup lid m) now) m)

is_due : List Due → Text → Bool
is_due due lid = any (λ d. same (to_lower d.session.id) lid) due

pub note_due : List Due → ℕ → Map ℕ → Map ℕ
unfolding mark_due is_due
note_due due now m = keep (λ r. is_due due r.0) (mark_due due now m)

-- The order of the closes: the longest due first, then by id.
pub before : Map ℕ → Due → Due → Bool
unfolding since
before m d e =
    let i : ℕ = since (lookup (to_lower d.session.id) m) 0 in
    let j : ℕ = since (lookup (to_lower e.session.id) m) 0 in
    if not (i == j) then ltb i j else text_ltb (to_lower d.session.id) (to_lower e.session.id)

-- The first of the sorted list.
pub first_due : Map ℕ → Due → List Due → Due
unfolding before
first_due m d [] = d
first_due m d (e ∷ es) = first_due m (if before m e d then e else d) es

-- While a cut close is pending, nothing is closed; else the choice is marked.
pub close_unless : Bool → Map ℕ → Due → Wallet → Wallet × Option Due
close_unless true marks c w = (record w { pool = record (w.pool) { closing_ids = marks } }, none)
close_unless false marks c w = (
  record w { pool = record (w.pool) { closing_ids = insert (to_lower c.session.id) 0 marks } },
  some c,
)

pub pick_close : List Due → ℕ → Wallet → Wallet × Option Due
unfolding close_unless first_due
pick_close [] now w = (w, none)
pick_close (d ∷ ds) now w =
    let (marks, cut) = cut_close_mark w.pool.closing_ids now in
    close_unless cut marks (first_due w.close_due_at d ds) w

-- The models with a live session in the list.
pub live_models : List ChainSession → ℕ → List Text
live_models listed now =
    map (λ s. norm_model s.model_agent_id)
      (keep (λ s. s.closed_at == 0 && ltb (now / second) s.ends_at) listed)

pub record ScanOut : Type 0 where
  pub wallet : Wallet
  pub listed : ℕ
  pub live : List Text
  pub adopted : ℕ
  pub close : Option Due
  pub due : List Due
  pub matched : Bool

-- The wallet with its stale marks and attempts dropped.
pub cleaned : List ChainSession → ℕ → Wallet → Wallet
unfolding drop_marks
cleaned listed now w = record w {
  pool = record (w.pool) { closing_ids = drop_marks listed now w.pool.closing_ids };
  pending = prune_attempts w.pending now;
}

pub sort_all : List ChainSession → ℕ → List Text → Wallet → Sorted
unfolding sort_open cleaned
sort_all listed now barred w =
    let v : Wallet = cleaned listed now w in
    sort_open v now barred
      (record {
        pending = v.pending;
        opened = v.pool.opened;
        due = [];
        matched = [];
        older = [];
        any_matched = false;
      })
      listed

pub adopt_all : List ChainSession → ℕ → Sorted → Wallet → Adopting
unfolding each_matched each_older cleaned
adopt_all listed now t w =
    let v : Wallet = cleaned listed now w in
    let a : Adopting = each_matched now t.matched (record {
      wallet = record v { pool = record (v.pool) { opened = t.opened }; pending = t.pending };
      older = t.older;
      due = t.due;
      adopted = 0;
    }) in
    each_older now (ltb (v.started + prune_grace) now) a.older a

pub pruned : List ChainSession → ℕ → ℕ → Wallet → Wallet
unfolding prune_slots on_chain
pruned listed scan_start now w = record w {
  pool = prune_slots listed scan_start w.pool;
  known_dup = keep (on_chain listed) w.known_dup;
  foreign_at = keep (λ t. ltb now (t + 3600 * second)) w.foreign_at;
}

pub swept : Bool → List Due → ℕ → Wallet → Wallet × Option Due
unfolding pick_close note_due
swept false due now w = (w, none)
swept true due now w =
    pick_close due now (record w { close_due_at = note_due due now w.close_due_at })

-- `sweeping` is the mode of the sweep, which holds the wallet slot.
unfoldable pub apply_scan : List ChainSession → ℕ → ℕ → Bool → List Text → Wallet → ScanOut
unfolding sort_all adopt_all pruned swept live_models
apply_scan listed scan_start now sweeping barred w =
    let t : Sorted = sort_all listed now barred w in
    let a : Adopting = adopt_all listed now t w in
    let (v, close) = swept sweeping a.due now (pruned listed scan_start now a.wallet) in
    record {
      wallet = v;
      listed = length listed;
      live = live_models listed now;
      adopted = a.adopted;
      close = close;
      due = a.due;
      matched = t.any_matched;
    }
