-- ===== src/Pool/Lease/Sweep/Laws.antt =====
-- What the sweep may close (internal/pool/lease.go: sweepRetired).
use mathlib.Core.Option
use morpheus_uplink.Base.{
  ℕ, ◌+◌, ◌≤◌, ◌<◌, ◌≡◌, refl, ◌⊎◌, inl, inr, Bool, true, false, Option, none, some, arith, Text,
  Map, lookup, Bool-cases, Distinct, Found, least, keep, least-keep,
}
use morpheus_uplink.Pool.Lease.{Pool, SessState, closing_marked, max_close_retries}
use morpheus_uplink.Pool.Lease.Drop.{in_flight}
use morpheus_uplink.Pool.Lease.Sweep.{
  cut_close_mark, closable, pick_unmarked, pick_after, pick, claim_picked, claim,
}

-- What is known of a session that the sweep chooses at `now`.
pub record IsIdle (p : Pool) (now grace : ℕ) (idle : Bool) (id : Text) : Type 0 where
  pub state : SessState
  pub found : lookup id p.sess ≡ some state
  pub unused : state.inflight ≡ 0
  pub open_yet : state.closing ≡ false
  pub unmarked : closing_marked p id ≡ false
  pub over :
      ((state.retired ≡ true) × (state.close_fails < max_close_retries))
      ⊎ ((state.retired ≡ false) × (idle ≡ true) × (state.last_use + grace ≤ now))

closable-IsIdle :
    (p : Pool) (now grace : ℕ) (idle : Bool) (id : Text) (st : SessState)
    → lookup id p.sess ≡ some st
    → closable p now grace idle (id, st) ≡ true
    → IsIdle p now grace idle id
unfolding closable
closable-IsIdle p now grace idle id st found ok = record {
  state = st;
  found = found;
  unused = ground arith;
  open_yet = ground arith;
  unmarked = ground arith;
  over = ground arith;
}

chosen-IsIdle :
    (p : Pool) (now grace : ℕ) (idle : Bool) (id : Text) (o : Option (Text × SessState))
    → Found (closable p now grace idle) p.sess o
    → Option.map (λ r. r.0) o ≡ some id
    → IsIdle p now grace idle id
chosen-IsIdle p now grace idle id none f h = absurd (ground arith)
chosen-IsIdle p now grace idle id (some (j, st)) f h =
    closable-IsIdle p now grace idle id st (ground (arith, f.0)) (ground (arith, f.1))

pick_unmarked-IsIdle :
    (p : Pool) (now grace : ℕ) (idle : Bool) (id : Text)
    → Distinct p.sess
    → pick_unmarked p now grace idle ≡ some id
    → IsIdle p now grace idle id
unfolding pick_unmarked
pick_unmarked-IsIdle p now grace idle id d h =
    chosen-IsIdle p now grace idle id (least (keep (closable p now grace idle) p.sess))
      (least-keep (closable p now grace idle) p.sess d) h

pick_after-IsIdle :
    (p : Pool) (c : Map ℕ × Bool) (now grace : ℕ) (idle : Bool) (id : Text)
    → Distinct p.sess
    → (pick_after p c now grace idle).1 ≡ some id
    → IsIdle (pick_after p c now grace idle).0 now grace idle id
unfolding pick_after
pick_after-IsIdle p (m, true) now grace idle id d h = absurd (ground arith)
pick_after-IsIdle p (m, false) now grace idle id d h =
    pick_unmarked-IsIdle (record p { closing_ids = m }) now grace idle id d h

-- In a pool where no session has two states, the sweep chooses only a session with nothing in flight that is neither closing nor marked, and
-- that is retired with close tries left, or, in an idle sweep, not retired and unused for `grace`.
pick-IsIdle :
    (p : Pool) (now grace : ℕ) (idle : Bool) (id : Text)
    → Distinct p.sess
    → (pick p now grace idle).1 ≡ some id
    → IsIdle (pick p now grace idle).0 now grace idle id
unfolding pick
pick-IsIdle p now grace idle id d h =
    pick_after-IsIdle p (cut_close_mark p.closing_ids now) now grace idle id d h

pick_after-sess :
    (p : Pool) (c : Map ℕ × Bool) (now grace : ℕ) (idle : Bool)
    → ((pick_after p c now grace idle).0.sess ≡ p.sess)
      × ((pick_after p c now grace idle).0.entries ≡ p.entries)
unfolding pick_after
pick_after-sess p (m, true) now grace idle = (refl, refl)
pick_after-sess p (m, false) now grace idle = (refl, refl)

pub pick-sess :
    (p : Pool) (now grace : ℕ) (idle : Bool)
    → ((pick p now grace idle).0.sess ≡ p.sess) × ((pick p now grace idle).0.entries ≡ p.entries)
unfolding pick
pick-sess p now grace idle = pick_after-sess p (cut_close_mark p.closing_ids now) now grace idle

claim_picked-some :
    (s : Pool × Option Text) (wall duration_sec : ℕ) (id : Text)
    → (claim_picked s wall duration_sec id).1 ≡ true
    → s.1 ≡ some id
unfolding claim_picked
claim_picked-some (p, none) wall duration_sec id h = absurd (ground arith)
claim_picked-some (p, some other) wall duration_sec id h = ground arith

-- A session with a request in flight is never taken by the sweep, at any time and with any grace, in
-- a pool where no session has two states.
pub claim_spares_in_flight :
    (p : Pool) (now wall duration_sec grace : ℕ) (idle : Bool) (id : Text)
    → Distinct p.sess
    → 0 < in_flight p id
    → (claim p now wall duration_sec grace idle id).1 ≡ false
unfolding claim in_flight
claim_spares_in_flight p now wall duration_sec grace idle id d busy =
    elim (Bool-cases (claim p now wall duration_sec grace idle id).1) [
      | inr e ↦ e
      | inl e ↦
          let i =
            pick-IsIdle p now grace idle id d
              (claim_picked-some (pick p now grace idle) wall duration_sec id e) in
          absurd (ground (arith, i.found, i.unused, (pick-sess p now grace idle).0))
    ]
