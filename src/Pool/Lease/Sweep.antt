-- ===== src/Pool/Lease/Sweep.antt =====
-- The sweep of idle and retired sessions (internal/pool/lease.go: sweepRetired), as its two critical
-- sections: the claim, made while holding the wallet slot, and the return of a failed close.
pub mod Laws
use mathlib.Core.Option
use morpheus_uplink.Base.{
  ℕ, ◌+◌, Bool, true, false, ◌&&◌, ◌||◌, Option, none, some, List, [], ◌∷◌, Text, same, ltb, leb,
  ◌==◌, if◌then◌else◌, not, Map, lookup, insert, keep, least,
}
use morpheus_uplink.Pool.Lease.{
  Pool, SessState, closing_marked, mark_retired, drop_entry, retire, max_close_retries,
}

-- A close that was cut is pending: its mark has not run out. The marks that have are dropped, in the
-- order of the map up to the one found.
unfoldable pub cut_close_mark : Map ℕ → ℕ → Map ℕ × Bool
cut_close_mark [] now = ([], false)
cut_close_mark ((id, exp) ∷ m) now =
    let (m', found) = cut_close_mark m now in
    if exp == 0
    then ((id, exp) ∷ m', found)
    else if not (ltb now exp)
    then (m', found)
    else ((id, exp) ∷ m, true)

-- What may be closed: nothing in flight, not closing, and retired with tries left or, in an idle
-- sweep, unused for `grace`.
unfoldable pub closable : Pool → ℕ → ℕ → Bool → Text × SessState → Bool
closable p now grace idle (id, st) =
    not (st.closing || ltb 0 st.inflight || closing_marked p id)
    && not (not st.retired && (not idle || ltb now (st.last_use + grace)))
    && not (st.retired && leb max_close_retries st.close_fails)

unfoldable pub pick_unmarked : Pool → ℕ → ℕ → Bool → Option Text
unfolding closable least
pick_unmarked p now grace idle =
    Option.map (λ r. r.0) (least (keep (closable p now grace idle) p.sess))

unfoldable pub pick_after : Pool → Map ℕ × Bool → ℕ → ℕ → Bool → Pool × Option Text
unfolding pick_unmarked
pick_after p (m, true) now grace idle = (record p { closing_ids = m }, none)
pick_after p (m, false) now grace idle =
    let q : Pool = record p { closing_ids = m } in (q, pick_unmarked q now grace idle)

unfoldable pub pick : Pool → ℕ → ℕ → Bool → Pool × Option Text
unfolding pick_after cut_close_mark
pick p now grace idle = pick_after p (cut_close_mark p.closing_ids now) now grace idle

unfoldable pub claim_state : Option SessState → Pool → ℕ → ℕ → Text → Pool
claim_state none p wall duration_sec id = p
claim_state (some st) p wall duration_sec id =
    retire
      (drop_entry (record p { sess = insert id (record st { closing = true }) p.sess }) st.model id)
      wall duration_sec id st.ends_at

unfoldable pub claim_picked : Pool × Option Text → ℕ → ℕ → Text → Pool × Bool
unfolding claim_state
claim_picked (p, none) wall duration_sec id = (p, false)
claim_picked (p, some other) wall duration_sec id =
    if same other id
    then (claim_state (lookup id p.sess) p wall duration_sec id, true)
    else (p, false)

-- With the slot held, the choice is made again; another choice gives the slot back.
unfoldable pub claim : Pool → ℕ → ℕ → ℕ → ℕ → Bool → Text → Pool × Bool
unfolding claim_picked
claim p now wall duration_sec grace idle id =
    claim_picked (pick p now grace idle) wall duration_sec id

unfoldable pub fail_state : Option SessState → Pool → ℕ → Text → Pool
fail_state none p now id = p
fail_state (some st) p now id =
    let open_again : SessState = mark_retired (record st { closing = false }) now in
    record p {
      sess = insert id (record open_again { close_fails = open_again.close_fails + 1 }) p.sess;
    }

-- A close that failed puts the session back to retired.
unfoldable pub close_failed : Pool → ℕ → Text → Pool
unfolding fail_state
close_failed p now id = fail_state (lookup id p.sess) p now id
