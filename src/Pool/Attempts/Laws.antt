-- ===== src/Pool/Attempts/Laws.antt =====
-- What the list of pending attempts guarantees (internal/pool/sweep.go).
use morpheus_uplink.Base.{
  ℕ, ◌+◌, ◌*◌, ◌≤◌, ◌<◌, ◌≡◌, refl, ◌⊎◌, inl, inr, false, List, [], ◌∷◌, arith, Text, ltb, length,
  length-append, length-keep-le, Bool-cases,
}
use morpheus_uplink.Pool.Slot.{second}
use morpheus_uplink.Pool.Attempts.{
  ChainSession, Attempt, attempt_skew, max_pending_attempts, keep_for, matches, prune_attempts,
  tail, add_attempt, match_attempt,
}

length-tail : (l : List Attempt) → (length (tail l) + 1 ≡ length l) ⊎ (length l ≡ 0)
unfolding tail
length-tail [] = inr refl
length-tail (a ∷ l) = inl (omega arith)

prune_attempts-le :
    (pending : List Attempt) (now : ℕ) → length (prune_attempts pending now) ≤ length pending
unfolding prune_attempts
prune_attempts-le pending now = length-keep-le _ pending

-- The list of pending attempts stays within its bound when it was within it.
pub add_attempt-le :
    (pending : List Attempt) (ref now : ℕ) (model bid : Text)
    → length pending ≤ max_pending_attempts
    → length (add_attempt pending ref now model bid) ≤ max_pending_attempts
unfolding add_attempt
add_attempt-le pending ref now model bid h =
    let kept : List Attempt = prune_attempts pending now in
    rw (length-append _ _) (ground (arith, length-tail kept, prune_attempts-le pending now))

late_no_match :
    (a : Attempt) (now : ℕ) (s : ChainSession)
    → now < s.opened_at * second
    → ltb now (a.start + keep_for a + attempt_skew) ≡ false
    → matches a s ≡ false
unfolding matches
late_no_match a now s later gone = ground arith

-- Pruning loses nothing: for a session that opens after the pruning, the attempt it resolves is the
-- same as without it.
pub match_attempt-prune_attempts :
    (pending : List Attempt) (now : ℕ) (s : ChainSession)
    → now < s.opened_at * second
    → match_attempt (prune_attempts pending now) s ≡ match_attempt pending s
unfolding match_attempt prune_attempts
match_attempt-prune_attempts [] now s later = refl
match_attempt-prune_attempts (a ∷ pending) now s later =
    elim (Bool-cases (ltb now (a.start + keep_for a + attempt_skew))) [
      | inl kept ↦ rw (kept, match_attempt, match_attempt-prune_attempts pending now s later) refl
      | inr gone ↦
          rw (gone, late_no_match a now s later gone)
            (match_attempt-prune_attempts pending now s later)
    ]
