-- ===== src/Pool/Open/Adopt/Laws.antt =====
-- When a session that the router named is adopted (internal/pool/failover.go: adoptable).
use morpheus_uplink.Base.{
  ℕ, ◌+◌, ◌*◌, ◌<◌, ◌/◌, to_lower, ◌≡◌, ◌⊎◌, inl, Bool, true, false, Option, none, some, Text,
  lookup, length,
}
use morpheus_uplink.Pool.Attempts.{ChainSession, matches, Attempt, resolve_attempt}
use morpheus_uplink.Pool.Slot.{second}
use morpheus_uplink.Pool.Lease.{norm_model, closing_marked}
use morpheus_uplink.Pool.Candidates.{is_in}
use morpheus_uplink.Pool.Reconcile.{expiry_seconds}
use morpheus_uplink.Pool.Lease.Drop.{OpenResult}
use morpheus_uplink.Pool.Open.{Op}
use morpheus_uplink.Pool.Open.Adopt.{Unusable}

-- What lets a session that the router named be used.
pub record IsUsable (op : Op) (now : ℕ) (model : Text) (s : ChainSession) (retired barred : Bool)
    : Type 0 where
  pub of_model : norm_model s.model_agent_id ≡ model
  pub open_yet : s.closed_at ≡ 0
  pub ends_later : now / second + expiry_seconds < s.ends_at
  pub not_retired : retired ≡ false
  pub not_closing : closing_marked op.pool s.id ≡ false
  pub not_duplicate : is_in op.known_dup (to_lower s.id) ≡ false
  pub untracked : lookup s.id op.pool.sess ≡ none
  pub not_barred : barred ≡ false

-- What the adoption of a session does: `own` is the pending attempt that opened it, if any.
pub data Adopted (op : Op) (s : ChainSession)
    : Option Attempt → Op × (OpenResult ⊎ Unusable) → Type 0 where
  foreign :
      (res : OpenResult)
      → res.id ≡ s.id
      → res.ends_at ≡ s.ends_at * second
      → res.resumed ≡ true
      → Adopted op s none (op, inl res)
  own :
      (att : Attempt) (q : Op) (res : OpenResult)
      → res.id ≡ s.id
      → res.ends_at ≡ s.ends_at * second
      → res.resumed ≡ false
      → q.posts ≡ op.posts
      → matches att s ≡ true
      → q.pending ≡ resolve_attempt op.pending att.ref
      → length q.pending + 1 ≡ length op.pending
      → q.pool.sess ≡ op.pool.sess
      → q.pool.entries ≡ op.pool.entries
      → lookup (to_lower s.id) q.pool.opened ≡ some true
      → Adopted op s (some att) (q, inl res)
