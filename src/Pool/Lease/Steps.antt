-- ===== src/Pool/Lease/Steps.antt =====
-- Critical sections of the pool in any order, and the invariant that each keeps.
use morpheus_uplink.Base.{ℕ, ◌≡◌, ◌≢◌, Bool, true, some, Text, lookup}
use morpheus_uplink.Pool.Lease.{Pool, Entry, SessState, norm_model, try_pooled_locked, done}
use morpheus_uplink.Pool.Lease.Drop.{
  OpenResult, pool_opened_locked, retire_for_failover, failover_close_failed, adopt_locked,
  invalidate,
}
use morpheus_uplink.Pool.Lease.Sweep.{claim, close_failed}
use morpheus_uplink.Pool.Lease.Release.{release}
use morpheus_uplink.Pool.Attempts.{ChainSession}
use morpheus_uplink.Pool.Scan.Apply.{adopt}
use morpheus_uplink.Pool.Lease.Adoption.{Fits, adopt_locked-Inv, adopt-Inv, invalidate-Inv}
use morpheus_uplink.Pool.Lease.Invariant.{Inv, done-Inv}
use morpheus_uplink.Pool.Lease.Sections.{
  try_pooled_locked-Inv, release-Inv, claim-Inv, failover_close_failed-Inv, close_failed-Inv,
  retire_for_failover-Inv, pool_opened_locked-Inv,
}

-- One of the critical sections that are covered. A close fails only for a session that is closing, a
-- failover names the session's model, an open brings an id that no entry has, and an adopted session
-- fits its slot.
pub data Step (p q : Pool) : Type 0 where
  asks : (now : ℕ) (key key_id : Text) → q ≡ (try_pooled_locked p now key key_id).0 → Step p q
  ends : (now : ℕ) (id : Text) → q ≡ (done p now id).0 → Step p q
  frees :
      (now wall duration_sec : ℕ) (model_id key_id : Text)
      → q ≡ (release p now wall duration_sec model_id key_id).0
      → Step p q
  claims :
      (now wall duration_sec grace : ℕ) (idle : Bool) (id : Text)
      → q ≡ (claim p now wall duration_sec grace idle id).0
      → Step p q
  fails :
      (now : ℕ) (id : Text) (st : SessState)
      → lookup id p.sess ≡ some st
      → st.closing ≡ true
      → q ≡ close_failed p now id
      → Step p q
  failover_fails : (id : Text) → q ≡ failover_close_failed p id → Step p q
  fails_over :
      (now : ℕ) (key id : Text) (st : SessState)
      → lookup id p.sess ≡ some st
      → st.model ≡ key
      → q ≡ (retire_for_failover p now key id).0
      → Step p q
  opens :
      (now : ℕ) (key : Text) (got : OpenResult) (duration_sec : ℕ) (opener : Text)
      → ((k : Text) (e : Entry) → lookup k p.entries ≡ some e → e.session_id ≢ got.id)
      → q ≡ (pool_opened_locked p now key got duration_sec opener).0
      → Step p q
  resumes :
      (now : ℕ) (key : Text) (got : OpenResult)
      → Fits p key got.id
      → q ≡ (adopt_locked p now key got).0
      → Step p q
  adopts :
      (now : ℕ) (s : ChainSession)
      → Fits p (norm_model s.model_agent_id) s.id
      → q ≡ adopt p now s
      → Step p q
  invalidates : (model_id : Text) → q ≡ invalidate p model_id → Step p q

pub data Reach (p : Pool) : Pool → Type 0 where
  here : Reach p p
  next : {q r : Pool} → Reach p q → Step q r → Reach p r

pub Step-Inv : (p q : Pool) → Step p q → Inv p → Inv q
Step-Inv p q (asks now key key_id e) v = rw e (try_pooled_locked-Inv p now key key_id v)
Step-Inv p q (ends now id e) v = rw e (done-Inv p now id v)
Step-Inv p q (frees now wall d model_id key_id e) v =
    rw e (release-Inv p now wall d model_id key_id v)
Step-Inv p q (claims now wall d grace idle id e) v = rw e (claim-Inv p now wall d grace idle id v)
Step-Inv p q (fails now id st found closing e) v =
    rw e (close_failed-Inv p now id st v found closing)
Step-Inv p q (failover_fails id e) v = rw e (failover_close_failed-Inv p id v)
Step-Inv p q (fails_over now key id st found m e) v =
    rw e (retire_for_failover-Inv p now key id st v found m)
Step-Inv p q (opens now key got d opener new e) v =
    rw e (pool_opened_locked-Inv p now key got d opener v new)
Step-Inv p q (resumes now key got fits e) v = rw e (adopt_locked-Inv p now key got v fits)
Step-Inv p q (adopts now s fits e) v = rw e (adopt-Inv p now s v fits)
Step-Inv p q (invalidates model_id e) v = rw e (invalidate-Inv p model_id v)

-- The sections of `Step`, in any order, keep `Inv`: every pooled session that has a state is neither
-- retired nor closing and belongs to the model it is pooled for, no session is pooled for two models,
-- and no session has two states. They are: the ask for a lease, the end of one, a release, the claim of
-- the sweep and its failed close, the retirement by a failover and its failed close, the pooling of an
-- open, the adoption of a listed or a resumed session, and Invalidate. `Step` asks that an open brings an
-- id that no entry has, that a failover names its session's model, that a failed close was of a closing
-- session, and that an adopted session is not pooled for another model and has no state or a usable
-- one. A scan does not ask the last of a session that matches a pending attempt; such an adoption, the
-- pruning of a scan and `forget` are left out.
pub Reach-Inv : {p q : Pool} → Reach p q → Inv p → Inv q
Reach-Inv here v = v
Reach-Inv (next {q} {r} reach st) v = Step-Inv q r st (Reach-Inv reach v)
