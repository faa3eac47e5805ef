-- ===== src/Adminauth/Factor/Replay.antt =====
-- Nothing of the second factor is spent twice, over any sequence of requests
-- (internal/api/second_factor.go: consumeSecondFactor, consumeTOTP, without a `then`).
use mathlib.Core.Option.{some-injective}
use mathlib.Core.List.{Perm}
use mathlib.Core.List.Perm
use morpheus_uplink.Base.{
  zero, suc, true, false, none, ℕ, ◌<◌, ◌≡◌, refl, ◌⊎◌, inl, inr, Bool, Option, some, List, [], ◌∷◌,
  ◌++◌, arith, Text, if◌then◌else◌, trim_space,
}
use morpheus_uplink.Adminauth.Factor.{
  AuthState, Crypto, RecoveryHash, hit, remove_at, normalize_recovery_code, Method, totp, recovery,
  FactorResult, consume_factor, recovery_remaining,
}
use morpheus_uplink.Adminauth.Factor.Laws.{
  Spends, by_step, by_code, Consumed, unchanged, consumed, consume_factor-Consumed, stored_at,
}

pub record Request : Type 0 where
  pub now : ℕ
  pub input : Text
  pub allow_recovery : Bool
  pub saves : Bool

unfoldable pub serve : Crypto → AuthState → Request → AuthState × FactorResult
serve c a r = consume_factor c a r.now r.input r.allow_recovery r.saves (λ b. b)

abbrev steps_by : Option Method → ℕ → List ℕ
steps_by (some totp) step = step ∷ []
steps_by _ step = []

-- The step that a request was let in by.
abbrev pub steps_used : AuthState × FactorResult → List ℕ
steps_used (a, res) = if res.ok then steps_by res.method a.last_totp_step else []

unfoldable pub all_steps : Crypto → AuthState → List Request → List ℕ
unfolding serve
all_steps c a [] = []
all_steps c a (r ∷ rs) = steps_used (serve c a r) ++ all_steps c (serve c a r).0 rs

unfoldable pub served : Crypto → AuthState → List Request → AuthState
unfolding serve
served c a [] = a
served c a (r ∷ rs) = served c (serve c a r).0 rs

-- Each step is past the one before.
abbrev pub Rising : ℕ → List ℕ → Type 0
Rising last [] = Unit
Rising last (s ∷ ss) = (last < s) × Rising s ss

remove_at-Perm :
    (l : List RecoveryHash) (i : ℕ) (h : RecoveryHash)
    → stored_at l i ≡ some h
    → Perm (h ∷ remove_at l i) l
unfolding remove_at stored_at
remove_at-Perm [] i h e = absurd (ground (arith, e))
remove_at-Perm (g ∷ l) zero h e = rw (some-injective g h e) Perm.rfl
remove_at-Perm (g ∷ l) (suc i) h e =
    Perm.trans (Perm.swap g h (remove_at l i)) (Perm.cons g (remove_at-Perm l i h e))

-- The stored recovery codes that let requests in, one for each request that a recovery code let in: it
-- is one that the code of the request matches.
pub data LetInBy (c : Crypto) : AuthState → List Request → List RecoveryHash → Type 0 where
  done : (a : AuthState) → LetInBy c a [] []
  by_other :
      (a : AuthState) (r : Request) (rs : List Request) (hs : List RecoveryHash)
      → ((serve c a r).1.ok ≡ false) ⊎ ((serve c a r).1.method ≡ some totp)
      → LetInBy c (serve c a r).0 rs hs
      → LetInBy c a (r ∷ rs) hs
  by_recovery :
      (a : AuthState) (r : Request) (rs : List Request) (pepper : Text) (h : RecoveryHash)
      (hs : List RecoveryHash)
      → (serve c a r).1.ok ≡ true
      → (serve c a r).1.method ≡ some recovery
      → c.pepper ≡ some pepper
      → hit c pepper (normalize_recovery_code (trim_space r.input)) h ≡ true
      → LetInBy c (serve c a r).0 rs hs
      → LetInBy c a (r ∷ rs) (h ∷ hs)

-- What one request did to the recovery codes.
Spent : Crypto → Text → AuthState → AuthState × FactorResult → Type 0
Spent c code a p =
    (((p.1.ok ≡ false) ⊎ (p.1.method ≡ some totp)) × (p.0.recovery_codes ≡ a.recovery_codes))
    ⊎ ((pepper : Text) × (h : RecoveryHash) × (p.1.ok ≡ true)
        × (p.1.method ≡ some recovery)
        × (c.pepper ≡ some pepper)
        × (hit c pepper (normalize_recovery_code code) h ≡ true)
        × Perm (h ∷ p.0.recovery_codes) a.recovery_codes)

consumed-Spent :
    (c : Crypto) (a b : AuthState) (now : ℕ) (code : Text) (how : Method) (left : ℕ)
    → Spends c a now code b how
    → Spent c code a (b, record { ok = true; method = some how; reason = none; remaining = left })
unfolding Spent
consumed-Spent c a _ now code _ left (by_step secret step d shape g new pos lo hi) =
    inl (inr refl, refl)
consumed-Spent c a _ now code _ left (by_code pepper i h p shape there hits) =
    inr (pepper, h, refl, refl, p, hits, remove_at-Perm a.recovery_codes i h there)

Consumed-Spent :
    (c : Crypto) (a : AuthState) (now : ℕ) (code : Text) (allow : Bool)
    (p : AuthState × FactorResult)
    → Consumed c a now code allow (λ b. b) p
    → Spent c code a p
Consumed-Spent c a now code allow _ (unchanged res off) = unfold Spent in inl (inl off, refl)
Consumed-Spent c a now code allow _ (consumed b how on ok s) =
    consumed-Spent c a b now code how (recovery_remaining b) s

Spends-steps :
    (c : Crypto) (a b : AuthState) (now : ℕ) (code : Text) (how : Method)
    → Spends c a now code b how
    → ((steps_by (some how) b.last_totp_step ≡ []) × (b.last_totp_step ≡ a.last_totp_step))
      ⊎ ((steps_by (some how) b.last_totp_step ≡ b.last_totp_step ∷ [])
          × (a.last_totp_step < b.last_totp_step))
Spends-steps c a _ now code _ (by_step secret step d shape g new pos lo hi) = ground arith
Spends-steps c a _ now code _ (by_code pepper i h p shape there hits) = inl (refl, refl)

Consumed-steps :
    (c : Crypto) (a : AuthState) (now : ℕ) (code : Text) (allow : Bool)
    (p : AuthState × FactorResult)
    → Consumed c a now code allow (λ b. b) p
    → ((steps_used p ≡ []) × (p.0.last_totp_step ≡ a.last_totp_step))
      ⊎ ((steps_used p ≡ p.0.last_totp_step ∷ []) × (a.last_totp_step < p.0.last_totp_step))
Consumed-steps c a now code allow _ (unchanged res off) = inl (simp off, refl)
Consumed-steps c a now code allow _ (consumed b how on ok s) = Spends-steps c a b now code how s

served-Consumed :
    (c : Crypto) (a : AuthState) (r : Request)
    → Consumed c a r.now (trim_space r.input) r.allow_recovery (λ b. b) (serve c a r)
unfolding serve
served-Consumed c a r = consume_factor-Consumed c a r.now r.input r.allow_recovery r.saves (λ b. b)

all_steps-Rising :
    (c : Crypto) (a : AuthState) (rs : List Request) → Rising a.last_totp_step (all_steps c a rs)
unfolding all_steps
all_steps-Rising c a [] = tt
all_steps-Rising c a (r ∷ rs) =
    elim (Consumed-steps c a r.now (trim_space r.input) r.allow_recovery (serve c a r)
      (served-Consumed c a r)) [
        | inl (nothing, kept) ↦ rw nothing (rw kept at (all_steps-Rising c (serve c a r).0 rs))
        | inr (one, past) ↦ rw one (past, all_steps-Rising c (serve c a r).0 rs)
      ]

used_codes :
    (c : Crypto) (a : AuthState) (rs : List Request)
    → (hs : List RecoveryHash) × LetInBy c a rs hs
      × Perm (hs ++ (served c a rs).recovery_codes) a.recovery_codes
unfolding served Spent
used_codes c a [] = ([], done a, Perm.rfl)
used_codes c a (r ∷ rs) =
    let (hs, by, perm) = used_codes c (serve c a r).0 rs in
    elim (Consumed-Spent c a r.now (trim_space r.input) r.allow_recovery (serve c a r)
      (served-Consumed c a r)) [
        | inl (other, same_codes) ↦ (hs, by_other a r rs hs other by, rw same_codes at perm)
        | inr (pepper, h, ok, how, p, hits, one) ↦ (
          h ∷ hs,
          by_recovery a r rs pepper h hs ok how p hits by,
          Perm.trans (Perm.cons h perm) one,
        )
      ]

-- Over any sequence of requests, no step and no recovery code of the second factor lets in twice: the
-- steps that let requests in rise and are past the last one used before; and the stored recovery codes
-- that let requests in, each by a code that it matches, are with those that are left over exactly the
-- ones that were stored at first.
pub second_factor_spent_once :
    (c : Crypto) (a : AuthState) (rs : List Request)
    → Rising a.last_totp_step (all_steps c a rs)
      × ((hs : List RecoveryHash) × LetInBy c a rs hs
          × Perm (hs ++ (served c a rs).recovery_codes) a.recovery_codes)
second_factor_spent_once c a rs = (all_steps-Rising c a rs, used_codes c a rs)
