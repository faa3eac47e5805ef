-- ===== src/Adminauth/Factor/Laws.antt =====
-- What the second factor guarantees (internal/api/second_factor.go: consumeFactor).
use morpheus_uplink.Base.{
  ℕ, zero, suc, ◌+◌, ◌-◌, ◌/◌, ◌≤◌, ◌<◌, ◌≡◌, refl, ◌⊎◌, inl, inr, Bool, true, false, ◌&&◌, ◌||◌,
  Option, none, some, List, [], ◌∷◌, arith, Text, ◌==◌, length, any, not, Bool-cases, trim_space,
}
use morpheus_uplink.Adminauth.Factor.{
  RecoveryHash, AuthState, Crypto, totp_period, normalize_code, TotpAnswer, matched, step_reuse,
  no_match, empty_code, generate_failed, compare_step, try_steps, validate_totp,
  normalize_recovery_code, looks_like_recovery_code, hit, match_from, match_recovery_code,
  remove_at, Method, totp, recovery, FactorReason, FactorResult, Attempt, accepted, rejected,
  spend_code, spend_step, try_recovery, try_totp, try_factor, commit, consume_factor,
  recovery_remaining,
}

compare_step-matched :
    (o : Option Text) (code : Text) (used s : ℕ) (later : TotpAnswer) (step : ℕ)
    → compare_step o code used s later ≡ matched step
    → (later ≡ matched step) ⊎ ((s ≡ step) × (o ≡ some code) × ((used ≡ 0) ⊎ (used < s)))
unfolding compare_step
compare_step-matched none code used s later step h = absurd (ground arith)
compare_step-matched (some want) code used s later step h = ground arith

-- What is known of a step that a code was accepted for.
pub record Fits (code_at : ℕ → Option Text) (steps : List ℕ) (code : Text) (used step : ℕ)
    : Type 0 where
  pub generated : code_at step ≡ some code
  pub unused : (used ≡ 0) ⊎ (used < step)
  pub positive : 0 < step
  pub candidate : any (λ s. s == step) steps ≡ true

later-Fits :
    (code_at : ℕ → Option Text) (s : ℕ) (steps : List ℕ) (code : Text) (used step : ℕ)
    → Fits code_at steps code used step
    → Fits code_at (s ∷ steps) code used step
later-Fits code_at s steps code used step f = record {
  generated = f.generated;
  unused = f.unused;
  positive = f.positive;
  candidate = ground (arith, f.candidate);
}

try_steps-Fits :
    (code_at : ℕ → Option Text) (steps : List ℕ) (code : Text) (used step : ℕ)
    → try_steps code_at steps code used ≡ matched step
    → Fits code_at steps code used step
unfolding try_steps
try_steps-Fits code_at [] code used step h = absurd (ground arith)
try_steps-Fits code_at (s ∷ steps) code used step h = elim (Bool-cases (s == 0)) [
  | inl skipped ↦
      later-Fits code_at s steps code used step
        (try_steps-Fits code_at steps code used step (rw skipped at h))
  | inr tried ↦
      elim (compare_step-matched (code_at s) code used s (try_steps code_at steps code used) step
        (rw tried at h)) [
          | inl later ↦
              later-Fits code_at s steps code used step
                (try_steps-Fits code_at steps code used step later)
          | inr (here, made, new) ↦ record {
            generated = rw (← here) made;
            unused = rw here at new;
            positive = ground arith;
            candidate = ground arith;
          }
        ]
]

validate_totp-Fits :
    (code_at : ℕ → Option Text) (now : ℕ) (code : Text) (used step : ℕ)
    → validate_totp code_at now code used ≡ matched step
    → Fits code_at
        ((now / totp_period) ∷ (now / totp_period - 1) ∷ (now / totp_period + 1) ∷ [])
        (normalize_code code)
        used
        step
unfolding validate_totp
validate_totp-Fits code_at now code used step h =
    try_steps-Fits code_at _ (normalize_code code) used step (ground arith)

-- The hash at an index.
unfoldable pub stored_at : List RecoveryHash → ℕ → Option RecoveryHash
stored_at [] i = none
stored_at (h ∷ l) zero = some h
stored_at (h ∷ l) (suc i) = stored_at l i

match_from-hit :
    (c : Crypto) (pepper n : Text) (stored : List RecoveryHash) (from i : ℕ)
    → match_from c pepper n stored from ≡ some i
    → (k : ℕ) × (h : RecoveryHash) × (i ≡ from + k)
      × (stored_at stored k ≡ some h)
      × (hit c pepper n h ≡ true)
unfolding match_from stored_at
match_from-hit c pepper n [] from i h = absurd (ground arith)
match_from-hit c pepper n (r ∷ stored) from i h = elim (Bool-cases (hit c pepper n r)) [
  | inl found ↦ (0, r, ground (arith, h, found), refl, found)
  | inr other ↦
      let (k, g, at_k, there, hits) =
        match_from-hit c pepper n stored (from + 1) i (rw other at h) in
      (suc k, g, omega (arith, at_k), there, hits)
]

pub length-remove_at :
    (l : List RecoveryHash) (i : ℕ) (h : RecoveryHash)
    → stored_at l i ≡ some h
    → length (remove_at l i) + 1 ≡ length l
unfolding remove_at stored_at
length-remove_at [] i h e = absurd (ground arith)
length-remove_at (g ∷ l) zero h e = omega arith
length-remove_at (g ∷ l) (suc i) h e = omega (arith, length-remove_at l i h e)

-- What an accepted attempt did to the state.
pub data Spends (c : Crypto) (a : AuthState) (now : ℕ) (code : Text)
    : AuthState → Method → Type 0 where
  by_step :
      (secret : Text) (step : ℕ)
      → c.decrypt a.totp_blob a.totp_salt ≡ some secret
      → looks_like_recovery_code code ≡ false
      → c.generate secret step ≡ some (normalize_code code)
      → (a.last_totp_step ≡ 0) ⊎ (a.last_totp_step < step)
      → 0 < step
      → step ≤ now / totp_period + 1
      → now / totp_period ≤ step + 1
      → Spends c a now code (record a { last_totp_step = step }) totp
  by_code :
      (pepper : Text) (i : ℕ) (h : RecoveryHash)
      → c.pepper ≡ some pepper
      → looks_like_recovery_code code ≡ true
      → stored_at a.recovery_codes i ≡ some h
      → hit c pepper (normalize_recovery_code code) h ≡ true
      → Spends c a now code (record a { recovery_codes = remove_at a.recovery_codes i }) recovery

-- What is known of an attempt.
pub data Tried (c : Crypto) (a : AuthState) (now : ℕ) (code : Text) : Attempt → Type 0 where
  refused : (why : FactorReason) → Tried c a now code (rejected why)
  spent :
      (b : AuthState) (how : Method)
      → a.enrolled ≡ true
      → Spends c a now code b how
      → Tried c a now code (accepted b how)

try_totp-Tried :
    (c : Crypto) (a : AuthState) (now : ℕ) (code secret : Text) (t : TotpAnswer)
    → a.enrolled ≡ true
    → c.decrypt a.totp_blob a.totp_salt ≡ some secret
    → looks_like_recovery_code code ≡ false
    → validate_totp (c.generate secret) now code a.last_totp_step ≡ t
    → Tried c a now code (spend_step t a)
unfolding spend_step
try_totp-Tried c a now code secret (matched step) on d shape h =
    let f = validate_totp-Fits (c.generate secret) now code a.last_totp_step step h in
    spent _ _ on (
      by_step secret step d shape f.generated f.unused f.positive (ground (arith, f.candidate))
        (ground (arith, f.candidate)))
try_totp-Tried c a now code secret step_reuse on d shape h = refused _
try_totp-Tried c a now code secret no_match on d shape h = refused _
try_totp-Tried c a now code secret empty_code on d shape h = refused _
try_totp-Tried c a now code secret generate_failed on d shape h = refused _

try_recovery-Tried :
    (c : Crypto) (a : AuthState) (now : ℕ) (code pepper : Text) (o : Option ℕ)
    → a.enrolled ≡ true
    → c.pepper ≡ some pepper
    → looks_like_recovery_code code ≡ true
    → match_recovery_code c pepper a.recovery_codes code ≡ o
    → Tried c a now code (spend_code o a)
unfolding spend_code match_recovery_code
try_recovery-Tried c a now code pepper none on p shape h = refused _
try_recovery-Tried c a now code pepper (some i) on p shape h =
    let (k, g, at_k, there, hits) =
      match_from-hit c pepper (normalize_recovery_code code) a.recovery_codes 0 i
        (ground (arith, h)) in
    let e : k ≡ i = omega (arith, at_k) in
    spent _ _ on (by_code pepper i g p shape (rw e at there) hits)

recovery-Tried :
    (c : Crypto) (a : AuthState) (now : ℕ) (code : Text) (o : Option Text)
    → a.enrolled ≡ true
    → c.pepper ≡ o
    → looks_like_recovery_code code ≡ true
    → Tried c a now code (try_recovery c o a code)
unfolding try_recovery
recovery-Tried c a now code none on p shape = refused _
recovery-Tried c a now code (some pepper) on p shape =
    try_recovery-Tried c a now code pepper _ on p shape refl

totp-Tried :
    (c : Crypto) (a : AuthState) (now : ℕ) (code : Text) (o : Option Text)
    → a.enrolled ≡ true
    → c.decrypt a.totp_blob a.totp_salt ≡ o
    → looks_like_recovery_code code ≡ false
    → Tried c a now code (try_totp c o a now code)
unfolding try_totp
totp-Tried c a now code none on d shape = refused _
totp-Tried c a now code (some secret) on d shape =
    try_totp-Tried c a now code secret _ on d shape refl

try_factor-Tried :
    (c : Crypto) (a : AuthState) (now : ℕ) (code : Text)
    → Tried c a now code (try_factor c a now code)
unfolding try_factor
try_factor-Tried c a now code = elim (Bool-cases a.enrolled) [
  | inr off ↦ simp off (refused _)
  | inl on ↦ elim (Bool-cases (looks_like_recovery_code code)) [
    | inl shape ↦ simp (on, shape) (recovery-Tried c a now code c.pepper on refl shape)
    | inr shape ↦
        simp (on, shape) (totp-Tried c a now code (c.decrypt a.totp_blob a.totp_salt) on refl shape)
  ]
]

-- What one request does to the state of the second factor.
pub data Consumed (c : Crypto) (a : AuthState) (now : ℕ) (code : Text) (allow_recovery : Bool)
    (after : AuthState → AuthState) : AuthState × FactorResult → Type 0 where
  unchanged :
      (res : FactorResult) → res.ok ≡ false → Consumed c a now code allow_recovery after (a, res)
  consumed :
      (b : AuthState) (how : Method)
      → a.enrolled ≡ true
      → (allow_recovery || not (looks_like_recovery_code code)) ≡ true
      → Spends c a now code b how
      → Consumed c a now code allow_recovery after (
        after b,
        record {
          ok = true;
          method = some how;
          reason = none;
          remaining = recovery_remaining (after b);
        },
      )

commit-Consumed :
    (c : Crypto) (a : AuthState) (now : ℕ) (code : Text) (allow_recovery saves : Bool)
    (after : AuthState → AuthState) (t : Attempt)
    → (allow_recovery || not (looks_like_recovery_code code)) ≡ true
    → Tried c a now code t
    → Consumed c a now code allow_recovery after (commit t a saves after)
unfolding commit
commit-Consumed c a now code allow_recovery saves after t ok (refused why) = unchanged _ refl
commit-Consumed c a now code allow_recovery true after t ok (spent b how on s) =
    consumed b how on ok s
commit-Consumed c a now code allow_recovery false after t ok (spent b how on s) = unchanged _ refl

-- A request for the second factor either fails and leaves the stored state as it was, whatever failed,
-- the save included, or succeeds for an enrolled admin and spends exactly one thing: a step of the
-- stored secret whose code was given, within a step of the clock and past the last step used, which
-- becomes the last step used; or, where recovery codes are allowed, one stored recovery code that
-- matches, which is removed. Nothing else changes but by `after`.
pub consume_factor-Consumed :
    (c : Crypto) (a : AuthState) (now : ℕ) (input : Text) (allow_recovery saves : Bool)
    (after : AuthState → AuthState)
    → Consumed c a now
        (trim_space input)
        allow_recovery
        after
        (consume_factor c a now input allow_recovery saves after)
unfolding consume_factor
consume_factor-Consumed c a now input allow_recovery saves after =
    let code : Text = trim_space input in
    elim (Bool-cases (not allow_recovery && looks_like_recovery_code code)) [
      | inl barred ↦ simp barred (unchanged _ refl)
      | inr open_to ↦ simp open_to (
          commit-Consumed c a now code allow_recovery saves after (try_factor c a now code)
            (ground arith) (try_factor-Tried c a now code))
    ]
