-- ===== src/Adminauth/Factor.antt =====
-- The second factor of the admin (internal/adminauth/totp.go, internal/adminauth/recovery.go,
-- internal/api/second_factor.go, internal/store/authstate.go). Unix times are in seconds. `Crypto` has
-- what comes from libraries: the code of a TOTP step, the HMAC of a recovery code, hex decoding, the
-- decryption of the stored secret and the key of the recovery codes.
pub mod Laws
mod Replay
mod Tests
use morpheus_uplink.Base.{
  ℕ, ◌+◌, ◌-◌, ◌/◌, Bool, true, false, ◌&&◌, ◌||◌, Option, none, some, List, [], ◌∷◌, Text, codes,
  same, ltb, leb, ◌==◌, if◌then◌else◌, length, keep, any, not, trim_space, lower_trim, zero, suc,
}

pub record RecoveryHash : Type 0 where
  pub salt : Text
  pub hash : Text

pub record AuthState : Type 0 where
  pub totp_blob : Text
  pub totp_salt : Text
  pub recovery_codes : List RecoveryHash
  pub password_fingerprint : Text
  pub enrolled : Bool
  pub last_totp_step : ℕ
  pub break_glass_done : Bool
  pub pending_secret_enc : Text
  pub pending_expires : ℕ
  pub two_factor_on : Bool

pub record Crypto : Type 0 where
  pub generate : Text → ℕ → Option Text
  pub mac : Text → Text → Text → Text
  pub unhex : Text → Option Text
  pub decrypt : Text → Text → Option Text
  pub pepper : Option Text

abbrev pub totp_period : ℕ
totp_period = 30

abbrev pub recovery_code_symbols : ℕ
recovery_code_symbols = 12

abbrev pub recovery_alphabet : Text
recovery_alphabet = codes "abcdefghijklmnopqrstuvwxyz234567"

abbrev pub mac_size : ℕ
mac_size = 32

pub is_on : AuthState → Bool
is_on a = a.two_factor_on || a.enrolled

abbrev pub recovery_remaining : AuthState → ℕ
recovery_remaining a = length a.recovery_codes

pub normalize_code : Text → Text
normalize_code code = keep (λ c. leb b'0' c && leb c b'9') code

-- What ValidateTOTP answers.
pub data TotpAnswer : Type 0 where
  matched : ℕ → TotpAnswer
  step_reuse no_match empty_code generate_failed : TotpAnswer

-- The code of a step is compared; the step is used up when it is not past the last one used.
compare_step : Option Text → Text → ℕ → ℕ → TotpAnswer → TotpAnswer
compare_step none code used step later = generate_failed
compare_step (some want) code used step later =
    if not (same code want)
    then later
    else if not (used == 0) && leb step used
    then step_reuse
    else matched step

-- The loop over the candidate steps.
pub try_steps : (ℕ → Option Text) → List ℕ → Text → ℕ → TotpAnswer
unfolding compare_step
try_steps code_at [] code used = no_match
try_steps code_at (step ∷ steps) code used =
    let later = try_steps code_at steps code used in
    if step == 0 then later else compare_step (code_at step) code used step later

pub validate_totp : (ℕ → Option Text) → ℕ → Text → ℕ → TotpAnswer
unfolding normalize_code try_steps
validate_totp code_at now code used =
    let cur : ℕ = now / totp_period in
    let digits : Text = normalize_code code in
    if same digits []
    then empty_code
    else try_steps code_at (cur ∷ (cur - 1) ∷ (cur + 1) ∷ []) digits used

pub normalize_recovery_code : Text → Text
unfolding lower_trim
normalize_recovery_code code = keep (λ c. not (c == b'-') && not (c == b' ')) (lower_trim code)

pub looks_like_recovery_code : Text → Bool
unfolding normalize_recovery_code
looks_like_recovery_code code =
    let n : Text = normalize_recovery_code code in
    length n == recovery_code_symbols
    && not (any (λ c. not (any (λ d. d == c) recovery_alphabet)) n)

-- Whether a stored hash is of the code.
hit_of : Option Text → Option Text → (Text → Text) → Bool
hit_of (some salt) (some want) mac_of = length want == mac_size && same (mac_of salt) want
hit_of _ _ mac_of = false

module _ (c : Crypto) where
  pub hit : Text → Text → RecoveryHash → Bool
  unfolding hit_of
  hit pepper n h = hit_of (c.unhex h.salt) (c.unhex h.hash) (λ salt. c.mac pepper salt n)

  -- The first stored hash that matches, counted from `i`.
  match_from : Text → Text → List RecoveryHash → ℕ → Option ℕ
  unfolding hit
  match_from pepper n [] i = none
  match_from pepper n (h ∷ stored) i =
      let rest = match_from pepper n stored (i + 1) in if hit pepper n h then some i else rest

  -- -1 is `none`.
  pub match_recovery_code : Text → List RecoveryHash → Text → Option ℕ
  unfolding match_from normalize_recovery_code
  match_recovery_code pepper stored code =
      if length pepper == 0 then none else match_from pepper (normalize_recovery_code code) stored 0

-- `append(l[:i], l[i+1:]...)`
pub remove_at : List RecoveryHash → ℕ → List RecoveryHash
remove_at [] i = []
remove_at (h ∷ l) zero = l
remove_at (h ∷ l) (suc i) = h ∷ remove_at l i

pub data Method : Type 0 where
  totp recovery : Method

pub data FactorReason : Type 0 where
  recovery_code_refused not_enrolled recovery_error bad_recovery_code : FactorReason
  totp_decrypt bad_totp totp_reuse save_failed : FactorReason

pub record FactorResult : Type 0 where
  pub ok : Bool
  pub method : Option Method
  pub reason : Option FactorReason
  pub remaining : ℕ

-- What the function that UpdateAuthState runs does: the new state with the method, or the reason of
-- its error.
pub data Attempt : Type 0 where
  accepted : AuthState → Method → Attempt
  rejected : FactorReason → Attempt

spend_code : Option ℕ → AuthState → Attempt
unfolding remove_at
spend_code none a = rejected bad_recovery_code
spend_code (some i) a =
    accepted (record a { recovery_codes = remove_at a.recovery_codes i }) recovery

spend_step : TotpAnswer → AuthState → Attempt
spend_step (matched step) a = accepted (record a { last_totp_step = step }) totp
spend_step step_reuse a = rejected totp_reuse
spend_step no_match a = rejected bad_totp
spend_step empty_code a = rejected bad_totp
spend_step generate_failed a = rejected bad_totp

module _ (c : Crypto) where
  try_recovery : Option Text → AuthState → Text → Attempt
  unfolding spend_code match_recovery_code
  try_recovery none a code = rejected recovery_error
  try_recovery (some pepper) a code =
      spend_code (match_recovery_code c pepper a.recovery_codes code) a

  try_totp : Option Text → AuthState → ℕ → Text → Attempt
  unfolding spend_step validate_totp
  try_totp none a now code = rejected totp_decrypt
  try_totp (some secret) a now code =
      spend_step (validate_totp (c.generate secret) now code a.last_totp_step) a

  pub try_factor : AuthState → ℕ → Text → Attempt
  unfolding try_recovery try_totp looks_like_recovery_code
  try_factor a now code =
      if not a.enrolled
      then rejected not_enrolled
      else if looks_like_recovery_code code
      then try_recovery c.pepper a code
      else try_totp (c.decrypt a.totp_blob a.totp_salt) a now code

-- UpdateAuthState keeps the state it had when the function fails or the save does.
commit : Attempt → AuthState → Bool → (AuthState → AuthState) → AuthState × FactorResult
commit (rejected why) a saves after =
    (a, record { ok = false; method = none; reason = some why; remaining = 0 })
commit (accepted b how) a saves after =
    let left : ℕ = recovery_remaining (after b) in
    if saves
    then (after b, record { ok = true; method = some how; reason = none; remaining = left })
    else (a, record { ok = false; method = some how; reason = some save_failed; remaining = left })

-- `after` is the function `then` of the source, which does nothing when it is nil; `saves` says whether
-- the file is written.
pub consume_factor :
    Crypto → AuthState → ℕ → Text → Bool → Bool → (AuthState → AuthState) → AuthState × FactorResult
unfolding commit try_factor looks_like_recovery_code
consume_factor c a now input allow_recovery saves after =
    let code : Text = trim_space input in
    if not allow_recovery && looks_like_recovery_code code
    then (
      a,
      record { ok = false; method = none; reason = some recovery_code_refused; remaining = 0 },
    )
    else commit (try_factor c a now code) a saves after
