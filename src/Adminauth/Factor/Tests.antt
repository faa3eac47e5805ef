-- ===== src/Adminauth/Factor/Tests.antt =====
-- One admin with a secret and two recovery codes, and instances of the theorems
-- (internal/api/second_factor.go).
use mathlib.Core.List.{Perm}
use morpheus_uplink.Base.{
  List, ◌++◌, ◌≡◌, refl, true, false, some, [], ◌∷◌, codes, trim_space, dec_text, lower_trim,
}
use morpheus_uplink.Adminauth.Factor.{
  AuthState, Crypto, RecoveryHash, consume_factor, try_factor, validate_totp,
  looks_like_recovery_code, normalize_recovery_code, normalize_code,
}
use morpheus_uplink.Adminauth.Factor.Laws.{Consumed, consume_factor-Consumed}
use morpheus_uplink.Adminauth.Factor.Replay.{
  Request, Rising, all_steps, LetInBy, served, serve, second_factor_spent_once,
}

-- Every step has the same code, and a MAC is the normalized code.
abbrev toy : Crypto
toy = record {
  generate = λ secret step. some (codes "123456");
  mac = λ pepper salt n. n;
  unhex = λ t. some t;
  decrypt = λ blob salt. some blob;
  pepper = some (codes "k");
}

abbrev admin : AuthState
admin = record {
  totp_blob = codes "s";
  totp_salt = [];
  recovery_codes = record { salt = []; hash = codes "abcdefghijkl" } ∷ [];
  password_fingerprint = [];
  enrolled = true;
  last_totp_step = 0;
  break_glass_done = false;
  pending_secret_enc = [];
  pending_expires = 0;
  two_factor_on = true;
}

abbrev login : Request
login = record { now = 3000; input = codes " 123 456 "; allow_recovery = true; saves = true }

-- The current step is let in once; a second login in its half minute is refused.
once_only : all_steps toy admin (login ∷ login ∷ []) ≡ 100 ∷ []
unfolding all_steps serve consume_factor try_factor validate_totp normalize_code dec_text
    looks_like_recovery_code lower_trim normalize_recovery_code
once_only = refl

consume_factor-Consumed_example :
    Consumed toy admin 3000
      (trim_space (codes " 123456"))
      true
      (λ b. b)
      (consume_factor toy admin 3000 (codes " 123456") true true (λ b. b))
consume_factor-Consumed_example =
    consume_factor-Consumed toy admin 3000 (codes " 123456") true true (λ b. b)

second_factor_spent_once_example :
    Rising 0 (all_steps toy admin (login ∷ login ∷ []))
    × ((hs : List RecoveryHash) × LetInBy toy admin (login ∷ login ∷ []) hs
        × Perm (hs ++ (served toy admin (login ∷ login ∷ [])).recovery_codes) admin.recovery_codes)
second_factor_spent_once_example = second_factor_spent_once toy admin (login ∷ login ∷ [])
