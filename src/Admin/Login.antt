-- ===== src/Admin/Login.antt =====
-- How a session begins, steps up and ends (internal/api/admin_login.go: handleLogin, failAuth,
-- lockedOut, handleLogout, handleRevokeAllSessions, applyBreakGlass; internal/api/stepup.go:
-- handleStepUp, refuseRevealOverBearer). A decoded body is given, `none` for one that does not decode;
-- so are whether the state file is written and the hash of a new random token, `none` when there is
-- none.
mod Laws
mod StepUp
mod Tests
use morpheus_uplink.Base.{
  ℕ, Bool, true, false, ◌&&◌, ◌||◌, not, Option, none, some, List, [], ◌∷◌, Text, same,
  if◌then◌else◌, ltb, delete, trim_space, any, codes,
}
use morpheus_uplink.Adminauth.Lockout.{allow, failure, success, reset}
use morpheus_uplink.Adminauth.Factor.{
  AuthState, FactorResult, consume_factor, looks_like_recovery_code, is_on, recovery_remaining,
}
use morpheus_uplink.Adminauth.Sessions.{Store, create, stamp_step_up, revoke_all}
use morpheus_uplink.Admin.{Outside, Config, Request, State}
use morpheus_uplink.Admin.Access.{
  Caller, bearer, cookie_session, Passage, passes, unauthorized, forbidden, enrollment_required,
  too_many, require_session, first_value, cut_prefix, bearer_prefix,
}

pub record LoginRequest : Type 0 where
  pub password : Text
  pub code : Text

-- `refused` is the answer 401, `stepped_up` says when, and `logged_in` whether a second factor is
-- enrolled, whether it is on and how many recovery codes are left.
pub data Answer : Type 0 where
  logged_in : Bool → Bool → ℕ → Answer
  stepped_up : ℕ → Answer
  refused bad_request create_failed not_allowed : Answer
  locked_out : ℕ → Answer

abbrev pub as_is : AuthState → AuthState
as_is a = a

pub fail_auth : ℕ → Text → State → State × Answer
fail_auth now ip s =
    let (l, d) = failure s.lockout now ip in
    (record s { lockout = l }, if ltb 0 d then locked_out d else refused)

begin_session : Option Text → ℕ → Text → State → State × Answer
begin_session none now ip s = (record s { lockout = success s.lockout ip }, create_failed)
begin_session (some hash) now ip s = (
  record s { lockout = success s.lockout ip; sessions = create s.sessions now hash ip },
  logged_in s.auth.enrolled (is_on s.auth) (recovery_remaining s.auth),
)

second_factor : AuthState × FactorResult → Option Text → ℕ → Text → State → State × Answer
unfolding begin_session fail_auth
second_factor (a, res) token now ip s =
    let t : State = record s { auth = a } in
    if res.ok then begin_session token now ip t else fail_auth now ip t

-- A login whose password is right.
known_password : Outside → Bool → Option Text → ℕ → Text → Text → State → State × Answer
unfolding second_factor begin_session
known_password out saves token now ip code s =
    if not s.auth.enrolled
    then begin_session token now ip s
    else if same code []
    then (s, refused)
    else second_factor (consume_factor out.crypto s.auth now code true saves as_is) token now ip s

with_body :
    Option LoginRequest → Outside → Config → Bool → Option Text → ℕ → Text → State → State × Answer
unfolding known_password fail_auth
with_body none out c saves token now ip s = (s, bad_request)
with_body (some body) out c saves token now ip s =
    if same body.password []
    then (s, bad_request)
    else if not (same body.password c.admin_password)
    then fail_auth now ip s
    else known_password out saves token now ip body.code s

unfoldable pub login :
    Outside → Config → Bool → Option Text → ℕ → Text → Option LoginRequest → State → State × Answer
unfolding with_body
login out c saves token now ip body s =
    let (l, ok, wait) = allow s.lockout now ip in
    let t : State = record s { lockout = l } in
    if not ok then (t, locked_out wait) else with_body body out c saves token now ip t

stamped : Store × Option ℕ → Text → State → State × Answer
stamped (m, none) ip s = (record s { sessions = m }, refused)
stamped (m, some at_time) ip s =
    (record s { sessions = m; lockout = success s.lockout ip }, stepped_up at_time)

totp_only : AuthState × FactorResult → Outside → ℕ → Text → Text → State → State × Answer
unfolding stamped fail_auth
totp_only (a, res) out now ip raw s =
    let t : State = record s { auth = a } in
    if res.ok
    then stamped (stamp_step_up out.hash_raw t.sessions now raw) ip t
    else fail_auth now ip t

step_code : Outside → Bool → ℕ → Text → Text → Text → State → State × Answer
unfolding totp_only stamped fail_auth
step_code out saves now ip raw code s =
    if not s.auth.enrolled
    then stamped (stamp_step_up out.hash_raw s.sessions now raw) ip s
    else if same code []
    then fail_auth now ip s
    else if looks_like_recovery_code code
    then fail_auth now ip s
    else totp_only (consume_factor out.crypto s.auth now code false saves as_is) out now ip raw s

step_body : Option LoginRequest → Outside → Config → Bool → ℕ → Text → Text → State → State × Answer
unfolding step_code fail_auth
step_body none out c saves now ip raw s = (s, bad_request)
step_body (some body) out c saves now ip raw s =
    if not (same body.password c.admin_password)
    then fail_auth now ip s
    else step_code out saves now ip raw (trim_space body.code) s

handle_step_up :
    Caller → Outside → Config → Bool → ℕ → Text → Option LoginRequest → State → State × Answer
unfolding step_body
handle_step_up who out c saves now ip body s =
    let (l, ok, wait) = allow s.lockout now ip in
    let t : State = record s { lockout = l } in
    if not ok then (t, locked_out wait) else elim who [
      | bearer ↦ (t, refused)
      | cookie_session sess raw ↦
          if same raw [] then (t, refused) else step_body body out c saves now ip raw t
    ]

after_passage :
    State × Passage → Outside → Config → Bool → ℕ → Text → Option LoginRequest → State × Answer
unfolding handle_step_up
after_passage (s, passes who) out c saves now ip body = handle_step_up who out c saves now ip body s
after_passage (s, too_many wait) out c saves now ip body = (s, locked_out wait)
after_passage (s, unauthorized) out c saves now ip body = (s, refused)
after_passage (s, forbidden) out c saves now ip body = (s, not_allowed)
after_passage (s, enrollment_required) out c saves now ip body = (s, not_allowed)

-- POST /admin/step-up, behind `requireSession`.
unfoldable pub step_up :
    Outside → Config → Bool → ℕ → Request → Option LoginRequest → State → State × Answer
unfolding after_passage
step_up out c saves now r body s =
    after_passage (require_session out c now r s) out c saves now r.ip body

revoke_hash : Option Text → Store → Store
revoke_hash none m = m
revoke_hash (some hash) m = delete hash m

-- `RevokeRaw` of the cookie, when there is one.
pub logout : Outside → Text → State → State
unfolding revoke_hash
logout out raw s =
    if same raw [] then s else record s { sessions = revoke_hash (out.hash_any raw) s.sessions }

pub revoke_all_sessions : State → State × ℕ
revoke_all_sessions s = let (m, n) = revoke_all s.sessions in (record s { sessions = m }, n)

pub wiped_auth : Text → AuthState
wiped_auth fingerprint = record {
  totp_blob = [];
  totp_salt = [];
  recovery_codes = [];
  password_fingerprint = fingerprint;
  enrolled = false;
  last_totp_step = 0;
  break_glass_done = true;
  pending_secret_enc = [];
  pending_expires = 0;
  two_factor_on = false;
}

-- At boot: UPLINK_RESET_2FA wipes once.
pub apply_break_glass : Outside → Config → State → State
unfolding wiped_auth
apply_break_glass out c s =
    if not c.reset_2fa
    then record s { auth = record s.auth { break_glass_done = false } }
    else if s.auth.break_glass_done
    then s
    else record s {
      auth = wiped_auth out.fingerprint;
      sessions = (revoke_all s.sessions).0;
      lockout = reset s.lockout;
    }

-- Whether the request asks for full keys with an Authorization header, which is answered 403.
pub refuses_reveal : List Text → Request → Bool
refuses_reveal reveal r =
    any (λ v. same v (codes "1") || same v (codes "true")) reveal
    && elim r.authorization [ [] ↦ false | ◌∷◌ v vs ↦ true ]
