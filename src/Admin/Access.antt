-- ===== src/Admin/Access.antt =====
-- Which requests reach an admin handler (internal/api/admin_login.go: requireAdmin, cookieSession;
-- internal/api/totp_handlers.go: requireSession). The handler itself is not run: the answer says whether
-- it would be.
pub mod Laws
pub mod Tests
use morpheus_uplink.Base.{
  ℕ, Bool, true, false, ◌&&◌, ◌||◌, not, Option, none, some, List, [], ◌∷◌, Text, same, codes,
  if◌then◌else◌, ◌==◌,
}
use morpheus_uplink.Adminauth.Lockout.{allow_bearer, failure_bearer, success_bearer}
use morpheus_uplink.Adminauth.Factor.{is_on}
use morpheus_uplink.Adminauth.Sessions.{Session, Store, look_up, observe_ip}
use morpheus_uplink.Admin.{Outside, Config, Request, State}
use morpheus_uplink.Admin.Gate.{check_csrf}

-- How a request was let in; the session is the copy taken at the lookup, with the cookie's token.
pub data Caller : Type 0 where
  bearer : Caller
  cookie_session : Session → Text → Caller

pub data Passage : Type 0 where
  passes : Caller → Passage
  unauthorized forbidden enrollment_required : Passage
  too_many : ℕ → Passage

-- `r.Header.Get("Authorization")`
abbrev pub first_value : List Text → Text
first_value [] = []
first_value (v ∷ vs) = v

-- `strings.CutPrefix`
pub cut_prefix : Text → Text → Option Text
cut_prefix [] s = some s
cut_prefix (p ∷ ps) [] = none
cut_prefix (p ∷ ps) (c ∷ s) = let rest = cut_prefix ps s in if c == p then rest else none

abbrev pub bearer_prefix : Text
bearer_prefix = codes "Bearer "

with_address : Option Text → Session → Text → Session
with_address none s ip = s
with_address (some prev) s ip = record s { ip = ip }

seen_session : Store × Option Session → Outside → Request → Store × Option Session
unfolding with_address
seen_session (m, none) out r = (m, none)
seen_session (m, some s) out r =
    let (m', prev) = observe_ip out.hash_raw m r.cookie r.ip in
    (m', some (with_address prev s r.ip))

-- `cookieSession`
pub find_session : Outside → ℕ → Request → Store → Store × Option Session
unfolding seen_session
find_session out now r m = seen_session (look_up out.hash_raw m now r.cookie (not r.poll)) out r

-- The master key, when the setting allows it.
by_key : Config → ℕ → Request → State → Text → State × Passage
by_key c now r s token =
    let (l, ok, wait) = allow_bearer s.lockout now r.ip in
    let t : State = record s { lockout = l } in
    if not ok
    then (t, too_many wait)
    else if c.master_key_admin && same token c.master_key
    then (record s { lockout = success_bearer l r.ip }, passes bearer)
    else (record s { lockout = (failure_bearer l now r.ip).0 }, unauthorized)

by_cookie : Store × Option Session → Outside → Config → Request → State → State × Passage
by_cookie (m, none) out c r s = (record s { sessions = m }, unauthorized)
by_cookie (m, some sess) out c r s =
    let t : State = record s { sessions = m } in
    if not (check_csrf out c r)
    then (t, forbidden)
    else if is_on s.auth && not s.auth.enrolled
    then (t, enrollment_required)
    else (t, passes (cookie_session sess r.cookie))

by_header : Option Text → Outside → Config → ℕ → Request → State → State × Passage
unfolding by_key by_cookie find_session
by_header (some token) out c now r s = by_key c now r s token
by_header none out c now r s = by_cookie (find_session out now r s.sessions) out c r s

pub require_admin : Outside → Config → ℕ → Request → State → State × Passage
unfolding by_header cut_prefix
require_admin out c now r s =
    if r.basic_auth
    then (s, unauthorized)
    else by_header (cut_prefix bearer_prefix (first_value r.authorization)) out c now r s

abbrev has_values : List Text → Bool
has_values [] = false
has_values (v ∷ vs) = true

session_only : Store × Option Session → Outside → Config → Request → State → State × Passage
session_only (m, none) out c r s = (record s { sessions = m }, unauthorized)
session_only (m, some sess) out c r s =
    let t : State = record s { sessions = m } in
    if not (check_csrf out c r) then (t, forbidden) else (t, passes (cookie_session sess r.cookie))

-- Cookie and CSRF only, with any Authorization header refused.
pub require_session : Outside → Config → ℕ → Request → State → State × Passage
unfolding session_only find_session
require_session out c now r s =
    if has_values r.authorization
    then (s, unauthorized)
    else session_only (find_session out now r s.sessions) out c r s
