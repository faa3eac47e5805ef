-- ===== src/Admin/Access/Laws.antt =====
-- What a request that reaches an admin handler has shown (internal/api/admin_login.go: requireAdmin).
use morpheus_uplink.Base.{
  ℕ, ◌≡◌, refl, ap, ◌∙◌, ◌⊎◌, inl, inr, Bool, true, false, ◌&&◌, not, Option, none, some, [], ◌∷◌,
  ◌++◌, Text, same, arith, Bool-cases, if◌then◌else◌, ◌==◌, is_some,
}
use morpheus_uplink.Adminauth.Lockout.{allow_bearer}
use morpheus_uplink.Adminauth.Factor.{is_on}
use morpheus_uplink.Adminauth.Sessions.{Session, Store, look_up}
use morpheus_uplink.Admin.{Outside, Config, Request, State}
use morpheus_uplink.Admin.Gate.{check_csrf}
use morpheus_uplink.Admin.Access.{
  Caller, bearer, cookie_session, Passage, passes, unauthorized, first_value, cut_prefix,
  bearer_prefix, seen_session, find_session, by_key, by_cookie, by_header, require_admin,
  session_only, require_session, has_values,
}

cut_prefix-append : (p s t : Text) → cut_prefix p s ≡ some t → s ≡ p ++ t
unfolding cut_prefix
cut_prefix-append [] s t e = ground (arith, e)
cut_prefix-append (p ∷ ps) [] t e = absurd (ground (arith, e))
cut_prefix-append (p ∷ ps) (c ∷ s) t e = elim (Bool-cases (c == p)) [
  | inr other ↦ absurd (ground (arith, rw other at e))
  | inl same_char ↦
      let rest = cut_prefix-append ps s t (rw same_char at e) in ground (arith, same_char, rest)
]

-- The master key, sent while the setting allows it and the address is not locked out.
pub record ByKey (c : Config) (now : ℕ) (r : Request) (s : State) (who : Caller) : Type 0 where
  pub is_bearer : who ≡ bearer
  pub switched_on : c.master_key_admin ≡ true
  pub key : first_value r.authorization ≡ bearer_prefix ++ c.master_key
  pub not_locked : (allow_bearer s.lockout now r.ip).1 ≡ true

-- The cookie of a live session, from the console's own origin, with the second factor enrolled when it
-- is on.
pub record ByCookie (out : Outside) (c : Config) (now : ℕ) (r : Request) (s : State) (who : Caller)
    : Type 0 where
  pub session : Session
  pub is_cookie : who ≡ cookie_session session r.cookie
  pub live : is_some (look_up out.hash_raw s.sessions now r.cookie (not r.poll)).1 ≡ true
  pub own_origin : check_csrf out c r ≡ true
  pub enrolled : is_on s.auth ≡ true → s.auth.enrolled ≡ true

by_key-ByKey :
    (c : Config) (now : ℕ) (r : Request) (s : State) (token : Text) (who : Caller)
    → first_value r.authorization ≡ bearer_prefix ++ token
    → (by_key c now r s token).1 ≡ passes who
    → ByKey c now r s who
unfolding by_key
by_key-ByKey c now r s token who sent h = elim (Bool-cases (allow_bearer s.lockout now r.ip).1) [
  | inr locked ↦ absurd (ground (arith, rw locked at h))
  | inl open_to ↦ elim (Bool-cases (c.master_key_admin && same token c.master_key)) [
    | inr wrong ↦ absurd (ground (arith, rw (open_to, wrong) at h))
    | inl right ↦
        let e : passes bearer ≡ passes who = rw (open_to, right) at h in
        record {
          is_bearer = ground (arith, e);
          switched_on = ground (arith, right);
          key = sent ∙ ap (λ t. bearer_prefix ++ t) (ground (arith, right));
          not_locked = open_to;
        }
  ]
]

seen_session-found :
    (l : Store × Option Session) (out : Outside) (r : Request) (sess : Session)
    → (seen_session l out r).1 ≡ some sess
    → is_some l.1 ≡ true
unfolding seen_session
seen_session-found (m, none) out r sess h = absurd (ground (arith, h))
seen_session-found (m, some s) out r sess h = refl

by_cookie-ByCookie :
    (l : Store × Option Session) (out : Outside) (c : Config) (now : ℕ) (r : Request) (s : State)
    (who : Caller)
    → (((sess : Session)
        → l.1 ≡ some sess
        → is_some (look_up out.hash_raw s.sessions now r.cookie (not r.poll)).1 ≡ true))
    → (by_cookie l out c r s).1 ≡ passes who
    → ByCookie out c now r s who
unfolding by_cookie
by_cookie-ByCookie (m, none) out c now r s who live h = absurd (ground (arith, h))
by_cookie-ByCookie (m, some sess) out c now r s who live h =
    elim (Bool-cases (check_csrf out c r)) [
      | inr cross ↦ absurd (ground (arith, rw cross at h))
      | inl own ↦ elim (Bool-cases (is_on s.auth && not s.auth.enrolled)) [
        | inl pending ↦ absurd (ground (arith, rw (own, pending) at h))
        | inr ready ↦
            let e : passes (cookie_session sess r.cookie) ≡ passes who = rw (own, ready) at h in
            record {
              session = sess;
              is_cookie = ground (arith, e);
              live = live sess refl;
              own_origin = own;
              enrolled = λ on. ground (arith, on, ready);
            }
      ]
    ]

by_header-found :
    (o : Option Text) (out : Outside) (c : Config) (now : ℕ) (r : Request) (s : State)
    (who : Caller)
    → cut_prefix bearer_prefix (first_value r.authorization) ≡ o
    → (by_header o out c now r s).1 ≡ passes who
    → ByKey c now r s who ⊎ ByCookie out c now r s who
unfolding by_header find_session
by_header-found (some token) out c now r s who cut h = inl (
    by_key-ByKey c now r s token who
      (cut_prefix-append bearer_prefix (first_value r.authorization) token cut) h)
by_header-found none out c now r s who cut h =
    let l = look_up out.hash_raw s.sessions now r.cookie (not r.poll) in
    inr (
      by_cookie-ByCookie (seen_session l out r) out c now r s who
        (λ sess. seen_session-found l out r sess) h)

not_barred :
    (b : Bool) (s : State) (x : State × Passage) (who : Caller)
    → (if b then (s, unauthorized) else x).1 ≡ passes who
    → (b ≡ false) × (x.1 ≡ passes who)
not_barred true s x who h = absurd (ground (arith, h))
not_barred false s x who h = (refl, h)

-- A request reaches an admin handler only without Basic credentials and in one of two ways: with the
-- master key as its Bearer token, while the setting allows that and the address is not locked out; or
-- with the cookie of a session that the store finds live, past the CSRF check, and with the second
-- factor enrolled if it is on.
pub require_admin-ByKey_or_ByCookie :
    (out : Outside) (c : Config) (now : ℕ) (r : Request) (s : State) (who : Caller)
    → (require_admin out c now r s).1 ≡ passes who
    → (r.basic_auth ≡ false) × (ByKey c now r s who ⊎ ByCookie out c now r s who)
unfolding require_admin
require_admin-ByKey_or_ByCookie out c now r s who h =
    let cut = cut_prefix bearer_prefix (first_value r.authorization) in
    let (other, passed) = not_barred r.basic_auth s (by_header cut out c now r s) who h in
    (other, by_header-found cut out c now r s who refl passed)

session_only-auth :
    (l : Store × Option Session) (out : Outside) (c : Config) (r : Request) (s : State)
    → let q = (session_only l out c r s).0 in (q.auth ≡ s.auth) × (q.lockout ≡ s.lockout)
unfolding session_only
session_only-auth (m, none) out c r s = (refl, refl)
session_only-auth (m, some sess) out c r s = elim (Bool-cases (check_csrf out c r)) [
  | inl own ↦ rw own (refl, refl)
  | inr cross ↦ rw cross (refl, refl)
]

-- The passage of a cookie session only touches the sessions.
pub require_session-auth :
    (out : Outside) (c : Config) (now : ℕ) (r : Request) (s : State)
    → let q = (require_session out c now r s).0 in (q.auth ≡ s.auth) × (q.lockout ≡ s.lockout)
unfolding require_session
require_session-auth out c now r s = elim (Bool-cases (has_values r.authorization)) [
  | inl sent ↦ rw sent (refl, refl)
  | inr clean ↦ rw clean (session_only-auth (find_session out now r s.sessions) out c r s)
]
