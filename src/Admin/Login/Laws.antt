-- ===== src/Admin/Login/Laws.antt =====
-- When a session begins (internal/api/admin_login.go: handleLogin).
use morpheus_uplink.Base.{
  if_either, ℕ, ◌≡◌, ◌≢◌, refl, ◌⊎◌, inl, inr, Bool, true, false, not, Option, none, some, [], Text,
  same, arith, Bool-cases, if◌then◌else◌, ltb,
}
use morpheus_uplink.Adminauth.Lockout.{allow, failure}
use morpheus_uplink.Adminauth.Factor.{AuthState, FactorResult, consume_factor}
use morpheus_uplink.Adminauth.Sessions.{create}
use morpheus_uplink.Admin.{Outside, Config, State}
use morpheus_uplink.Admin.Login.{
  LoginRequest, Answer, logged_in, refused, as_is, fail_auth, begin_session, second_factor,
  known_password, with_body, login,
}

-- What the second factor has shown, for a state and the state after it.
abbrev pub Shown : Outside → Bool → ℕ → Text → AuthState → AuthState → Type 0
Shown out saves now code a b =
    ((a.enrolled ≡ false) × (b ≡ a))
    ⊎ ((a.enrolled ≡ true)
        × (code ≢ [])
        × ((consume_factor out.crypto a now code true saves as_is).1.ok ≡ true)
        × (b ≡ (consume_factor out.crypto a now code true saves as_is).0))

-- What is known when the sessions have changed.
pub record Begun (out : Outside) (c : Config) (saves : Bool) (token : Option Text) (now : ℕ)
    (ip : Text) (body : Option LoginRequest) (s q : State) : Type 0 where
  pub given : LoginRequest
  pub sent : body ≡ some given
  pub password : given.password ≡ c.admin_password
  pub not_locked : (allow s.lockout now ip).1 ≡ true
  pub shown : Shown out saves now given.code s.auth q.auth
  pub hash : Text
  pub random : token ≡ some hash
  pub created : q.sessions ≡ create s.sessions now hash ip

abbrev pub Kept : State → State × Answer → Type 0
Kept s r = (r.0.sessions ≡ s.sessions) × ((e on : Bool) (n : ℕ) → r.1 ≢ logged_in e on n)

fail_auth-Kept : (now : ℕ) (ip : Text) (s : State) → Kept s (fail_auth now ip s)
unfolding fail_auth
fail_auth-Kept now ip s = elim (Bool-cases (ltb 0 (failure s.lockout now ip).1)) [
  | inl trips ↦ (refl, λ e on n h. ground (arith, rw trips at h))
  | inr free ↦ (refl, λ e on n h. ground (arith, rw free at h))
]

-- Past the password and the second factor a session begins, when there is a token.
abbrev Opens : Option Text → ℕ → Text → State → State → State × Answer → Type 0
Opens token now ip s t r =
    Kept s r
    ⊎ ((hash : Text) × (token ≡ some hash)
        × (r.0.sessions ≡ create s.sessions now hash ip)
        × (r.0.auth ≡ t.auth))

begin_session-Opens :
    (token : Option Text) (now : ℕ) (ip : Text) (s t : State)
    → t.sessions ≡ s.sessions
    → Opens token now ip s t (begin_session token now ip t)
unfolding begin_session
begin_session-Opens none now ip s t e = inl (e, λ a b n h. cc)
begin_session-Opens (some hash) now ip s t e = inr (hash, refl, rw e refl, refl)

-- The session that a right password and second factor begin.
abbrev Opened : Outside → Bool → Option Text → ℕ → Text → Text → State → State → Type 0
Opened out saves token now ip code s q =
    (hash : Text) × (token ≡ some hash)
    × (q.sessions ≡ create s.sessions now hash ip)
    × Shown out saves now code s.auth q.auth

second_factor-Opened :
    (out : Outside) (saves : Bool) (token : Option Text) (now : ℕ) (ip code : Text) (s : State)
    → s.auth.enrolled ≡ true
    → code ≢ []
    → let r =
        second_factor (consume_factor out.crypto s.auth now code true saves as_is) token now ip s in
      Kept s r ⊎ Opened out saves token now ip code s r.0
unfolding second_factor
second_factor-Opened out saves token now ip code s on named =
    let x = consume_factor out.crypto s.auth now code true saves as_is in
    let t : State = record s { auth = x.0 } in
    elim (Bool-cases x.1.ok) [
      | inr wrong ↦ rw wrong (inl (fail_auth-Kept now ip t))
      | inl right ↦ rw right (elim (begin_session-Opens token now ip s t refl) [
        | inl kept ↦ inl kept
        | inr (hash, some_token, begun, auth) ↦
            inr (hash, some_token, begun, inr (on, named, refl, auth))
      ])
    ]

known_password-Opened :
    (out : Outside) (saves : Bool) (token : Option Text) (now : ℕ) (ip code : Text) (s : State)
    → let r = known_password out saves token now ip code s in
      Kept s r ⊎ Opened out saves token now ip code s r.0
unfolding known_password
known_password-Opened out saves token now ip code s =
    let x : AuthState × FactorResult = consume_factor out.crypto s.auth now code true saves as_is in
    let with_code : State × Answer =
      if same code [] then (s, refused) else second_factor x token now ip s in
    let P : State × Answer → Type 0 = λ r. Kept s r ⊎ Opened out saves token now ip code s r.0 in
    if_either P (not s.auth.enrolled) (begin_session token now ip s) with_code
      (λ off. elim (begin_session-Opens token now ip s s refl) [
        | inl kept ↦ inl kept
        | inr (hash, some_token, begun, auth) ↦
            inr (hash, some_token, begun, inl (ground (arith, off), auth))
      ])
      (λ on.
        if_either P (same code []) (s, refused) (second_factor x token now ip s)
          (λ empty. inl (refl, λ a b n h. cc))
          (λ named.
            second_factor-Opened out saves token now ip code s (ground (arith, on))
              (λ e. ground (arith, e, named))))

with_body-Begun :
    (o : Option LoginRequest) (out : Outside) (c : Config) (saves : Bool) (token : Option Text)
    (now : ℕ) (ip : Text) (s : State)
    → let r = with_body o out c saves token now ip s in
      Kept s r
      ⊎ ((given : LoginRequest) × (o ≡ some given)
          × (given.password ≡ c.admin_password)
          × Opened out saves token now ip given.code s r.0)
unfolding with_body
with_body-Begun none out c saves token now ip s = inl (refl, λ a b n h. cc)
with_body-Begun (some body) out c saves token now ip s = elim (Bool-cases (same body.password [])) [
  | inl empty ↦ rw empty (inl (refl, λ a b n h. cc))
  | inr named ↦ rw named (elim (Bool-cases (same body.password c.admin_password)) [
    | inr wrong ↦ rw wrong (inl (fail_auth-Kept now ip s))
    | inl right ↦ rw right (elim (known_password-Opened out saves token now ip body.code s) [
      | inl kept ↦ inl kept
      | inr begun ↦ inr (body, refl, ground (arith, right), begun)
    ])
  ])
]

-- A login either leaves the sessions as they are and does not answer that it logged in, or it began
-- exactly the session of the new random token, and then: the address was not locked out; the password of
-- the body is the admin's; and with a second factor enrolled the body has a code that the second factor
-- accepted, which is spent in the stored state.
pub login-Begun :
    (out : Outside) (c : Config) (saves : Bool) (token : Option Text) (now : ℕ) (ip : Text)
    (body : Option LoginRequest) (s : State)
    → let r = login out c saves token now ip body s in
      Kept s r ⊎ Begun out c saves token now ip body s r.0
unfolding login
login-Begun out c saves token now ip body s =
    let t : State = record s { lockout = (allow s.lockout now ip).0 } in
    elim (Bool-cases (allow s.lockout now ip).1) [
      | inr locked ↦ rw locked (inl (refl, λ a b n h. cc))
      | inl open_to ↦ rw open_to (elim (with_body-Begun body out c saves token now ip t) [
        | inl kept ↦ inl kept
        | inr (given, sent, password, (hash, some_token, begun, shown)) ↦ inr (record {
          given = given;
          sent = sent;
          password = password;
          not_locked = open_to;
          shown = shown;
          hash = hash;
          random = some_token;
          created = begun;
        })
      ])
    ]
