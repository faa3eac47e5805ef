-- ===== src/Admin/Login/StepUp.antt =====
-- What a step-up spends and has shown (internal/api/stepup.go: handleStepUp).
use morpheus_uplink.Base.{
  if_either, ℕ, ◌≡◌, ◌≢◌, refl, subst, ◌⊎◌, inl, inr, Bool, true, false, ◌||◌, not, Option, none,
  some, [], Text, same, arith, Bool-cases, if◌then◌else◌, ltb, trim_space,
}
use morpheus_uplink.Adminauth.Lockout.{allow, failure}
use morpheus_uplink.Adminauth.Factor.{
  AuthState, Crypto, FactorResult, Method, consume_factor, looks_like_recovery_code,
}
use morpheus_uplink.Adminauth.Factor.Laws.{
  Consumed, unchanged, consumed, consume_factor-Consumed, Spends, by_step, by_code,
}
use morpheus_uplink.Adminauth.Sessions.{Store, stamp_step_up}
use morpheus_uplink.Admin.{Outside, Config, Request, State}
use morpheus_uplink.Admin.Access.{
  Caller, bearer, cookie_session, Passage, passes, unauthorized, forbidden, enrollment_required,
  too_many, require_session,
}
use morpheus_uplink.Admin.Access.Laws.{require_session-auth}
use morpheus_uplink.Admin.Login.{
  LoginRequest, Answer, stepped_up, refused, bad_request, locked_out, as_is, fail_auth, stamped,
  totp_only, step_code, step_body, handle_step_up, after_passage, step_up,
}

Spends-keeps_codes :
    (c : Crypto) (a : AuthState) (now : ℕ) (code : Text) (b : AuthState) (how : Method)
    → (false || not (looks_like_recovery_code code)) ≡ true
    → Spends c a now code b how
    → b.recovery_codes ≡ a.recovery_codes
Spends-keeps_codes c a now code b how shape (by_step secret step p q r u v w x) = refl
Spends-keeps_codes c a now code b how shape (by_code pepper i h p looks q r) =
    absurd (ground (arith, shape, looks))

Consumed-keeps_codes :
    (c : Crypto) (a : AuthState) (now : ℕ) (code : Text) (r : AuthState × FactorResult)
    → Consumed c a now code false as_is r
    → r.0.recovery_codes ≡ a.recovery_codes
Consumed-keeps_codes c a now code r (unchanged res failed) = refl
Consumed-keeps_codes c a now code r (consumed b how on shape spends) =
    Spends-keeps_codes c a now code b how shape spends

-- What a step-up leaves, and what it has shown when it answers that it stepped up.
pub record Stepped (out : Outside) (c : Config) (saves : Bool) (now : ℕ)
    (body : Option LoginRequest) (a : AuthState) (r : State × Answer) : Type 0 where
  pub codes_kept : r.0.auth.recovery_codes ≡ a.recovery_codes
  pub earned :
      (t : ℕ)
      → r.1 ≡ stepped_up t
      → (given : LoginRequest) × (body ≡ some given)
        × (given.password ≡ c.admin_password)
        × ((a.enrolled ≡ false)
            ⊎ ((consume_factor out.crypto a now (trim_space given.code) false saves as_is).1.ok
                ≡ true))

module _ (out : Outside) (c : Config) (saves : Bool) (now : ℕ) (body : Option LoginRequest)
    (a : AuthState) where
  idle-Stepped :
      (r : State × Answer)
      → r.0.auth.recovery_codes ≡ a.recovery_codes
      → ((t : ℕ) → r.1 ≢ stepped_up t)
      → Stepped out c saves now body a r
  idle-Stepped r e not_up = record { codes_kept = e; earned = λ t h. absurd (not_up t h) }

  fail_auth-Stepped :
      (ip : Text) (s : State)
      → s.auth.recovery_codes ≡ a.recovery_codes
      → Stepped out c saves now body a (fail_auth now ip s)
  unfolding fail_auth
  fail_auth-Stepped ip s e = elim (Bool-cases (ltb 0 (failure s.lockout now ip).1)) [
    | inl trips ↦ rw trips (idle-Stepped _ e (λ t h. cc))
    | inr free ↦ rw free (idle-Stepped _ e (λ t h. cc))
  ]

  stamped-Stepped :
      (x : Store × Option ℕ) (ip : Text) (s : State) (given : LoginRequest)
      → s.auth.recovery_codes ≡ a.recovery_codes
      → body ≡ some given
      → given.password ≡ c.admin_password
      → (a.enrolled ≡ false)
        ⊎ ((consume_factor out.crypto a now (trim_space given.code) false saves as_is).1.ok ≡ true)
      → Stepped out c saves now body a (stamped x ip s)
  unfolding stamped
  stamped-Stepped (m, none) ip s given e sent right shown = idle-Stepped _ e (λ t h. cc)
  stamped-Stepped (m, some at_time) ip s given e sent right shown = record {
    codes_kept = e;
    earned = λ t h. (given, sent, right, shown);
  }

  totp_only-Stepped :
      (ip raw : Text) (s : State) (given : LoginRequest)
      → body ≡ some given
      → given.password ≡ c.admin_password
      → Stepped out c saves now body a (
          totp_only
            (consume_factor out.crypto a now (trim_space given.code) false saves as_is)
            out
            now
            ip
            raw
            s)
  unfolding totp_only
  totp_only-Stepped ip raw s given sent right =
      let code : Text = trim_space given.code in
      let x : AuthState × FactorResult = consume_factor out.crypto a now code false saves as_is in
      let t : State = record s { auth = x.0 } in
      let kept =
        Consumed-keeps_codes out.crypto a now (trim_space code) x
          (consume_factor-Consumed out.crypto a now code false saves as_is) in
      if_either (Stepped out c saves now body a) x.1.ok
        (stamped (stamp_step_up out.hash_raw t.sessions now raw) ip t) (fail_auth now ip t)
        (λ ok.
          stamped-Stepped (stamp_step_up out.hash_raw t.sessions now raw) ip t given kept sent right
            (inr ok))
        (λ wrong. fail_auth-Stepped ip t kept)

step_code-Stepped :
    (out : Outside) (c : Config) (saves : Bool) (now : ℕ) (body : Option LoginRequest)
    (ip raw : Text) (given : LoginRequest) (s : State)
    → body ≡ some given
    → given.password ≡ c.admin_password
    → Stepped out c saves now body s.auth (step_code out saves now ip raw (trim_space given.code) s)
unfolding step_code
step_code-Stepped out c saves now body ip raw given s sent right =
    let a : AuthState = s.auth in
    let code : Text = trim_space given.code in
    let stamp : State × Answer = stamped (stamp_step_up out.hash_raw s.sessions now raw) ip s in
    let failed : State × Answer = fail_auth now ip s in
    let spend : State × Answer =
      totp_only (consume_factor out.crypto a now code false saves as_is) out now ip raw s in
    let P : State × Answer → Type 0 = Stepped out c saves now body a in
    let fails : P failed = fail_auth-Stepped out c saves now body a ip s refl in
    if_either P (not a.enrolled) stamp
      (if same code [] then failed else if looks_like_recovery_code code then failed else spend)
      (λ off.
        stamped-Stepped out c saves now body a (stamp_step_up out.hash_raw s.sessions now raw) ip s
          given refl sent right (inl (ground (arith, off))))
      (λ on.
        if_either P (same code []) failed (if looks_like_recovery_code code then failed else spend)
          (λ empty. fails)
          (λ named.
            if_either P (looks_like_recovery_code code) failed spend (λ recovery. fails)
              (λ other. totp_only-Stepped out c saves now body a ip raw s given sent right)))

step_body-Stepped :
    (o : Option LoginRequest) (out : Outside) (c : Config) (saves : Bool) (now : ℕ) (ip raw : Text)
    (s : State)
    → Stepped out c saves now o s.auth (step_body o out c saves now ip raw s)
unfolding step_body
step_body-Stepped none out c saves now ip raw s =
    idle-Stepped out c saves now none s.auth (s, bad_request) refl (λ t h. cc)
step_body-Stepped (some body) out c saves now ip raw s =
    let P : State × Answer → Type 0 = Stepped out c saves now (some body) s.auth in
    if_either P (not (same body.password c.admin_password)) (fail_auth now ip s)
      (step_code out saves now ip raw (trim_space body.code) s)
      (λ wrong. fail_auth-Stepped out c saves now (some body) s.auth ip s refl)
      (λ right.
        step_code-Stepped out c saves now (some body) ip raw body s refl (ground (arith, right)))

cookie-Stepped :
    (raw : Text) (out : Outside) (c : Config) (saves : Bool) (now : ℕ) (ip : Text)
    (body : Option LoginRequest) (s : State)
    → Stepped out c saves now body s.auth
        (if same raw [] then (s, refused) else step_body body out c saves now ip raw s)
cookie-Stepped raw out c saves now ip body s =
    if_either (Stepped out c saves now body s.auth) (same raw []) (s, refused)
      (step_body body out c saves now ip raw s)
      (λ empty. idle-Stepped out c saves now body s.auth (s, refused) refl (λ t h. cc))
      (λ named. step_body-Stepped body out c saves now ip raw s)

handle_step_up-Stepped :
    (who : Caller) (out : Outside) (c : Config) (saves : Bool) (now : ℕ) (ip : Text)
    (body : Option LoginRequest) (s : State)
    → Stepped out c saves now body s.auth (handle_step_up who out c saves now ip body s)
unfolding handle_step_up
handle_step_up-Stepped bearer out c saves now ip body s =
    let t : State = record s { lockout = (allow s.lockout now ip).0 } in
    if_either (Stepped out c saves now body s.auth) (not (allow s.lockout now ip).1)
      (t, locked_out (allow s.lockout now ip).2) (t, refused)
      (λ locked. idle-Stepped out c saves now body s.auth _ refl (λ u h. cc))
      (λ open_to. idle-Stepped out c saves now body s.auth (t, refused) refl (λ u h. cc))
handle_step_up-Stepped (cookie_session sess raw) out c saves now ip body s =
    let t : State = record s { lockout = (allow s.lockout now ip).0 } in
    if_either (Stepped out c saves now body s.auth) (not (allow s.lockout now ip).1)
      (t, locked_out (allow s.lockout now ip).2)
      (if same raw [] then (t, refused) else step_body body out c saves now ip raw t)
      (λ locked. idle-Stepped out c saves now body s.auth _ refl (λ u h. cc))
      (λ open_to. cookie-Stepped raw out c saves now ip body t)

after_passage-Stepped :
    (p : Passage) (q : State) (out : Outside) (c : Config) (saves : Bool) (now : ℕ) (ip : Text)
    (body : Option LoginRequest)
    → Stepped out c saves now body q.auth (after_passage (q, p) out c saves now ip body)
unfolding after_passage
after_passage-Stepped (passes who) q out c saves now ip body =
    handle_step_up-Stepped who out c saves now ip body q
after_passage-Stepped (too_many wait) q out c saves now ip body =
    idle-Stepped out c saves now body q.auth _ refl (λ t h. cc)
after_passage-Stepped unauthorized q out c saves now ip body =
    idle-Stepped out c saves now body q.auth _ refl (λ t h. cc)
after_passage-Stepped forbidden q out c saves now ip body =
    idle-Stepped out c saves now body q.auth _ refl (λ t h. cc)
after_passage-Stepped enrollment_required q out c saves now ip body =
    idle-Stepped out c saves now body q.auth _ refl (λ t h. cc)

-- A step-up never spends a recovery code, whatever it answers. When it answers that it stepped up, the
-- password of the body is the admin's and, with a second factor enrolled, the second factor accepted
-- the body's code with recovery codes not allowed.
pub step_up-Stepped :
    (out : Outside) (c : Config) (saves : Bool) (now : ℕ) (r : Request) (body : Option LoginRequest)
    (s : State)
    → Stepped out c saves now body s.auth (step_up out c saves now r body s)
unfolding step_up
step_up-Stepped out c saves now r body s =
    let p = require_session out c now r s in
    subst (λ a. Stepped out c saves now body a (after_passage p out c saves now r.ip body))
      (require_session-auth out c now r s).0
      (after_passage-Stepped p.1 p.0 out c saves now r.ip body)
