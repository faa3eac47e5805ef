-- ===== src/Adminauth/Lockout/Laws.antt =====
-- What the lockout guarantees (internal/adminauth/lockout.go).
use morpheus_uplink.Base.{
  ℕ, ◌+◌, ◌-◌, ◌≤◌, ◌<◌, ◌≡◌, refl, false, some, arith, Text, Map, lookup, lookup-insert_self,
  Bool-cases, ltb, leb, length, inl, inr, ◌⊎◌, ◌*◌, ◌^◌, min, zero, suc, dec_le,
}
use morpheus_uplink.Adminauth.Lockout.{
  IpState, Lockout, minute, second, max_lock, is_clean, allow_state, allow, success, ensure_in,
  lock_for, fail_in, record_global, trip, fail_ip, failure, allow_bearer, failure_bearer,
  success_bearer,
}

-- The global backoff is between a minute and 15 minutes.
pub record Bounded (l : Lockout) : Type 0 where
  pub low : minute ≤ l.global_backoff
  pub high : l.global_backoff ≤ max_lock

lock_for-le : (n : ℕ) → lock_for n ≤ max_lock
unfolding lock_for
lock_for-le n = ground arith

locked_refused :
    (m : Map IpState) (ip : Text) (st : IpState) (t : ℕ)
    → lookup ip m ≡ some st
    → t < st.locked_until
    → ((allow_state (lookup ip m) m t ip).1 ≡ false)
unfolding allow_state is_clean
locked_refused m ip st t found h = ground (arith, found)

lock_for_pos : (n : ℕ) → 0 < lock_for n → leb n 5 ≡ false
unfolding lock_for
lock_for_pos n h = ground arith

fail_in_locks :
    (m : Map IpState) (ip : Text) (now t : ℕ)
    → 0 < (fail_in m ip now).1
    → t < now + (fail_in m ip now).1
    → (allow_state (lookup ip (fail_in m ip now).0) (fail_in m ip now).0 t ip).1 ≡ false
unfolding fail_in
fail_in_locks m ip now t pos h =
    locked_refused (fail_in m ip now).0 ip _ t (lookup-insert_self ip _ (ensure_in m ip now).0)
      (rw (lock_for_pos ((ensure_in m ip now).1.failures + 1) pos) h)

trip_locks :
    (l : Lockout) (now t : ℕ) (ip : Text)
    → t < now + (trip l now ip).1
    → (allow (trip l now ip).0 t ip).1 ≡ false
unfolding trip allow
trip_locks l now t ip h = ground arith

fail_ip_locks :
    (l : Lockout) (now t : ℕ) (ip : Text)
    → 0 < (fail_ip l now ip).1
    → t < now + (fail_ip l now ip).1
    → (allow (fail_ip l now ip).0 t ip).1 ≡ false
unfolding fail_ip allow
fail_ip_locks l now t ip pos h = elim (Bool-cases (ltb t l.global_until)) [
  | inl global ↦ rw global
  | inr own ↦ rw own (fail_in_locks l.per_ip ip now t pos h)
]

-- A failure that answers with a backoff locks the address: until the backoff has passed, no attempt
-- from it is allowed.
pub failure_locks :
    (l : Lockout) (now t : ℕ) (ip : Text)
    → 0 < (failure l now ip).1
    → t < now + (failure l now ip).1
    → (allow (failure l now ip).0 t ip).1 ≡ false
unfolding failure
failure_locks l now t ip pos h = elim (Bool-cases (ltb 20 (length (record_global l now).global))) [
  | inl many ↦ rw many (trip_locks (record_global l now) now t ip (rw many at h))
  | inr few ↦ rw few (fail_ip_locks (record_global l now) now t ip (rw few at pos) (rw few at h))
]

-- A password failure, its success and its check leave the Bearer map alone, and a Bearer failure,
-- success and check leave alone all that the password check reads: neither branch can lock out the
-- other.
pub bearer_separate :
    (l : Lockout) (now : ℕ) (ip : Text)
    → ((failure l now ip).0.bearer_ip ≡ l.bearer_ip)
      × ((success l ip).bearer_ip ≡ l.bearer_ip)
      × ((allow l now ip).0.bearer_ip ≡ l.bearer_ip)
      × (record (failure_bearer l now ip).0 { bearer_ip = l.bearer_ip } ≡ l)
      × (record (success_bearer l ip) { bearer_ip = l.bearer_ip } ≡ l)
      × (record (allow_bearer l now ip).0 { bearer_ip = l.bearer_ip } ≡ l)
unfolding failure success allow failure_bearer success_bearer allow_bearer
bearer_separate l now ip = ground arith

-- When the global backoff is between a minute and 15 minutes it is so after a failure too, and the
-- backoff that the failure answers is at most 15 minutes.
pub failure-Bounded :
    (l : Lockout) (now : ℕ) (ip : Text)
    → Bounded l
    → Bounded (failure l now ip).0 × ((failure l now ip).1 ≤ max_lock)
unfolding failure fail_in
failure-Bounded l now ip b =
    ground (arith, lock_for-le ((ensure_in l.per_ip ip now).1.failures + 1))

-- Doubling, step by step up to the cap.
abbrev shifted : ℕ → ℕ
shifted k = min (second * 2 ^ min k 10) max_lock

shifted-suc : (k : ℕ) → (shifted (k + 1) ≡ min (2 * shifted k) max_lock) × (0 < shifted k)
shifted-suc zero = (refl, omega arith)
shifted-suc (suc zero) = (refl, omega arith)
shifted-suc (suc (suc zero)) = (refl, omega arith)
shifted-suc (suc (suc (suc zero))) = (refl, omega arith)
shifted-suc (suc (suc (suc (suc zero)))) = (refl, omega arith)
shifted-suc (suc (suc (suc (suc (suc zero))))) = (refl, omega arith)
shifted-suc (suc (suc (suc (suc (suc (suc zero)))))) = (refl, omega arith)
shifted-suc (suc (suc (suc (suc (suc (suc (suc zero))))))) = (refl, omega arith)
shifted-suc (suc (suc (suc (suc (suc (suc (suc (suc zero)))))))) = (refl, omega arith)
shifted-suc (suc (suc (suc (suc (suc (suc (suc (suc (suc zero))))))))) = (refl, omega arith)
shifted-suc (suc (suc (suc (suc (suc (suc (suc (suc (suc (suc k)))))))))) =
    let n : ℕ = suc (suc (suc (suc (suc (suc (suc (suc (suc (suc k))))))))) in
    let full : min n 10 ≡ 10 = omega arith in
    let more : min (n + 1) 10 ≡ 10 = omega arith in rw (full, more) (refl, omega arith)

lock_for_over : (n : ℕ) → 5 < n → lock_for n ≡ shifted (n - 5)
unfolding lock_for
lock_for_over n h = ground arith

lock_for_free : (n : ℕ) → n ≤ 5 → lock_for n ≡ 0
unfolding lock_for
lock_for_free n h = ground arith

lock_for_later : (n : ℕ) → 6 < n → lock_for n ≡ min (2 * lock_for (n - 1)) max_lock
lock_for_later n h =
    let e : n - 5 ≡ n - 1 - 5 + 1 = omega arith in
    rw (lock_for_over n (omega arith))
      (rw (lock_for_over (n - 1) (omega arith)) (rw e (shifted-suc (n - 1 - 5)).0))

-- The schedule of one address: the first five failures lock for nothing, the sixth for 2 seconds, and
-- each later one for twice as long as the one before, up to 15 minutes.
pub lock_for_schedule :
    (n : ℕ)
    → ((n ≤ 5) × (lock_for n ≡ 0))
      ⊎ ((n ≡ 6) × (lock_for n ≡ 2 * second))
      ⊎ ((6 < n) × (lock_for n ≡ min (2 * lock_for (n - 1)) max_lock))
lock_for_schedule n = elim (dec_le n 5) [
  | yes free ↦ inl (free, lock_for_free n free)
  | no over ↦ elim (dec_le n 6) [
    | yes six ↦ let e : n ≡ 6 = omega arith in inr (inl (e, rw e (unfold lock_for in refl)))
    | no later ↦ inr (inr (omega arith, lock_for_later n (omega arith)))
  ]
]
