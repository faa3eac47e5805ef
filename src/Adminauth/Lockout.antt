-- ===== src/Adminauth/Lockout.antt =====
-- Failure backoff of the admin login (internal/adminauth/lockout.go). Times and durations are in
-- nanoseconds, and 0 is the zero time. Finding the client's address (ClientIP) is left out.
mod Laws
mod Tests
use morpheus_uplink.Base.{
  ℕ, ◌+◌, ◌-◌, ◌*◌, ◌^◌, Bool, true, false, ◌&&◌, ◌||◌, Option, none, some, List, [], ◌∷◌, ◌++◌,
  Text, ltb, leb, ◌==◌, if◌then◌else◌, is_some, length, keep, not, Map, lookup, insert, delete, min,
}
use morpheus_uplink.Pool.Slot.{second}

abbrev pub minute : ℕ
minute = 60 * second

abbrev pub hour : ℕ
hour = 3600 * second

abbrev pub max_tracked_ips : ℕ
max_tracked_ips = 10000

pub record IpState : Type 0 where
  pub failures : ℕ
  pub locked_until : ℕ
  pub last_fail : ℕ

pub record Lockout : Type 0 where
  pub per_ip : Map IpState
  pub bearer_ip : Map IpState
  pub global : List ℕ
  pub global_until : ℕ
  pub global_backoff : ℕ
  pub global_last_trip : ℕ

pub new_lockout : Lockout
new_lockout = record {
  per_ip = [];
  bearer_ip = [];
  global = [];
  global_until = 0;
  global_backoff = minute;
  global_last_trip = 0;
}

-- An hour without a failure, and no lock.
pub is_clean : IpState → ℕ → Bool
is_clean st now = ltb 0 st.failures && leb (st.last_fail + hour) now && ltb st.locked_until now

-- The answer for one address: the map after it, whether it may try, and the time to wait.
allow_state : Option IpState → Map IpState → ℕ → Text → Map IpState × Bool × ℕ
unfolding is_clean
allow_state none m now ip = (m, true, 0)
allow_state (some st) m now ip =
    if is_clean st now
    then (delete ip m, true, 0)
    else if ltb now st.locked_until
    then (m, false, st.locked_until - now)
    else (m, true, 0)

unfoldable pub allow : Lockout → ℕ → Text → Lockout × Bool × ℕ
unfolding allow_state
allow l now ip =
    if ltb now l.global_until
    then (l, false, l.global_until - now)
    else let (m, ok, wait) = allow_state (lookup ip l.per_ip) l.per_ip now ip in
      (record l { per_ip = m }, ok, wait)

pub success : Lockout → Text → Lockout
success l ip = record l { per_ip = delete ip l.per_ip }

-- The loop of `evictOne` over the map, in the order of the list: the key to drop.
pub evict_scan : Map IpState → ℕ → ℕ → Option Text → Option Text
evict_scan [] now i unlocked = unlocked
evict_scan ((k, v) ∷ m) now i unlocked =
    let next : Option Text =
      if ltb v.locked_until now && not (is_some unlocked) then some k else unlocked in
    let rest = evict_scan m now (i + 1) next in
    if ltb v.locked_until now && (v.failures == 0 || leb (v.last_fail + hour) now)
    then some k
    else if leb 64 (i + 1) && is_some next
    then next
    else rest

evict_key : Option Text → Map IpState → Map IpState
evict_key none m = m
evict_key (some k) m = delete k m

pub evict_one : Map IpState → ℕ → Map IpState
unfolding evict_scan evict_key
evict_one m now = evict_key (evict_scan m now 0 none) m

ensure_state : Option IpState → Map IpState → ℕ → Text → Map IpState × IpState
unfolding evict_one is_clean
ensure_state none m now ip =
    let st : IpState = record { failures = 0; locked_until = 0; last_fail = 0 } in
    (insert ip st (if leb max_tracked_ips (length m) then evict_one m now else m), st)
ensure_state (some st) m now ip =
    let st' : IpState = record st { failures = 0; locked_until = 0 } in
    if is_clean st now then (insert ip st' m, st') else (m, st)

pub ensure_in : Map IpState → Text → ℕ → Map IpState × IpState
unfolding ensure_state
ensure_in m ip now = ensure_state (lookup ip m) m now ip

abbrev pub max_lock : ℕ
max_lock = 15 * minute

-- 0 for the first five failures, then 2^(n-5) seconds, at most 15 minutes.
pub lock_for : ℕ → ℕ
lock_for failures = if leb failures 5 then 0 else min (second * 2 ^ min (failures - 5) 10) max_lock

-- What Failure and FailureBearer do to one address's map.
pub fail_in : Map IpState → Text → ℕ → Map IpState × ℕ
unfolding ensure_in
fail_in m ip now =
    let (m', st) = ensure_in m ip now in
    let d : ℕ = lock_for (st.failures + 1) in
    (
      insert ip
          (record {
            failures = st.failures + 1;
            locked_until = if leb (st.failures + 1) 5 then st.locked_until else now + d;
            last_fail = now;
          })
          m',
      d,
    )

-- The recent failures with this one, and the backoff after a clean hour.
pub record_global : Lockout → ℕ → Lockout
record_global l now =
    let decayed : Bool = not (l.global_last_trip == 0) && leb (l.global_last_trip + hour) now in
    record l {
      global = keep (λ t. ltb now (t + 15 * minute)) l.global ++ now ∷ [];
      global_backoff = if decayed then minute else l.global_backoff;
      global_last_trip = if decayed then 0 else l.global_last_trip;
    }

count_failure : Map IpState → Text → ℕ → Map IpState
unfolding ensure_in
count_failure m ip now =
    let (m', st) = ensure_in m ip now in
    insert ip (record st { failures = st.failures + 1; last_fail = now }) m'

-- The global trip: its backoff starts at a minute and doubles up to 15.
trip : Lockout → ℕ → Text → Lockout × ℕ
unfolding count_failure
trip l now ip =
    let d : ℕ = if ltb l.global_backoff minute then minute else l.global_backoff in
    (
      record l {
        global_until = now + d;
        global_last_trip = now;
        global_backoff = if ltb d max_lock then min (d * 2) max_lock else d;
        per_ip = count_failure l.per_ip ip now;
      },
      d,
    )

fail_ip : Lockout → ℕ → Text → Lockout × ℕ
unfolding fail_in
fail_ip l now ip = let (m, d) = fail_in l.per_ip ip now in (record l { per_ip = m }, d)

pub failure : Lockout → ℕ → Text → Lockout × ℕ
unfolding record_global trip fail_ip
failure l now ip =
    let r = record_global l now in
    if ltb 20 (length r.global) then trip r now ip else fail_ip r now ip

-- The break-glass reset keeps the time of the last global trip.
pub reset : Lockout → Lockout
reset l = record l {
  per_ip = [];
  bearer_ip = [];
  global = [];
  global_until = 0;
  global_backoff = minute;
}

unfoldable pub allow_bearer : Lockout → ℕ → Text → Lockout × Bool × ℕ
unfolding allow_state
allow_bearer l now ip =
    let (m, ok, wait) = allow_state (lookup ip l.bearer_ip) l.bearer_ip now ip in
    (record l { bearer_ip = m }, ok, wait)

pub failure_bearer : Lockout → ℕ → Text → Lockout × ℕ
unfolding fail_in
failure_bearer l now ip = let (m, d) = fail_in l.bearer_ip ip now in (record l { bearer_ip = m }, d)

pub success_bearer : Lockout → Text → Lockout
success_bearer l ip = record l { bearer_ip = delete ip l.bearer_ip }

pub global_locked : Lockout → ℕ → Bool
global_locked l now = ltb now l.global_until
