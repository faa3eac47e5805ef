-- ===== src/Adminauth/Sessions.antt =====
-- The admin sessions (internal/adminauth/session.go). The store maps the hash of a cookie's token to
-- its session. `hash_raw` stands for hex decoding and SHA-256: it has no value for what is no token of
-- 32 bytes. Times are in nanoseconds, and 0 is the zero time. Cookies are left out.
mod Laws
mod Tests
use morpheus_uplink.Base.{
  ℕ, ◌+◌, ◌-◌, ◌*◌, Bool, true, false, ◌&&◌, ◌||◌, Option, none, some, List, [], ◌∷◌, Text, same,
  ltb, leb, if◌then◌else◌, length, keep, not, Map, lookup, insert, delete, zero, suc,
}
use morpheus_uplink.Adminauth.Lockout.{hour}

abbrev pub session_absolute : ℕ
session_absolute = 12 * hour

abbrev pub session_idle : ℕ
session_idle = 4 * hour

abbrev pub max_sessions : ℕ
max_sessions = 10

pub record Session : Type 0 where
  pub created_at : ℕ
  pub last_seen : ℕ
  pub ip : Text
  pub step_up_at : ℕ

abbrev pub Store : Type 0
Store = Map Session

-- Whether the session logged in or stepped up within `max_age`.
pub is_fresh : Session → ℕ → ℕ → Bool
is_fresh s now max_age =
    leb now ((if ltb s.created_at s.step_up_at then s.step_up_at else s.created_at) + max_age)

-- The hash of the session created first, the first of the map's order among equals.
older : Text × Session → Option (Text × Session) → Text × Session
older r none = r
older (h, s) (some (h', s')) = if ltb s'.created_at s.created_at then (h', s') else (h, s)

pub oldest : Store → Option (Text × Session)
unfolding older
oldest [] = none
oldest (r ∷ m) = some (older r (oldest m))

drop_oldest : Option (Text × Session) → Store → Store
drop_oldest none m = m
drop_oldest (some (h, s)) m = delete h m

-- `for len(s.byHash) >= MaxSessions`, with fuel: each round drops a session.
pub evict : ℕ → Store → Store
unfolding oldest drop_oldest
evict zero m = m
evict (suc fuel) m =
    let rest = evict fuel (drop_oldest (oldest m) m) in
    if leb max_sessions (length m) then rest else m

-- `hash` is that of the new random token.
pub create : Store → ℕ → Text → Text → Store
unfolding evict
create m now hash ip =
    insert hash (record { created_at = now; last_seen = now; ip = ip; step_up_at = 0 })
      (evict (length m) m)

look_state : Option Session → Store → ℕ → Bool → Text → Store × Option Session
look_state none m now extend_idle hash = (m, none)
look_state (some s) m now extend_idle hash =
    let seen : Session = if extend_idle then record s { last_seen = now } else s in
    if ltb (s.created_at + session_absolute) now
    then (delete hash m, none)
    else if ltb (s.last_seen + session_idle) now
    then (delete hash m, none)
    else (insert hash seen m, some seen)

stamp_state : Option Session → Store → ℕ → Text → Store × Option ℕ
stamp_state none m now hash = (m, none)
stamp_state (some s) m now hash = (insert hash (record s { step_up_at = now }) m, some now)

observe_state : Option Session → Store → Text → Text → Store × Option Text
observe_state none m ip hash = (m, none)
observe_state (some s) m ip hash =
    if same s.ip ip then (m, none) else (insert hash (record s { ip = ip }) m, some s.ip)

with_hash {ℓ} : {A : Type ℓ} → Option Text → Store → (Text → Store × Option A) → Store × Option A
with_hash none m f = (m, none)
with_hash (some hash) m f = f hash

module _ (hash_raw : Text → Option Text) where
  pub look_up : Store → ℕ → Text → Bool → Store × Option Session
  unfolding with_hash look_state
  look_up m now raw extend_idle =
      with_hash (hash_raw raw) m λ hash. look_state (lookup hash m) m now extend_idle hash

  pub stamp_step_up : Store → ℕ → Text → Store × Option ℕ
  unfolding with_hash stamp_state
  stamp_step_up m now raw =
      with_hash (hash_raw raw) m λ hash. stamp_state (lookup hash m) m now hash

  -- The previous address, when it changed.
  pub observe_ip : Store → Text → Text → Store × Option Text
  unfolding with_hash observe_state
  observe_ip m raw ip =
      if same ip []
      then (m, none)
      else with_hash (hash_raw raw) m λ hash. observe_state (lookup hash m) m ip hash

  revoke_except : Option Text → Store → Store
  revoke_except none m = keep (λ r. same r.0 []) m
  revoke_except (some hash) m = keep (λ r. same r.0 hash) m

  -- The store with the one session kept, and how many were revoked.
  pub revoke_all_except : Store → Text → Store × ℕ
  unfolding revoke_except
  revoke_all_except m raw =
      let kept : Store = revoke_except (hash_raw raw) m in (kept, length m - length kept)

pub revoke_all : Store → Store × ℕ
revoke_all m = ([], length m)
