-- ===== src/Adminauth/Sessions/Laws.antt =====
-- What the session store guarantees (internal/adminauth/session.go).
use morpheus_uplink.Base.{
  ℕ, ◌+◌, ◌≤◌, ◌<◌, ◌≡◌, refl, ◌⊎◌, inl, inr, Bool, Option, none, some, [], ◌∷◌, arith, Text, Map,
  lookup, delete, lookup-insert, lookup-insert_self, lookup-delete, Bool-cases, leb, length,
  length-delete-le, length-insert-le, zero, suc, if◌then◌else◌, dec_text,
}
use morpheus_uplink.Adminauth.Sessions.{
  Session, Store, session_absolute, session_idle, max_sessions, oldest, older, drop_oldest, evict,
  create, look_state, with_hash, look_up,
}

-- Deleting a key that is there makes the map shorter.
length-delete-lt :
    {V : Type 0} (k : Text) (v : V) (m : Map V)
    → lookup k m ≡ some v
    → length (delete k m) < length m
unfolding lookup delete
length-delete-lt k v [] h = absurd (ground arith)
length-delete-lt k v ((j, w) ∷ m) h = ground (arith, length-delete-lt k v m, length-delete-le k m)

older-mem :
    (h : Text) (s : Session) (m : Store) (o : Option (Text × Session))
    → ((k : Text) (t : Session) → o ≡ some (k, t) → length (delete k m) < length m)
    → length (delete (older (h, s) o).0 ((h, s) ∷ m)) ≤ length m
unfolding older delete
older-mem h s m none ih = ground (arith, length-delete-le h m)
older-mem h s m (some (k, t)) ih = ground (arith, length-delete-le h m, ih k t refl)

oldest-lt :
    (m : Store) (k : Text) (t : Session) → oldest m ≡ some (k, t) → length (delete k m) < length m
unfolding oldest
oldest-lt [] k t e = absurd (ground arith)
oldest-lt ((h, s) ∷ m) k t e = ground (arith, older-mem h s m (oldest m) (oldest-lt m))

drop_oldest-lt : (m : Store) → 0 < length m → length (drop_oldest (oldest m) m) < length m
unfolding drop_oldest oldest
drop_oldest-lt [] pos = elim pos [ ]
drop_oldest-lt ((h, s) ∷ m) pos =
    oldest-lt ((h, s) ∷ m) (older (h, s) (oldest m)).0 (older (h, s) (oldest m)).1 refl

evict_room : (fuel : ℕ) (m : Store) → length m ≤ fuel → length (evict fuel m) < max_sessions
unfolding evict
evict_room zero m h = omega arith
evict_room (suc fuel) m h = elim (Bool-cases (leb max_sessions (length m))) [
  | inr room ↦ rw room (ground arith)
  | inl full ↦
      rw full (
        evict_room fuel (drop_oldest (oldest m) m) (omega (arith, drop_oldest-lt m (ground arith))))
]

-- A login never leaves more than `max_sessions` sessions, however many there were, and the new session
-- is there, starting now.
pub create-le :
    (m : Store) (now : ℕ) (hash ip : Text)
    → (length (create m now hash ip) ≤ max_sessions)
      × (lookup hash (create m now hash ip)
          ≡ some (record { created_at = now; last_seen = now; ip = ip; step_up_at = 0 }))
unfolding create
create-le m now hash ip = (
  omega (
    arith,
    evict_room (length m) m (omega arith),
    length-insert-le hash (record { created_at = now; last_seen = now; ip = ip; step_up_at = 0 })
        (evict (length m) m),
  ),
  lookup-insert_self hash _ (evict (length m) m),
)

-- A lookup succeeds exactly for a session that is at most `session_absolute` old and was seen within
-- `session_idle`; one that is not is gone after it. What it answers is what the store holds after it,
-- with the time of this lookup when it extends the idle time, and no other session changes.
pub look_up-IsLive :
    (hash_raw : Text → Option Text) (m : Store) (now : ℕ) (raw hash : Text) (extend_idle : Bool)
    (s : Session) (other : Text)
    → hash_raw raw ≡ some hash
    → lookup hash m ≡ some s
    → let (m', out) = look_up hash_raw m now raw extend_idle in
      (((now ≤ s.created_at + session_absolute)
          × (now ≤ s.last_seen + session_idle)
          × (out ≡ some (if extend_idle then record s { last_seen = now } else s)))
        ⊎ (((s.created_at + session_absolute < now) ⊎ (s.last_seen + session_idle < now))
            × (out ≡ none)))
      × (lookup hash m' ≡ out)
      × ((other ≡ hash) ⊎ (lookup other m' ≡ lookup other m))
unfolding look_up with_hash look_state
look_up-IsLive hash_raw m now raw hash extend_idle s other named found =
    let seen : Session = if extend_idle then record s { last_seen = now } else s in
    rw (named, with_hash, found, look_state)
      (elim (dec_text other hash) [
        | yes e ↦ ground (arith, lookup-insert_self hash seen m, lookup-delete hash hash m)
        | no n ↦ ground (
          arith,
          lookup-insert_self hash seen m,
          lookup-delete hash hash m,
          lookup-insert hash other seen m,
          lookup-delete hash other m,
        )
      ])
