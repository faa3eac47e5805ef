-- ===== src/Store/Keys.antt =====
-- API keys (internal/store/store.go: AddKey, RevokeKey, LookupKey, ListKeys;
-- internal/keymaker/keymaker.go: NewKey, ImportKey). The SHA-256 hex digest is an argument, and so are
-- the random bytes of a new key, in hex.
mod Laws
mod Tests
use morpheus_uplink.Base.{
  ℕ, zero, suc, ◌+◌, Bool, true, false, ◌&&◌, ◌||◌, not, Option, none, some, List, [], ◌∷◌, ◌++◌,
  Text, same, codes, if◌then◌else◌, length, ltb, leb, ◌==◌, has_prefix, is_some, trim_space,
}

pub record KeyRecord : Type 0 where
  pub id : Text
  pub name : Text
  pub prefix : Text
  pub hash : Text
  pub secret : Text
  pub created_at : ℕ
  pub revoked_at : Option ℕ

abbrev pub master_key_id : Text
master_key_id = codes "master"

abbrev pub prompt_key_id : Text
prompt_key_id = codes "prompt"

pub data AddAnswer : Type 0 where
  added already_registered id_exists save_failed : AddAnswer

-- Why a record is refused, by the first stored key that it clashes with.
pub clash : KeyRecord → List KeyRecord → Option AddAnswer
clash rec [] = none
clash rec (k ∷ ks) =
    let rest = clash rec ks in
    if same k.hash rec.hash
    then some already_registered
    else if same k.id rec.id
    then some id_exists
    else rest

add_unless : Option AddAnswer → Bool → KeyRecord → List KeyRecord → List KeyRecord × AddAnswer
add_unless (some why) saved rec keys = (keys, why)
add_unless none saved rec keys = (keys ++ rec ∷ [], if saved then added else save_failed)

-- The new key stays in memory when the write fails.
pub add_key : Bool → KeyRecord → List KeyRecord → List KeyRecord × AddAnswer
unfolding add_unless clash
add_key saved rec keys = add_unless (clash rec keys) saved rec keys

-- `refused` is for the ids of the derived keys, `missing` is the answer false.
pub data RevokeAnswer : Type 0 where
  revoked already_revoked revoke_not_saved missing refused : RevokeAnswer

pub tombstone : ℕ → KeyRecord → KeyRecord
tombstone now k = record k { revoked_at = some now; secret = [] }

found_key : Option ℕ → Bool → ℕ → KeyRecord → KeyRecord × RevokeAnswer
unfolding tombstone
found_key (some t) saved now k = (k, already_revoked)
found_key none saved now k = (tombstone now k, if saved then revoked else revoke_not_saved)

-- The loop over the keys.
pub revoke_from : Bool → ℕ → Text → List KeyRecord → List KeyRecord × RevokeAnswer
unfolding found_key
revoke_from saved now id [] = ([], missing)
revoke_from saved now id (k ∷ ks) =
    let (rest, answer) = revoke_from saved now id ks in
    let (one, its) = found_key k.revoked_at saved now k in
    if not (same k.id id) then (k ∷ rest, answer) else (one ∷ ks, its)

pub revoke_key : Bool → ℕ → Text → List KeyRecord → List KeyRecord × RevokeAnswer
unfolding revoke_from
revoke_key saved now id keys =
    if same id master_key_id || same id prompt_key_id
    then (keys, refused)
    else revoke_from saved now id keys

-- The id of the first key with the digest, empty when there is none or when it is revoked.
pub lookup_hash : Text → List KeyRecord → Text
lookup_hash h [] = []
lookup_hash h (k ∷ ks) =
    let rest = lookup_hash h ks in
    if same k.hash h then (if is_some k.revoked_at then [] else k.id) else rest

pub lookup_key : (Text → Text) → Text → List KeyRecord → Text
unfolding lookup_hash
lookup_key hash full keys = lookup_hash (hash full) keys

pub take : ℕ → Text → Text
take zero s = []
take (suc n) [] = []
take (suc n) (c ∷ s) = c ∷ take n s

-- The record of a key that is made from random bytes, and the key itself.
pub new_key : (Text → Text) → Text → Text → Text → ℕ → Text × KeyRecord
unfolding take
new_key hash name id_hex secret_hex now =
    let full : Text = codes "sk-" ++ id_hex ++ codes "." ++ secret_hex in
    (
      full,
      record {
        id = id_hex;
        name = name;
        prefix = take 12 full;
        hash = hash full;
        secret = full;
        created_at = now;
        revoked_at = none;
      },
    )

-- The text before the first dot, when there is one.
pub before_dot : Text → Option Text
before_dot [] = none
before_dot (c ∷ s) =
    let rest = before_dot s in
    if c == b'.' then some [] else elim rest [ none ↦ none | some t ↦ some (c ∷ t) ]

abbrev id_or : Option Text → Text → Text
id_or none other = other
id_or (some t) other = if ltb 0 (length t) && leb (length t) 16 then t else other

abbrev after_sk : Text → Text
after_sk (a ∷ b ∷ c ∷ rest) = rest
after_sk s = s

-- `none` is the error for a text that does not look like a key.
pub import_key : (Text → Text) → Text → Text → ℕ → Option KeyRecord
unfolding take before_dot
import_key hash name given now =
    let full : Text = trim_space given in
    if not (has_prefix full (codes "sk-")) || ltb (length full) 16
    then none
    else some (record {
      id = id_or (before_dot (after_sk full)) (take 8 (hash full));
      name = name;
      prefix = take 12 full;
      hash = hash full;
      secret = full;
      created_at = now;
      revoked_at = none;
    })

-- One call that changes the keys.
pub data KeyEvent : Type 0 where
  adds : Bool → KeyRecord → KeyEvent
  revokes : Bool → ℕ → Text → KeyEvent

pub step : KeyEvent → List KeyRecord → List KeyRecord
unfolding add_key revoke_key
step (adds saved rec) keys = (add_key saved rec keys).0
step (revokes saved now id) keys = (revoke_key saved now id keys).0

pub run : List KeyEvent → List KeyRecord → List KeyRecord
unfolding step
run [] keys = keys
run (e ∷ es) keys = run es (step e keys)
