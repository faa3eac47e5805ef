-- ===== src/Store/Keys/Laws.antt =====
-- A revoked key stays revoked (internal/store/store.go: AddKey, RevokeKey, LookupKey).
use morpheus_uplink.Base.{
  ℕ, ◌≡◌, ◌≢◌, refl, ◌∙◌, sym, subst, Bool, true, false, ◌||◌, Option, none, some, List, [], ◌∷◌,
  ◌++◌, Text, same, any, All, is_some, arith, Bool-cases, inl, inr,
}
use morpheus_uplink.Store.Keys.{
  KeyRecord, AddAnswer, clash, add_unless, add_key, missing, refused, found_key, tombstone,
  revoke_from, revoke_key, lookup_hash, lookup_key, KeyEvent, adds, revokes, step, run,
  master_key_id, prompt_key_id,
}

abbrev has_id : Text → List KeyRecord → Bool
has_id id = any λ (k : KeyRecord). same k.id id

abbrev Dead : Text → KeyRecord → Type 0
Dead id k = same k.id id ≡ true → is_some k.revoked_at ≡ true

-- The id is taken, and every record with it is revoked.
abbrev Gone : Text → List KeyRecord → Type 0
Gone id keys = (has_id id keys ≡ true) × All (Dead id) keys

abbrev Once : List KeyRecord → Type 0
Once [] = Unit
Once (k ∷ ks) = (has_id k.id ks ≡ false) × Once ks

clash-has_id :
    (rec : KeyRecord) (keys : List KeyRecord) → clash rec keys ≡ none → has_id rec.id keys ≡ false
unfolding clash
clash-has_id rec [] h = refl
clash-has_id rec (k ∷ ks) h = ground (arith, h, clash-has_id rec ks)

has_id-append :
    (id : Text) (keys : List KeyRecord) (rec : KeyRecord)
    → has_id id (keys ++ rec ∷ []) ≡ (has_id id keys || same rec.id id)
has_id-append id [] rec = ground arith
has_id-append id (k ∷ ks) rec = ground (arith, has_id-append id ks rec)

Dead-append :
    (id : Text) (keys : List KeyRecord) (rec : KeyRecord)
    → same rec.id id ≡ false
    → All (Dead id) keys
    → All (Dead id) (keys ++ rec ∷ [])
Dead-append id [] rec other dead = (λ e. absurd (ground (arith, e, other)), tt)
Dead-append id (k ∷ ks) rec other (d, dead) = (d, Dead-append id ks rec other dead)

Once-append :
    (keys : List KeyRecord) (rec : KeyRecord)
    → has_id rec.id keys ≡ false
    → Once keys
    → Once (keys ++ rec ∷ [])
Once-append [] rec new once = (refl, tt)
Once-append (k ∷ ks) rec new (first, once) = (
  has_id-append k.id ks rec ∙ ground (arith, new, first),
  Once-append ks rec (ground (arith, new)) once,
)

same-eq : (a b : Text) → same a b ≡ true → a ≡ b
same-eq a b h = ground (arith, h)

other_id :
    (a id : Text) (keys : List KeyRecord)
    → has_id a keys ≡ false
    → has_id id keys ≡ true
    → same a id ≡ false
other_id a id keys new there = elim (Bool-cases (same a id)) [
  | inr other ↦ other
  | inl eq ↦
      absurd (ground (arith, new, subst (λ t. has_id t keys ≡ true) (sym (same-eq a id eq)) there))
]

add_unless-Gone :
    (o : Option AddAnswer) (saved : Bool) (rec : KeyRecord) (id : Text) (keys : List KeyRecord)
    → (o ≡ none → has_id rec.id keys ≡ false)
    → Gone id keys
    → Gone id (add_unless o saved rec keys).0
unfolding add_unless
add_unless-Gone (some why) saved rec id keys new g = g
add_unless-Gone none saved rec id keys new (there, dead) = (
  has_id-append id keys rec ∙ ground (arith, there),
  Dead-append id keys rec (other_id rec.id id keys (new refl) there) dead,
)

add_unless-Once :
    (o : Option AddAnswer) (saved : Bool) (rec : KeyRecord) (keys : List KeyRecord)
    → (o ≡ none → has_id rec.id keys ≡ false)
    → Once keys
    → Once (add_unless o saved rec keys).0
unfolding add_unless
add_unless-Once (some why) saved rec keys new once = once
add_unless-Once none saved rec keys new once = Once-append keys rec (new refl) once

found_key-same :
    (o : Option ℕ) (saved : Bool) (now : ℕ) (k : KeyRecord)
    → k.revoked_at ≡ o
    → let q = (found_key o saved now k).0 in (q.id ≡ k.id) × (is_some q.revoked_at ≡ true)
unfolding found_key tombstone
found_key-same (some t) saved now k e = (refl, rw e refl)
found_key-same none saved now k e = (refl, refl)

revoke_from-has_id :
    (saved : Bool) (now : ℕ) (id j : Text) (keys : List KeyRecord)
    → has_id j (revoke_from saved now id keys).0 ≡ has_id j keys
unfolding revoke_from
revoke_from-has_id saved now id j [] = refl
revoke_from-has_id saved now id j (k ∷ ks) =
    let f = found_key-same k.revoked_at saved now k refl in
    elim (Bool-cases (same k.id id)) [
      | inl its ↦ rw its (rw f.0 refl)
      | inr other ↦ rw other (rw (revoke_from-has_id saved now id j ks) refl)
    ]

revoke_from-Once :
    (saved : Bool) (now : ℕ) (id : Text) (keys : List KeyRecord)
    → Once keys
    → Once (revoke_from saved now id keys).0
unfolding revoke_from
revoke_from-Once saved now id [] once = tt
revoke_from-Once saved now id (k ∷ ks) (first, once) =
    let f = found_key-same k.revoked_at saved now k refl in
    elim (Bool-cases (same k.id id)) [
      | inl its ↦ rw its (rw f.0 first, once)
      | inr other ↦
          rw other
            (revoke_from-has_id saved now id k.id ks ∙ first, revoke_from-Once saved now id ks once)
    ]

revoke_from-Dead :
    (saved : Bool) (now : ℕ) (id j : Text) (keys : List KeyRecord)
    → All (Dead j) keys
    → All (Dead j) (revoke_from saved now id keys).0
unfolding revoke_from
revoke_from-Dead saved now id j [] dead = tt
revoke_from-Dead saved now id j (k ∷ ks) (d, dead) =
    let f = found_key-same k.revoked_at saved now k refl in
    elim (Bool-cases (same k.id id)) [
      | inl its ↦ rw its (λ e. f.1, dead)
      | inr other ↦ rw other (d, revoke_from-Dead saved now id j ks dead)
    ]

revoke_key-Once :
    (saved : Bool) (now : ℕ) (id : Text) (keys : List KeyRecord)
    → Once keys
    → Once (revoke_key saved now id keys).0
unfolding revoke_key
revoke_key-Once saved now id keys once =
    elim (Bool-cases (same id master_key_id || same id prompt_key_id)) [
      | inl derived ↦ rw derived once
      | inr own ↦ rw own (revoke_from-Once saved now id keys once)
    ]

revoke_key-Gone :
    (saved : Bool) (now : ℕ) (j id : Text) (keys : List KeyRecord)
    → Gone id keys
    → Gone id (revoke_key saved now j keys).0
unfolding revoke_key
revoke_key-Gone saved now j id keys (there, dead) =
    elim (Bool-cases (same j master_key_id || same j prompt_key_id)) [
      | inl derived ↦ rw derived (there, dead)
      | inr own ↦ rw own (
        revoke_from-has_id saved now j id keys ∙ there,
        revoke_from-Dead saved now j id keys dead,
      )
    ]

step-Once : (e : KeyEvent) (keys : List KeyRecord) → Once keys → Once (step e keys)
unfolding step add_key
step-Once (adds saved rec) keys once =
    add_unless-Once (clash rec keys) saved rec keys (clash-has_id rec keys) once
step-Once (revokes saved now id) keys once = revoke_key-Once saved now id keys once

step-Gone :
    (e : KeyEvent) (id : Text) (keys : List KeyRecord) → Gone id keys → Gone id (step e keys)
unfolding step add_key
step-Gone (adds saved rec) id keys g =
    add_unless-Gone (clash rec keys) saved rec id keys (clash-has_id rec keys) g
step-Gone (revokes saved now j) id keys g = revoke_key-Gone saved now j id keys g

run-Once : (es : List KeyEvent) (keys : List KeyRecord) → Once keys → Once (run es keys)
unfolding run
run-Once [] keys once = once
run-Once (e ∷ es) keys once = run-Once es (step e keys) (step-Once e keys once)

run-Gone :
    (es : List KeyEvent) (id : Text) (keys : List KeyRecord) → Gone id keys → Gone id (run es keys)
unfolding run
run-Gone [] id keys g = g
run-Gone (e ∷ es) id keys g = run-Gone es id (step e keys) (step-Gone e id keys g)

no_id-Dead : (id : Text) (keys : List KeyRecord) → has_id id keys ≡ false → All (Dead id) keys
no_id-Dead id [] h = tt
no_id-Dead id (k ∷ ks) h =
    (λ e. absurd (ground (arith, e, h)), no_id-Dead id ks (ground (arith, h)))

-- The first record with the id is revoked, and there is no other.
revoke_from-Gone :
    (saved : Bool) (now : ℕ) (id : Text) (keys : List KeyRecord)
    → Once keys
    → (revoke_from saved now id keys).1 ≢ missing
    → Gone id (revoke_from saved now id keys).0
unfolding revoke_from
revoke_from-Gone saved now id [] once found = absurd (found refl)
revoke_from-Gone saved now id (k ∷ ks) (first, once) found =
    let f = found_key-same k.revoked_at saved now k refl in
    elim (Bool-cases (same k.id id)) [
      | inl its ↦ rw its (
        rw (f.0, its) refl,
        (λ e. f.1, no_id-Dead id ks (subst (λ t. has_id t ks ≡ false) (same-eq k.id id its) first)),
      )
      | inr other ↦
          let g = revoke_from-Gone saved now id ks once (rw other at found) in
          rw other (ground (arith, other, g.0), (λ e. absurd (ground (arith, e, other)), g.1))
    ]

-- No lookup answers an id that is gone.
lookup_hash-Gone :
    (h id : Text) (keys : List KeyRecord) → id ≢ [] → All (Dead id) keys → lookup_hash h keys ≢ id
unfolding lookup_hash
lookup_hash-Gone h id [] named dead e = named (sym e)
lookup_hash-Gone h id (k ∷ ks) named (d, dead) e = elim (Bool-cases (same k.hash h)) [
  | inr other ↦ lookup_hash-Gone h id ks named dead (rw other at e)
  | inl its ↦ elim (Bool-cases (is_some k.revoked_at)) [
    | inl revoked ↦ named (sym (rw (its, revoked) at e))
    | inr active ↦ ground (arith, d (ground (arith, (rw (its, active) at e))), active)
  ]
]

-- Once a revocation found its key, no lookup ever answers the key's id again, whatever keys are added
-- and revoked afterwards and whether the writes work. The keys before it come from a run that began
-- with none, and the id is not empty.
pub run-revoked :
    (hash : Text → Text) (full id : Text) (before after : List KeyEvent) (saved : Bool) (now : ℕ)
    → id ≢ []
    → let r = revoke_key saved now id (run before []) in
      r.1 ≢ missing → r.1 ≢ refused → lookup_key hash full (run after r.0) ≢ id
unfolding lookup_key revoke_key
run-revoked hash full id before after saved now named found allowed =
    let keys : List KeyRecord = run before [] in
    let once = run-Once before [] tt in
    elim (Bool-cases (same id master_key_id || same id prompt_key_id)) [
      | inl derived ↦ absurd (allowed (rw derived refl))
      | inr own ↦
          let g = revoke_from-Gone saved now id keys once (rw own at found) in
          rw own (lookup_hash-Gone (hash full) id _ named (run-Gone after id _ g).1)
    ]
