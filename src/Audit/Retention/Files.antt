-- ===== src/Audit/Retention/Files.antt =====
-- The files of the audit log under a write and under a rotation (internal/auditlog/stream.go).
use mathlib.Core.List.{append-nil, append_assoc}
use morpheus_uplink.Base.{
  ℕ, zero, suc, ◌≤◌, ◌<◌, ◌≡◌, ◌≢◌, refl, sym, ◌∙◌, ap, Option, none, some, [], ◌∷◌, ◌++◌, arith,
  Text, length, dec_lt,
}
use morpheus_uplink.Audit.{Disk, File, put, moved, shift, take, extended}

abbrev pub content_of : Option File → Text
content_of none = []
content_of (some f) = f.content

-- What the files below `n` hold, the oldest first.
unfoldable pub held : ℕ → Disk → Text
held zero d = []
held (suc n) d = content_of (d n) ++ held n d

pub put_self : (d : Disk) (i : ℕ) (o : Option File) → put d i o i ≡ o
unfolding put
put_self d i o = ground arith

pub put-other : (d : Disk) (i j : ℕ) (o : Option File) → j ≢ i → put d i o j ≡ d j
unfolding put
put-other d i j o ne = ground arith

moved_lem :
    (o : Option File) (d : Disk) (i : ℕ)
    → d i ≡ o
    → d (suc i) ≡ none
    → (moved o d i i ≡ none)
      × (moved o d i (suc i) ≡ o)
      × ((j : ℕ) → j ≢ i → j ≢ suc i → moved o d i j ≡ d j)
unfolding moved put
moved_lem none d i e f = (e, f, λ j a b. refl)
moved_lem (some g) d i e f = (ground arith, ground arith, λ j a b. ground arith)

pub shift_lem :
    (n : ℕ) (d : Disk)
    → d n ≡ none
    → (shift n d 0 ≡ none)
      × ((i : ℕ) → i < n → shift n d (suc i) ≡ d i)
      × ((i : ℕ) → n < i → shift n d i ≡ d i)
unfolding shift
shift_lem zero d e = (e, λ i lt. absurd (omega arith), λ i lt. refl)
shift_lem (suc n) d e =
    let m = moved_lem (d n) d n refl e in
    let r = shift_lem n (moved (d n) d n) m.0 in
    (
      r.0,
      λ i lt. elim (dec_lt i n) [
        | yes low ↦ r.1 i low ∙ m.2 i (λ c. omega arith) (λ c. omega arith)
        | no top ↦
            r.2 (suc i) (omega arith)
            ∙ ap (λ j. moved (d n) d n (suc j)) (omega arith)
            ∙ m.1
            ∙ ap d (omega arith)
      ],
      λ i lt. r.2 i (omega arith) ∙ m.2 i (λ c. omega arith) (λ c. omega arith),
    )

pub held_same : (n : ℕ) (d e : Disk) → ((i : ℕ) → i < n → e i ≡ d i) → held n e ≡ held n d
unfolding held
held_same zero d e h = refl
held_same (suc n) d e h = rw (h n (omega arith), held_same n d e (λ i lt. h i (omega arith))) refl

pub held_later :
    (n : ℕ) (d e : Disk)
    → content_of (e 0) ≡ []
    → ((i : ℕ) → i < n → e (suc i) ≡ d i)
    → held (suc n) e ≡ held n d
unfolding held
held_later zero d e z h = rw z refl
held_later (suc n) d e z h =
    rw (h n (omega arith))
      (ap (λ t. content_of (d n) ++ t) (held_later n d e z (λ i lt. h i (omega arith))))

held_extended :
    (n : ℕ) (d : Disk) (f : File) (more : Text) (now : ℕ)
    → d 0 ≡ some f
    → held (suc n) (put d 0 (extended (d 0) more now)) ≡ held (suc n) d ++ more
unfolding held extended
held_extended zero d f more now e =
    rw (put_self d 0 (extended (d 0) more now), e) (simp append-nil refl)
held_extended (suc n) d f more now e =
    rw (put-other d 0 (suc n) (extended (d 0) more now) (λ c. omega arith)) (
      ap (λ t. content_of (d (suc n)) ++ t) (held_extended n d f more now e)
      ∙ sym (append_assoc (content_of (d (suc n))) (held (suc n) d) more))

pub held-put :
    (n : ℕ) (d : Disk) (f : File) (more : Text) (now : ℕ)
    → 0 < n
    → d 0 ≡ some f
    → held n (put d 0 (extended (d 0) more now)) ≡ held n d ++ more
held-put zero d f more now pos e = absurd (omega arith)
held-put (suc n) d f more now pos e = held_extended n d f more now e

pub held-empty : (n : ℕ) (d : Disk) → ((i : ℕ) → content_of (d i) ≡ []) → held n d ≡ []
unfolding held
held-empty zero d h = refl
held-empty (suc n) d h = rw (h n) (held-empty n d h)

pub held-none : (n : ℕ) (d : Disk) → d n ≡ none → held (suc n) d ≡ held n d
unfolding held
held-none n d e = rw e refl

pub held-suc : (n : ℕ) (d : Disk) → held (suc n) d ≡ content_of (d n) ++ held n d
unfolding held
held-suc n d = refl

pub length-take : (n : ℕ) (s : Text) → n ≤ length s → length (take n s) ≡ n
length-take zero s le = refl
length-take (suc n) [] le = absurd (omega arith)
length-take (suc n) (c ∷ s) le = omega (arith, length-take n s (omega arith))
