-- ===== src/Base/Decimal.antt =====
-- Numbers in decimal, as `big.Int.String` prints them.
use Prim.Native.Nat.{ℕ, zero, suc, ◌+◌, ◌-◌, ◌*◌, ◌/◌, ◌%◌, ◌≤◌, ◌<◌}
use mathlib.Core.Path.{◌≡◌, refl, ◌∙◌}
use mathlib.Core.Logic.{inl, inr}
use mathlib.Core.Bool.{Bool, true, ◌&&◌}
use mathlib.Core.List.{[], ◌∷◌, ◌++◌}
use native.Mathlib.Omega.{arith}
use morpheus_uplink.Base.Tests.{ltb, leb, if◌then◌else◌, Bool-cases}
use morpheus_uplink.Base.Lists.{length, length-append}
use morpheus_uplink.Base.Texts.{Text}

-- `SetString(s, 10)` of digits, after the digits read so far.
unfoldable pub value : ℕ → Text → ℕ
value n [] = n
value n (c ∷ s) = value (n * 10 + (c - b'0')) s

unfoldable pub all_digits : Text → Bool
all_digits [] = true
all_digits (c ∷ s) = leb b'0' c && leb c b'9' && all_digits s

-- The fuel is above the number of digits.
digits_within : ℕ → ℕ → Text
digits_within zero n = []
digits_within (suc fuel) n =
    let rest = digits_within fuel (n / 10) in
    if ltb n 10 then (b'0' + n) ∷ [] else rest ++ (b'0' + n % 10) ∷ []

unfoldable pub digits : ℕ → Text
unfolding digits_within
digits n = digits_within (suc n) n

pub value-append : (n : ℕ) (s t : Text) → value n (s ++ t) ≡ value (value n s) t
unfolding value
value-append n [] t = refl
value-append n (c ∷ s) t = value-append (n * 10 + (c - b'0')) s t

pub all_digits-append :
    (s t : Text) → all_digits s ≡ true → all_digits t ≡ true → all_digits (s ++ t) ≡ true
unfolding all_digits
all_digits-append [] t hs ht = ht
all_digits-append (c ∷ s) t hs ht =
    ground (arith, hs, all_digits-append s t (ground (arith, hs)) ht)

digits_within-value : (fuel n : ℕ) → n < fuel → value 0 (digits_within fuel n) ≡ n
unfolding digits_within value
digits_within-value zero n lt = absurd (omega (arith, lt))
digits_within-value (suc fuel) n lt = elim (Bool-cases (ltb n 10)) [
  | inl one ↦ rw one (omega arith)
  | inr more ↦
      let rest = digits_within-value fuel (n / 10) (ground (arith, more, lt)) in
      rw more (value-append 0 (digits_within fuel (n / 10)) _ ∙ rw rest (omega arith))
]

digits_within-all_digits : (fuel n : ℕ) → all_digits (digits_within fuel n) ≡ true
unfolding digits_within all_digits
digits_within-all_digits zero n = refl
digits_within-all_digits (suc fuel) n = elim (Bool-cases (ltb n 10)) [
  | inl one ↦ rw one (ground (arith, one))
  | inr more ↦ rw more (
      all_digits-append (digits_within fuel (n / 10)) _ (digits_within-all_digits fuel (n / 10))
        (ground arith))
]

-- Powers of ten, as many as there are digits.
unfoldable pub ten_to : ℕ → ℕ
ten_to zero = 1
ten_to (suc k) = ten_to k * 10

digits_within-length : (fuel n k : ℕ) → n < ten_to (suc k) → length (digits_within fuel n) ≤ suc k
unfolding digits_within
digits_within-length zero n k lt = omega arith
digits_within-length (suc fuel) n zero lt =
    unfold ten_to in
    elim (Bool-cases (ltb n 10)) [
      | inl one ↦ rw one (omega arith)
      | inr more ↦ absurd (ground (arith, more, lt))
    ]
digits_within-length (suc fuel) n (suc k) lt = elim (Bool-cases (ltb n 10)) [
  | inl one ↦ rw one (omega arith)
  | inr more ↦
      let below : n / 10 < ten_to (suc k) = unfold ten_to in omega (arith, lt) in
      rw more (
        rw (length-append (digits_within fuel (n / 10)) ((b'0' + n % 10) ∷ []))
          (omega (arith, digits_within-length fuel (n / 10) k below)))
]

digits_within-some : (fuel n : ℕ) → 1 ≤ length (digits_within (suc fuel) n)
unfolding digits_within
digits_within-some fuel n = elim (Bool-cases (ltb n 10)) [
  | inl one ↦ rw one (omega arith)
  | inr more ↦
      rw more
        (rw (length-append (digits_within fuel (n / 10)) ((b'0' + n % 10) ∷ [])) (omega arith))
]

pub digits-value : (n : ℕ) → value 0 (digits n) ≡ n
unfolding digits
digits-value n = digits_within-value (suc n) n (omega arith)

pub digits-all_digits : (n : ℕ) → all_digits (digits n) ≡ true
unfolding digits
digits-all_digits n = digits_within-all_digits (suc n) n

pub digits-length : (n k : ℕ) → n < ten_to (suc k) → length (digits n) ≤ suc k
unfolding digits
digits-length n k lt = digits_within-length (suc n) n k lt

pub digits-some : (n : ℕ) → 1 ≤ length (digits n)
unfolding digits
digits-some n = digits_within-some n n

-- What digits are worth after a number.
pub value-shift : (n : ℕ) (s : Text) → value n s ≡ n * ten_to (length s) + value 0 s
unfolding value ten_to
value-shift n [] = omega arith
value-shift n (c ∷ s) =
    let d : ℕ = c - b'0' in
    value-shift (n * 10 + d) s ∙ rw (value-shift (0 * 10 + d) s) (omega arith)
