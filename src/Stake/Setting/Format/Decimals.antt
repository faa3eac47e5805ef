-- ===== src/Stake/Setting/Format/Decimals.antt =====
-- The decimals of a cap: six digits, written without their last zeros (internal/config/stake_limit.go:
-- FormatMorLimit).
use mathlib.Core.List.{append_assoc}
use morpheus_uplink.Base.{
  ℕ, zero, suc, ◌+◌, ◌-◌, ◌*◌, ◌≤◌, ◌<◌, ◌≡◌, refl, sym, ◌∙◌, ap, true, ◌&&◌, [], ◌∷◌, ◌++◌, Text,
  same, arith, length, length-append, Bool-cases, ◌==◌, leb, inl, inr, value, value-append,
  value-shift, all_digits, all_digits-append, digits, digits-value, digits-all_digits,
  digits-length, ten_to,
}
use morpheus_uplink.Stake.Setting.{zeros}
use morpheus_uplink.Stake.Setting.Laws.{zeros-append, value-zeros}
use morpheus_uplink.Stake.Setting.Format.{trim_right_zeros, left_pad}

length-zeros : (n : ℕ) → length (zeros n) ≡ n
unfolding zeros
length-zeros zero = refl
length-zeros (suc n) = omega (arith, length-zeros n)

all_digits-zeros : (n : ℕ) → all_digits (zeros n) ≡ true
unfolding zeros all_digits
all_digits-zeros zero = refl
all_digits-zeros (suc n) = all_digits-zeros n

value-zeros_only : (n : ℕ) → value 0 (zeros n) ≡ 0
unfolding zeros value
value-zeros_only zero = refl
value-zeros_only (suc n) = value-zeros_only n

pub trim_right_zeros-zeros : (s : Text) → (j : ℕ) × (trim_right_zeros s ++ zeros j ≡ s)
unfolding trim_right_zeros zeros
trim_right_zeros-zeros [] = (0, refl)
trim_right_zeros-zeros (c ∷ s) =
    let (j, e) = trim_right_zeros-zeros s in
    elim (Bool-cases (same (trim_right_zeros s) [] && c == b'0')) [
      | inl all_zeros ↦ (suc j, rw all_zeros (ground (arith, all_zeros, e)))
      | inr kept ↦ (j, rw kept (ap (λ t. c ∷ t) e))
    ]

pub all_digits-left : (s t : Text) → all_digits (s ++ t) ≡ true → all_digits s ≡ true
unfolding all_digits
all_digits-left [] t h = refl
all_digits-left (c ∷ s) t h = ground (arith, h, all_digits-left s t (ground (arith, h)))

left_pad-zeros : (s : Text) (n : ℕ) → length s ≤ n → left_pad s n ≡ zeros (n - length s) ++ s
unfolding left_pad
left_pad-zeros s n le = elim (Bool-cases (leb n (length s))) [
  | inr short ↦ rw short refl
  | inl full ↦
      let none_left : n - length s ≡ 0 = ground (arith, full) in
      rw full (ap (λ k. zeros k ++ s) (sym none_left))
]

-- The six digits of a number below a million.
unfoldable pub SixDigits : ℕ → Text → Type 0
SixDigits m s = (length s ≡ 6) × (all_digits s ≡ true) × (value 0 s ≡ m)

pub left_pad-SixDigits : (m : ℕ) → m < 1000000 → SixDigits m (left_pad (digits m) 6)
unfolding SixDigits
left_pad-SixDigits m lt =
    let d : Text = digits m in
    let le : length d ≤ 6 = digits-length m 5 (unfold ten_to in omega (arith, lt)) in
    let z : Text = zeros (6 - length d) in
    rw (left_pad-zeros d 6 le) (
      length-append z d ∙ rw (length-zeros (6 - length d)) (omega (arith, le)),
      all_digits-append z d (all_digits-zeros (6 - length d)) (digits-all_digits m),
      value-append 0 z d ∙ rw (value-zeros_only (6 - length d)) (digits-value m),
    )

pub worth :
    (w f s : Text) (m j : ℕ)
    → f ++ zeros j ≡ s
    → SixDigits m s
    → value 0 (w ++ (f ++ zeros (18 - length f))) ≡ (value 0 w * 1000000 + m) * 1000000000000
unfolding SixDigits
worth w f s m j e (len, ok, is) =
    let n : length f + j ≡ 6 =
      omega (arith, length-append f (zeros j), length-zeros j, ap length e, len) in
    let fill : zeros (18 - length f) ≡ zeros j ++ zeros 12 =
      ap zeros (omega (arith, n)) ∙ zeros-append j 12 in
    let split : w ++ (f ++ zeros (18 - length f)) ≡ w ++ (s ++ zeros 12) =
      ap (λ z. w ++ (f ++ z)) fill
      ∙ ap (λ z. w ++ z) (sym (append_assoc f (zeros j) (zeros 12)) ∙ ap (λ z. z ++ zeros 12) e) in
    ap (value 0) split
    ∙ value-append 0 w (s ++ zeros 12)
    ∙ value-append (value 0 w) s (zeros 12)
    ∙ value-zeros (value (value 0 w) s)
    ∙ ap (λ v. v * 1000000000000)
        (value-shift (value 0 w) s ∙ rw (len, is) (unfold ten_to in omega arith))
