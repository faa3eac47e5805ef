-- ===== src/Stake/Setting/Format/Laws.antt =====
-- A cap that is written as text is read back (internal/config/stake_limit.go: FormatMorLimit,
-- ParseMorLimit).
use morpheus_uplink.Base.{
  ℕ, ◌+◌, ◌-◌, ◌*◌, ◌/◌, ◌%◌, ◌≤◌, ◌≡◌, refl, sym, ◌∙◌, ap, true, false, Option, none, some, [],
  ◌∷◌, ◌++◌, Text, same, arith, any, length, length-append, Bool-cases, ◌==◌, is_space,
  trim_space-any, inl, inr, value, all_digits, digits, digits-value, digits-all_digits, digits-some,
}
use morpheus_uplink.Stake.{mor, micro_mor}
use morpheus_uplink.Stake.Setting.{
  limit, cut_dot, frac_ok, frac_of, matches_format, zeros, in_range, parse_parts, parse_mor_limit,
}
use morpheus_uplink.Stake.Setting.Laws.{InRange}
use morpheus_uplink.Stake.Setting.Format.{trim_right_zeros, left_pad, format_mor_limit}
use morpheus_uplink.Stake.Setting.Format.Decimals.{
  SixDigits, trim_right_zeros-zeros, all_digits-left, left_pad-SixDigits, worth,
}

all_digits-no_space : (s : Text) → all_digits s ≡ true → any is_space s ≡ false
unfolding all_digits
all_digits-no_space [] h = refl
all_digits-no_space (c ∷ s) h = ground (arith, h, all_digits-no_space s (ground (arith, h)))

abbrev written : Text → Option Text → Text
written w none = w
written w (some t) = w ++ b'.' ∷ t

any-append :
    (s t : Text) → any is_space s ≡ false → any is_space t ≡ false → any is_space (s ++ t) ≡ false
any-append [] t hs ht = ht
any-append (c ∷ s) t hs ht = ground (arith, hs, any-append s t (ground (arith, hs)) ht)

written-no_space :
    (w : Text) (f : Option Text)
    → all_digits w ≡ true
    → all_digits (frac_of f) ≡ true
    → any is_space (written w f) ≡ false
written-no_space w none hw hf = all_digits-no_space w hw
written-no_space w (some t) hw hf =
    any-append w (b'.' ∷ t) (all_digits-no_space w hw) (ground (arith, all_digits-no_space t hf))

cut_dot-written :
    (w : Text) (f : Option Text) → all_digits w ≡ true → cut_dot (written w f) ≡ (w, f)
unfolding cut_dot all_digits
cut_dot-written [] none h = refl
cut_dot-written [] (some t) h = refl
cut_dot-written (c ∷ w) none h =
    let rest = cut_dot-written w none (ground (arith, h)) in
    let digit : (c == b'.') ≡ false = ground (arith, h) in rw (digit, rest) refl
cut_dot-written (c ∷ w) (some t) h =
    let rest = cut_dot-written w (some t) (ground (arith, h)) in
    let digit : (c == b'.') ≡ false = ground (arith, h) in rw (digit, rest) refl

written-some : (w : Text) (f : Option Text) → 1 ≤ length w → same (written w f) [] ≡ false
written-some [] f h = absurd (omega (arith, h))
written-some (c ∷ w) none h = ground arith
written-some (c ∷ w) (some t) h = ground arith

frac_ok-all_digits : (f : Option Text) → frac_ok f ≡ true → all_digits (frac_of f) ≡ true
unfolding frac_ok
frac_ok-all_digits none h = unfold all_digits in refl
frac_ok-all_digits (some t) h = ground (arith, h)

-- A text of digits, with at most six decimals, is read as the number that it writes.
parse_mor_limit-written :
    (w : Text) (f : Option Text)
    → 1 ≤ length w
    → all_digits w ≡ true
    → frac_ok f ≡ true
    → parse_mor_limit (written w f)
      ≡ in_range (value 0 (w ++ (frac_of f ++ zeros (18 - length (frac_of f)))))
unfolding parse_mor_limit parse_parts
parse_mor_limit-written w f len ok frac =
    let plain =
      trim_space-any (written w f) (written-no_space w f ok (frac_ok-all_digits f frac)) in
    let fits : matches_format w f ≡ true = unfold matches_format in ground (arith, len, ok, frac) in
    rw (plain, written-some w f len, cut_dot-written w f ok, fits) refl

whole_number :
    (wei : ℕ)
    → InRange wei
    → in_range ((wei / mor * 1000000 + wei % mor / micro_mor) * 1000000000000) ≡ limit wei
unfolding in_range
whole_number wei (above, below, micro) =
    let e : (wei / mor * 1000000 + wei % mor / micro_mor) * 1000000000000 ≡ wei =
      omega (arith, micro) in
    rw e (ground (arith, above, below))

-- The digits of a whole number and a fraction without its last zeros.
parse_mor_limit-cut :
    (wei : ℕ) (f : Option Text) (s : Text) (j : ℕ)
    → InRange wei
    → frac_ok f ≡ true
    → frac_of f ++ zeros j ≡ s
    → SixDigits (wei % mor / micro_mor) s
    → parse_mor_limit (written (digits (wei / mor)) f) ≡ limit wei
parse_mor_limit-cut wei f s j range frac e six =
    let w : Text = digits (wei / mor) in
    parse_mor_limit-written w f (digits-some (wei / mor)) (digits-all_digits (wei / mor)) frac
    ∙ ap in_range (
        worth w (frac_of f) s (wei % mor / micro_mor) j e six
        ∙ ap (λ v. (v * 1000000 + wei % mor / micro_mor) * 1000000000000)
            (digits-value (wei / mor)))
    ∙ whole_number wei range

trimmed-frac_ok :
    (t s : Text) (m j : ℕ)
    → same t [] ≡ false
    → t ++ zeros j ≡ s
    → SixDigits m s
    → frac_ok (some t) ≡ true
unfolding SixDigits frac_ok
trimmed-frac_ok [] s m j h e six = absurd (ground (arith, h))
trimmed-frac_ok (c ∷ t) s m j h e (len, ok, is) =
    let le : length (c ∷ t) ≤ 6 =
      omega (arith, length-append (c ∷ t) (zeros j), ap length e, len) in
    let its = all_digits-left (c ∷ t) (zeros j) (rw (sym e) at ok) in ground (arith, le, its)

-- Every cap that the setting can hold reads back from its text: for an amount above zero, at most 100000
-- MOR and a whole number of micro-MOR, ParseMorLimit of FormatMorLimit is that amount.
pub parse_mor_limit-format_mor_limit :
    (wei : ℕ) → InRange wei → parse_mor_limit (format_mor_limit wei) ≡ limit wei
unfolding format_mor_limit
parse_mor_limit-format_mor_limit wei range =
    let m : ℕ = wei % mor / micro_mor in
    let s : Text = left_pad (digits m) 6 in
    let t : Text = trim_right_zeros s in
    let six = left_pad-SixDigits m (omega arith) in
    let (j, e) = trim_right_zeros-zeros s in
    elim (Bool-cases (same t [])) [
      | inl empty ↦
          let none_left : t ≡ [] = ground (arith, empty) in
          rw empty (
            parse_mor_limit-cut wei none s j range (unfold frac_ok in refl) (rw none_left at e) six)
      | inr some_left ↦ rw some_left (
          parse_mor_limit-cut wei (some t) s j range (trimmed-frac_ok t s m j some_left e six) e
            six)
    ]
