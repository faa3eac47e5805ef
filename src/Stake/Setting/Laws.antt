-- ===== src/Stake/Setting/Laws.antt =====
-- What a cap that is accepted means (internal/config/stake_limit.go: ParseMorLimit).
use mathlib.Core.List.{append_assoc}
use morpheus_uplink.Base.{
  ℕ, zero, suc, ◌+◌, ◌-◌, ◌*◌, ◌%◌, ◌≤◌, ◌<◌, ◌≡◌, sym, ◌∙◌, ap, true, Option, none, some, [], ◌∷◌,
  ◌++◌, Text, same, arith, length, Bool-cases, trim_space, inl, inr, value, value-append,
}
use morpheus_uplink.Stake.{micro_mor, max_mor_limit}
use morpheus_uplink.Stake.Setting.{
  limit, cut_dot, frac_ok, frac_of, matches_format, zeros, in_range, parse_parts, parse_mor_limit,
}

pub zeros-append : (j k : ℕ) → zeros (j + k) ≡ zeros j ++ zeros k
unfolding zeros
zeros-append zero k = ap zeros (omega arith)
zeros-append (suc j) k =
    ap zeros {y = suc (j + k)} (omega arith) ∙ ap (λ s. b'0' ∷ s) (zeros-append j k)

pub value-zeros : (n : ℕ) → value n (zeros 12) ≡ n * 1000000000000
unfolding value zeros
value-zeros n = omega arith

frac_ok-length : (f : Option Text) → frac_ok f ≡ true → length (frac_of f) ≤ 6
unfolding frac_ok
frac_ok-length none h = omega arith
frac_ok-length (some f) h = ground (arith, h)

-- Twelve of the digits that are filled up are zeros.
padded : (w f : Text) → length f ≤ 6 → value 0 (w ++ (f ++ zeros (18 - length f))) % micro_mor ≡ 0
padded w f le =
    let n : ℕ = value 0 (w ++ (f ++ zeros (6 - length f))) in
    let twelve : zeros (18 - length f) ≡ zeros (6 - length f) ++ zeros 12 =
      ap zeros (omega arith) ∙ zeros-append (6 - length f) 12 in
    let split : w ++ (f ++ zeros (18 - length f)) ≡ (w ++ (f ++ zeros (6 - length f))) ++ zeros 12 =
      ap (λ z. w ++ (f ++ z)) twelve
      ∙ ap (λ z. w ++ z) (sym (append_assoc f (zeros (6 - length f)) (zeros 12)))
      ∙ sym (append_assoc w (f ++ zeros (6 - length f)) (zeros 12)) in
    let e : value 0 (w ++ (f ++ zeros (18 - length f))) ≡ n * 1000000000000 =
      ap (value 0) split
      ∙ value-append 0 (w ++ (f ++ zeros (6 - length f))) (zeros 12)
      ∙ value-zeros n in
    ap (λ v. v % micro_mor) e ∙ omega arith

abbrev pub InRange : ℕ → Type 0
InRange wei = (0 < wei) × (wei ≤ max_mor_limit) × (wei % micro_mor ≡ 0)

in_range-limit :
    (v wei : ℕ) → in_range v ≡ limit wei → (v ≡ wei) × (0 < wei) × (wei ≤ max_mor_limit)
unfolding in_range
in_range-limit v wei e = ground arith

parse_parts-InRange :
    (w : Text) (f : Option Text) (wei : ℕ) → parse_parts w f ≡ limit wei → InRange wei
unfolding parse_parts
parse_parts-InRange w f wei e = elim (Bool-cases (matches_format w f)) [
  | inr wrong ↦ absurd (ground (arith, wrong, e))
  | inl fits ↦
      let h =
        in_range-limit (value 0 (w ++ (frac_of f ++ zeros (18 - length (frac_of f))))) wei
          (ground (arith, fits, e)) in
      let ok : frac_ok f ≡ true = unfold matches_format in ground (arith, fits) in
      (h.1, h.2, ap (λ v. v % micro_mor) (sym h.0) ∙ padded w (frac_of f) (frac_ok-length f ok))
]

-- A cap that the setting accepts is above zero, at most 100000 MOR and a whole number of micro-MOR.
parse_mor_limit-InRange : (text : Text) (wei : ℕ) → parse_mor_limit text ≡ limit wei → InRange wei
unfolding parse_mor_limit
parse_mor_limit-InRange text wei e = elim (Bool-cases (same (trim_space text) [])) [
  | inl empty ↦ absurd (ground (arith, empty, e))
  | inr some_text ↦
      parse_parts-InRange (cut_dot (trim_space text)).0 (cut_dot (trim_space text)).1 wei
        (ground (arith, some_text, e))
]
