-- ===== src/Stake/Laws.antt =====
-- The stake of a session is the least that covers its price (internal/router/stake.go), and the cap of
-- a session follows the hourly one (internal/config/stake_limit.go).
use morpheus_uplink.Base.{
  ℕ, zero, suc, ◌+◌, ◌*◌, ◌%◌, ◌≤◌, ◌<◌, ◌≡◌, refl, ◌⊎◌, inl, inr, Option, none, some, arith,
  Option-cases, ◌^◌, ◌-◌, ◌/◌, dec_lt, ltb, true, ap,
}
use morpheus_uplink.Stake.{
  ℤ, pos, negsuc, above_zero, StakeResult, wei, wei_below_zero, next_second, priced, bad_inputs,
  invalid_duration, ceil_div, with_inputs, stake_for, stake_for_duration_wei, rounded, micro_mor,
  max_mor_limit, per_session_from_hourly,
}

-- The quotient rounded up covers the number, and one less does not.
pub ceil_div_least :
    (num den : ℕ) → 0 < den → (num ≤ ceil_div num den * den) × (ceil_div num den * den < num + den)
unfolding ceil_div
ceil_div_least num den h = grind arith

abbrev pub IsInt64 : ℤ → Type 0
IsInt64 (pos n) = n < 2 ^ 63
IsInt64 (negsuc n) = n < 2 ^ 63

-- How an answer of the stake relates to its inputs.
pub data StakeOf (supply budget pps : Option ℤ) (duration : ℤ) : StakeResult → Type 0 where
  covers :
      (s b p d w : ℕ)
      → above_zero supply ≡ some s
      → above_zero budget ≡ some b
      → above_zero pps ≡ some p
      → duration ≡ pos (suc d)
      → suc d + 1 < 2 ^ 63
      → s * p * (suc d + 1) ≤ w * b
      → w * b < s * p * (suc d + 1) + b
      → StakeOf supply budget pps duration (wei w)
  wraps :
      (s b p : ℕ)
      → above_zero supply ≡ some s
      → above_zero budget ≡ some b
      → above_zero pps ≡ some p
      → duration ≡ pos (2 ^ 63 - 1)
      → StakeOf supply budget pps duration (wei_below_zero (s * p * 2 ^ 63 / b))
  refused :
      ((above_zero supply ≡ none) ⊎ (above_zero budget ≡ none) ⊎ (above_zero pps ≡ none))
      → StakeOf supply budget pps duration bad_inputs
  too_short :
      (s b p : ℕ)
      → above_zero supply ≡ some s
      → above_zero budget ≡ some b
      → above_zero pps ≡ some p
      → above_zero (some duration) ≡ none
      → StakeOf supply budget pps duration invalid_duration

above_zero_pos : (o : Option ℤ) (n : ℕ) → above_zero o ≡ some n → 0 < n
unfolding above_zero
above_zero_pos none n h = ground arith
above_zero_pos (some (negsuc m)) n h = ground arith
above_zero_pos (some (pos zero)) n h = ground arith
above_zero_pos (some (pos (suc m))) n h = ground arith

next_second_lem :
    (d : ℕ)
    → d < 2 ^ 63
    → ((next_second d ≡ pos (d + 1)) × (d + 1 < 2 ^ 63))
      ⊎ ((next_second d ≡ negsuc (2 ^ 63 - 1)) × (d ≡ 2 ^ 63 - 1))
unfolding next_second
next_second_lem d lt = elim (dec_lt (d + 1) (2 ^ 63)) [
  | yes below ↦
      let n : (d + 1) % 2 ^ 64 ≡ d + 1 = omega (arith, below) in
      let inside : ltb (d + 1) (2 ^ 63) ≡ true = ground (arith, below) in
      inl (rw (n, inside) refl, below)
  | no above ↦ let last : d ≡ 2 ^ 63 - 1 = omega (arith, above, lt) in inr (rw last refl, last)
]

stake_for-StakeOf :
    (supply budget pps : Option ℤ) (duration : ℤ) (s b p : ℕ)
    → IsInt64 duration
    → above_zero supply ≡ some s
    → above_zero budget ≡ some b
    → above_zero pps ≡ some p
    → StakeOf supply budget pps duration (stake_for duration s b p)
unfolding stake_for priced
stake_for-StakeOf supply budget pps (pos (suc d)) s b p is hs hb hp =
    elim (next_second_lem (suc d) is) [
      | inl (n, below) ↦
          let c = ceil_div_least (s * p * (suc d + 1)) b (above_zero_pos budget b hb) in
          rw n (covers s b p d _ hs hb hp refl below c.0 c.1)
      | inr (n, last) ↦ rw n (wraps s b p hs hb hp (ap pos last))
    ]
stake_for-StakeOf supply budget pps (pos zero) s b p is hs hb hp =
    too_short s b p hs hb hp (unfold above_zero in refl)
stake_for-StakeOf supply budget pps (negsuc d) s b p is hs hb hp =
    too_short s b p hs hb hp (unfold above_zero in refl)

-- With supply, budget, price and an int64 duration above zero, the stake of an open is the least number
-- of wei that covers supply × price × (duration + 1) ÷ budget, unless the duration is the greatest
-- int64: then `durationSec + 1` wraps, and the stake is a negative number. The inputs are refused only
-- when one of the first three is missing or not above zero, and the duration only when they are above
-- zero and it is not.
pub stake_for_duration_wei-StakeOf :
    (supply budget pps : Option ℤ) (duration : ℤ)
    → IsInt64 duration
    → StakeOf supply budget pps duration (stake_for_duration_wei supply budget pps duration)
unfolding stake_for_duration_wei
stake_for_duration_wei-StakeOf supply budget pps duration is =
    elim (Option-cases (above_zero supply)) [
      | inl a ↦ rw (a, with_inputs) (refused (inl a))
      | inr (s, a) ↦ elim (Option-cases (above_zero budget)) [
        | inl b ↦ rw (a, b, with_inputs) (refused (inr (inl b)))
        | inr (b, hb) ↦ elim (Option-cases (above_zero pps)) [
          | inl c ↦ rw (a, hb, c, with_inputs) (refused (inr (inr c)))
          | inr (p, hp) ↦
              rw (a, hb, hp, with_inputs)
                (stake_for-StakeOf supply budget pps duration s b p is a hb hp)
        ]
      ]
    ]

rounded_bounds :
    (hourly sec : ℕ)
    → (hourly * sec ≤ rounded hourly sec * 3600)
      × (rounded hourly sec * 3600 < hourly * sec + 3600 * micro_mor)
      × (rounded hourly sec % micro_mor ≡ 0)
unfolding rounded
rounded_bounds hourly sec = omega arith

-- The cap of a session is a whole number of micro-MOR, above 0 and at most 100000 MOR. It covers the
-- hourly cap for its length unless it is that maximum, and it is less than a micro-MOR above it
-- unless it is the least cap, one micro-MOR.
pub per_session_from_hourly_bounds :
    (hourly sec : ℕ)
    → let w = per_session_from_hourly hourly sec in
      (micro_mor ≤ w)
      × (w ≤ max_mor_limit)
      × (w % micro_mor ≡ 0)
      × ((hourly * sec ≤ w * 3600) ⊎ (w ≡ max_mor_limit))
      × ((w * 3600 < hourly * sec + 3600 * micro_mor) ⊎ (w ≡ micro_mor))
unfolding per_session_from_hourly
per_session_from_hourly_bounds hourly sec = ground (arith, rounded_bounds hourly sec)
