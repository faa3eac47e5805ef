-- ===== src/Stake/Tests.antt =====
-- Stakes on numbers (internal/router/stake.go), and instances of the theorems.
use morpheus_uplink.Base.{arith, ◌^◌, ◌-◌, dec_text, codes, ◌≡◌, ◌≤◌, refl, some}
use morpheus_uplink.Stake.Setting.{limit, parse_mor_limit}
use morpheus_uplink.Stake.{
  pos, negsuc, wei, wei_below_zero, bad_inputs, invalid_duration, micro_mor, stake_for_duration_wei,
  st_mor_per_hour_wei, per_session_from_hourly,
}
use morpheus_uplink.Stake.Laws.{
  StakeOf, stake_for_duration_wei-StakeOf, per_session_from_hourly_bounds,
}

-- 100 × 3 × 61 ÷ 7, rounded up.
one_minute :
    stake_for_duration_wei (some (pos 100)) (some (pos 7)) (some (pos 3)) (pos 60) ≡ wei 2615
unfolding stake_for_duration_wei
one_minute = refl

no_budget : st_mor_per_hour_wei (some (pos 100)) (some (pos 0)) (some (pos 3)) ≡ bad_inputs
unfolding st_mor_per_hour_wei
no_budget = refl

negative_length :
    stake_for_duration_wei (some (pos 1)) (some (pos 7)) (some (pos 3)) (negsuc 4)
    ≡ invalid_duration
unfolding stake_for_duration_wei
negative_length = refl

-- The longest duration of an int64.
longest_wraps :
    stake_for_duration_wei (some (pos 1)) (some (pos 1)) (some (pos 1)) (pos (2 ^ 63 - 1))
    ≡ wei_below_zero (2 ^ 63)
unfolding stake_for_duration_wei
longest_wraps = refl

stake_for_duration_wei-StakeOf_example :
    StakeOf
      (some (pos 100))
      (some (pos 7))
      (some (pos 3))
      (pos 60)
      (stake_for_duration_wei (some (pos 100)) (some (pos 7)) (some (pos 3)) (pos 60))
stake_for_duration_wei-StakeOf_example =
    stake_for_duration_wei-StakeOf (some (pos 100)) (some (pos 7)) (some (pos 3)) (pos 60)
      (omega arith)

per_session_from_hourly_bounds_example : micro_mor ≤ per_session_from_hourly 5 1800
per_session_from_hourly_bounds_example = (per_session_from_hourly_bounds 5 1800).0

cap_parsed : parse_mor_limit (codes " 1.5 ") ≡ limit 1500000000000000000
unfolding parse_mor_limit dec_text
cap_parsed = refl
