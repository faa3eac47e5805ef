-- ===== src/Stake.antt =====
-- The stake that a session locks (internal/router/stake.go, internal/config/stake_limit.go).
-- Amounts are in wei and unbounded, as big.Int is; a missing number is `none`.
mod Setting
mod Laws
mod Tests
use morpheus_uplink.Base.{
  ℕ, zero, suc, ◌+◌, ◌-◌, ◌*◌, ◌/◌, ◌%◌, ◌^◌, Option, none, some, ltb, leb, ◌==◌, if◌then◌else◌,
  min,
}

-- `negsuc n` is -(n + 1).
pub data ℤ : Type 0 where
  pos : ℕ → ℤ
  negsuc : ℕ → ℤ

-- The number, when it is there and above zero.
unfoldable pub above_zero : Option ℤ → Option ℕ
above_zero (some (pos (suc n))) = some (suc n)
above_zero _ = none

-- `wei_below_zero n` is the number -n.
pub data StakeResult : Type 0 where
  wei : ℕ → StakeResult
  wei_below_zero : ℕ → StakeResult
  bad_inputs invalid_duration : StakeResult

-- For num >= 0 and den > 0.
unfoldable pub ceil_div : ℕ → ℕ → ℕ
ceil_div num den = if ltb 0 (num % den) then num / den + 1 else num / den

unfoldable pub with_inputs :
    Option ℕ → Option ℕ → Option ℕ → (ℕ → ℕ → ℕ → StakeResult) → StakeResult
with_inputs (some s) (some b) (some p) f = f s b p
with_inputs _ _ _ f = bad_inputs

pub st_mor_per_hour_wei : Option ℤ → Option ℤ → Option ℤ → StakeResult
unfolding ceil_div with_inputs above_zero
st_mor_per_hour_wei supply budget pps =
    with_inputs (above_zero supply) (above_zero budget) (above_zero pps)
      λ s b p. wei (ceil_div (s * p * 3600) b)

-- `durationSec + 1` as an int64.
unfoldable pub next_second : ℕ → ℤ
next_second d =
    let n : ℕ = (d + 1) % 2 ^ 64 in if ltb n (2 ^ 63) then pos n else negsuc (2 ^ 64 - n - 1)

-- `big.Int.QuoRem` cuts towards zero, so the quotient of a number below zero is not rounded up.
priced : ℤ → ℕ → ℕ → ℕ → StakeResult
unfolding ceil_div
priced (pos n) s b p = wei (ceil_div (s * p * n) b)
priced (negsuc n) s b p = wei_below_zero (s * p * (n + 1) / b)

-- The duration is an int64.
stake_for : ℤ → ℕ → ℕ → ℕ → StakeResult
unfolding priced next_second
stake_for (pos (suc d)) s b p = priced (next_second (suc d)) s b p
stake_for _ s b p = invalid_duration

unfoldable pub stake_for_duration_wei : Option ℤ → Option ℤ → Option ℤ → ℤ → StakeResult
unfolding with_inputs above_zero stake_for
stake_for_duration_wei supply budget pps duration =
    with_inputs (above_zero supply) (above_zero budget) (above_zero pps) (stake_for duration)

abbrev pub mor : ℕ
mor = 10 ^ 18

abbrev pub micro_mor : ℕ
micro_mor = 10 ^ 12

abbrev pub max_mor_limit : ℕ
max_mor_limit = 100000 * mor

-- Rounded up to whole seconds, then up to whole micro-MOR.
rounded : ℕ → ℕ → ℕ
rounded hourly sec = ((hourly * sec + 3599) / 3600 + (micro_mor - 1)) / micro_mor * micro_mor

-- For an hourly cap and a session length that are not negative.
pub per_session_from_hourly : ℕ → ℕ → ℕ
per_session_from_hourly hourly sec =
    let w : ℕ = if rounded hourly sec == 0 then micro_mor else rounded hourly sec in
    if ltb max_mor_limit w then max_mor_limit else w
