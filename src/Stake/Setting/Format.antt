-- ===== src/Stake/Setting/Format.antt =====
-- The text of a cap, and the cap that is in force at boot (internal/config/stake_limit.go:
-- FormatMorLimit, DefaultMaxStMorPerSession, setMaxStMorPerSession, ResolveStakeCap). Amounts and session
-- lengths are not negative.
mod Decimals
mod Laws
mod Boot
mod Tests
use morpheus_uplink.Base.{
  ℕ, ◌-◌, ◌*◌, ◌/◌, ◌%◌, Bool, true, false, ◌&&◌, Option, none, some, List, [], ◌∷◌, ◌++◌, Text,
  same, codes, ◌==◌, leb, if◌then◌else◌, length, trim_space, digits, Map, lookup,
}
use morpheus_uplink.Stake.{mor, micro_mor, per_session_from_hourly}
use morpheus_uplink.Stake.Setting.{Limit, off, limit, invalid, zeros, parse_mor_limit}

-- `strings.TrimRight(s, "0")`
pub trim_right_zeros : Text → Text
trim_right_zeros [] = []
trim_right_zeros (c ∷ s) =
    let rest = trim_right_zeros s in if same rest [] && c == b'0' then [] else c ∷ rest

pub left_pad : Text → ℕ → Text
unfolding zeros
left_pad s n = if leb n (length s) then s else zeros (n - length s) ++ s

pub format_mor_limit : ℕ → Text
unfolding trim_right_zeros left_pad
format_mor_limit wei =
    let frac : Text = trim_right_zeros (left_pad (digits (wei % mor / micro_mor)) 6) in
    if same frac [] then digits (wei / mor) else digits (wei / mor) ++ b'.' ∷ frac

pub default_max_st_mor_per_session : ℕ → Text
unfolding format_mor_limit
default_max_st_mor_per_session sec = format_mor_limit (per_session_from_hourly (150 * mor) sec)

-- The fields of the configuration that hold the cap. `stake_limit` is StakeLimitWei with
-- StakeLimitInvalid.
pub record StakeConfig : Type 0 where
  pub max_st_mor_per_session : Text
  pub stake_limit : Limit
  pub setting_notes : List Text

pub set_max_st_mor_per_session : StakeConfig → Text → StakeConfig
set_max_st_mor_per_session c v = record c {
  max_st_mor_per_session = v;
  stake_limit = parse_mor_limit v;
}

abbrev pub invalid_note : Text
invalid_note = codes "Max stMOR per session is invalid: fix the value and restart"

noted : Limit → StakeConfig → StakeConfig
noted invalid c = record c { setting_notes = c.setting_notes ++ invalid_note ∷ [] }
noted _ c = c

converted : Limit → ℕ → Text → Text
unfolding format_mor_limit
converted (limit hourly) sec raw = format_mor_limit (per_session_from_hourly hourly sec)
converted _ sec raw = raw

legacy : Text → StakeConfig → ℕ → StakeConfig × Option Text
unfolding noted converted set_max_st_mor_per_session
legacy given c sec =
    let raw : Text = trim_space given in
    let v : Text = converted (parse_mor_limit raw) sec raw in
    let d : StakeConfig = set_max_st_mor_per_session c v in (noted d.stake_limit d, some v)

unsaved : Option Text → StakeConfig → ℕ → StakeConfig × Option Text
unfolding legacy set_max_st_mor_per_session default_max_st_mor_per_session
unsaved none c sec = (set_max_st_mor_per_session c (default_max_st_mor_per_session sec), none)
unsaved (some raw) c sec = legacy raw c sec

if_saved : Option Text → Option Text → StakeConfig → ℕ → StakeConfig × Option Text
unfolding unsaved
if_saved (some v) old c sec = (c, none)
if_saved none old c sec = unsaved old c sec

-- The configuration, and the text to save.
pub resolve_stake_cap : StakeConfig → Map Text → ℕ → StakeConfig × Option Text
unfolding if_saved
resolve_stake_cap c vals default_sec =
    if_saved (lookup (codes "maxStMorPerSession") vals) (lookup (codes "maxStMorPerHour") vals) c
      default_sec
