-- ===== src/Stake/Setting/Format/Tests.antt =====
-- Caps as text (internal/config/stake_limit.go), and instances of the theorems.
use morpheus_uplink.Base.{
  dec_text, codes, digits, ◌≡◌, refl, arith, some, [], ◌∷◌, Text, Map, lookup, dec_text,
}
use morpheus_uplink.Stake.{per_session_from_hourly, mor}
use morpheus_uplink.Stake.Setting.{off, limit, parse_mor_limit}
use morpheus_uplink.Stake.Setting.Format.{
  StakeConfig, format_mor_limit, default_max_st_mor_per_session, resolve_stake_cap,
}
use morpheus_uplink.Stake.Setting.Format.Laws.{parse_mor_limit-format_mor_limit}
use morpheus_uplink.Stake.Setting.Format.Boot.{Resolved, resolve_stake_cap-Resolved}

one_and_a_half : format_mor_limit 1500000000000000000 ≡ codes "1.5"
unfolding format_mor_limit digits dec_text
one_and_a_half = refl

half_an_hour : default_max_st_mor_per_session 1800 ≡ codes "75"
unfolding default_max_st_mor_per_session digits dec_text per_session_from_hourly
    morpheus_uplink.Stake.rounded
half_an_hour = refl

abbrev no_cap : StakeConfig
no_cap = record { max_st_mor_per_session = []; stake_limit = off; setting_notes = [] }

-- Ten MOR an hour, saved under the former key.
abbrev hourly_saved : Map Text
hourly_saved = (codes "maxStMorPerHour", codes " 10") ∷ []

parse_mor_limit-format_mor_limit_example :
    parse_mor_limit (format_mor_limit 1500000000000000000) ≡ limit 1500000000000000000
parse_mor_limit-format_mor_limit_example =
    parse_mor_limit-format_mor_limit 1500000000000000000 (omega arith, omega arith, omega arith)

resolve_stake_cap-Resolved_example :
    Resolved
      (lookup (codes "maxStMorPerSession") hourly_saved)
      (lookup (codes "maxStMorPerHour") hourly_saved)
      no_cap
      1800
      (resolve_stake_cap no_cap hourly_saved 1800)
resolve_stake_cap-Resolved_example = resolve_stake_cap-Resolved no_cap hourly_saved 1800

hourly_converted : (resolve_stake_cap no_cap hourly_saved 1800).1 ≡ some (codes "5")
unfolding resolve_stake_cap lookup dec_text parse_mor_limit digits per_session_from_hourly
    morpheus_uplink.Stake.rounded format_mor_limit
hourly_converted = refl
