-- ===== src/Stake/Setting/Format/Boot.antt =====
-- The cap that is in force after the boot (internal/config/stake_limit.go: ResolveStakeCap).
use morpheus_uplink.Base.{
  arith, ℕ, ◌*◌, ◌≡◌, refl, ◌∙◌, Option, none, some, List, [], ◌∷◌, ◌++◌, Text, codes, trim_space,
  Map, lookup,
}
use morpheus_uplink.Stake.{mor, per_session_from_hourly}
use morpheus_uplink.Stake.Laws.{per_session_from_hourly_bounds}
use morpheus_uplink.Stake.Setting.{Limit, off, limit, invalid, parse_mor_limit}
use morpheus_uplink.Stake.Setting.Format.{
  StakeConfig, set_max_st_mor_per_session, format_mor_limit, default_max_st_mor_per_session,
  invalid_note, noted, converted, legacy, unsaved, if_saved, resolve_stake_cap,
}
use morpheus_uplink.Stake.Setting.Format.Laws.{parse_mor_limit-format_mor_limit}

-- What a cap per hour means for sessions of `sec` seconds.
abbrev pub for_session : Limit → ℕ → Limit
for_session (limit hourly) sec = limit (per_session_from_hourly hourly sec)
for_session off sec = off
for_session invalid sec = invalid

abbrev pub notes_for : Limit → List Text → List Text
notes_for invalid notes = notes ++ invalid_note ∷ []
notes_for off notes = notes
notes_for (limit n) notes = notes

-- The configuration after the boot and the text to save, for the saved cap and the saved hourly cap.
pub Resolved : Option Text → Option Text → StakeConfig → ℕ → StakeConfig × Option Text → Type 0
Resolved (some v) old c sec r = r ≡ (c, none)
Resolved none none c sec r =
    (r.0.stake_limit ≡ limit (per_session_from_hourly (150 * mor) sec))
    × (r.0.setting_notes ≡ c.setting_notes)
    × (r.1 ≡ none)
Resolved none (some raw) c sec r =
    (r.0.stake_limit ≡ for_session (parse_mor_limit (trim_space raw)) sec)
    × (r.0.setting_notes ≡ notes_for r.0.stake_limit c.setting_notes)
    × ((text : Text) × (r.1 ≡ some text) × (parse_mor_limit text ≡ r.0.stake_limit))

parse_mor_limit-formatted :
    (hourly sec : ℕ)
    → parse_mor_limit (format_mor_limit (per_session_from_hourly hourly sec))
      ≡ limit (per_session_from_hourly hourly sec)
parse_mor_limit-formatted hourly sec =
    let b = per_session_from_hourly_bounds hourly sec in
    parse_mor_limit-format_mor_limit (per_session_from_hourly hourly sec)
      (omega (arith, b.0), b.1, b.2)

parse_mor_limit-converted :
    (l : Limit) (sec : ℕ) (raw : Text)
    → parse_mor_limit raw ≡ l
    → parse_mor_limit (converted l sec raw) ≡ for_session l sec
unfolding converted
parse_mor_limit-converted off sec raw e = e
parse_mor_limit-converted invalid sec raw e = e
parse_mor_limit-converted (limit hourly) sec raw e = parse_mor_limit-formatted hourly sec

noted-notes :
    (l : Limit) (c : StakeConfig)
    → ((noted l c).stake_limit ≡ c.stake_limit)
      × ((noted l c).setting_notes ≡ notes_for l c.setting_notes)
unfolding noted
noted-notes off c = (refl, refl)
noted-notes invalid c = (refl, refl)
noted-notes (limit n) c = (refl, refl)

if_saved-Resolved :
    (saved old : Option Text) (c : StakeConfig) (sec : ℕ)
    → Resolved saved old c sec (if_saved saved old c sec)
unfolding if_saved unsaved legacy Resolved set_max_st_mor_per_session default_max_st_mor_per_session
if_saved-Resolved (some v) old c sec = refl
if_saved-Resolved none none c sec = (parse_mor_limit-formatted (150 * mor) sec, refl, refl)
if_saved-Resolved none (some given) c sec =
    let raw : Text = trim_space given in
    let v : Text = converted (parse_mor_limit raw) sec raw in
    let d : StakeConfig = set_max_st_mor_per_session c v in
    let n = noted-notes d.stake_limit d in
    (
      n.0 ∙ parse_mor_limit-converted (parse_mor_limit raw) sec raw refl,
      rw n.0 n.1,
      (v, refl, rw n.0 refl),
    )

-- At boot a saved cap per session is kept as it is, and nothing is saved. Without one, a saved hourly
-- cap becomes the cap of a session of the default length, is off when it was off, and is marked and
-- noted as invalid when it was; the text that is to be saved reads back as that same cap. Without
-- either, the cap is that of 150 MOR an hour, it is valid, and nothing is saved.
pub resolve_stake_cap-Resolved :
    (c : StakeConfig) (vals : Map Text) (default_sec : ℕ)
    → Resolved
        (lookup (codes "maxStMorPerSession") vals)
        (lookup (codes "maxStMorPerHour") vals)
        c
        default_sec
        (resolve_stake_cap c vals default_sec)
unfolding resolve_stake_cap
resolve_stake_cap-Resolved c vals default_sec =
    if_saved-Resolved (lookup (codes "maxStMorPerSession") vals)
      (lookup (codes "maxStMorPerHour") vals) c default_sec
