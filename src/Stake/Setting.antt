-- ===== src/Stake/Setting.antt =====
-- The text of the Max stMOR per session setting (internal/config/stake_limit.go: ParseMorLimit).
pub mod Laws
mod Format
use morpheus_uplink.Base.{
  ℕ, zero, suc, ◌+◌, ◌-◌, ◌*◌, Bool, true, false, ◌&&◌, ◌||◌, Option, none, some, List, [], ◌∷◌,
  ◌++◌, Text, same, ltb, leb, ◌==◌, if◌then◌else◌, not, length, trim_space, value, all_digits,
}
use morpheus_uplink.Stake.{max_mor_limit}

pub data Limit : Type 0 where
  off : Limit
  limit : ℕ → Limit
  invalid : Limit

-- `strings.Cut(s, ".")`
pub cut_dot : Text → Text × Option Text
cut_dot [] = ([], none)
cut_dot (c ∷ s) = let (w, f) = cut_dot s in if c == b'.' then ([], some s) else (c ∷ w, f)

pub frac_ok : Option Text → Bool
unfolding all_digits
frac_ok none = true
frac_ok (some f) = leb 1 (length f) && leb (length f) 6 && all_digits f

abbrev pub frac_of : Option Text → Text
frac_of none = []
frac_of (some f) = f

-- `^[0-9]+(\.[0-9]{1,6})?$`, of the text before the first dot and after it.
pub matches_format : Text → Option Text → Bool
unfolding all_digits frac_ok
matches_format w f = leb 1 (length w) && all_digits w && frac_ok f

pub zeros : ℕ → Text
zeros zero = []
zeros (suc n) = b'0' ∷ zeros n

pub in_range : ℕ → Limit
in_range wei = if wei == 0 || ltb max_mor_limit wei then invalid else limit wei

pub parse_parts : Text → Option Text → Limit
unfolding matches_format value zeros in_range
parse_parts w f =
    if not (matches_format w f)
    then invalid
    else in_range (value 0 (w ++ (frac_of f ++ zeros (18 - length (frac_of f)))))

unfoldable pub parse_mor_limit : Text → Limit
unfolding parse_parts cut_dot
parse_mor_limit text =
    let s : Text = trim_space text in
    let (w, f) = cut_dot s in if same s [] then off else parse_parts w f
