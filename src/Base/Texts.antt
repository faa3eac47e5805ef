-- ===== src/Base/Texts.antt =====
-- Texts as the bytes that the program walks, with what the source uses of package strings.
-- Case and white space are those of ASCII.
use Prim.Native.Nat.{ℕ, ◌+◌}
use Prim.Native.Char.{code}
use Prim.Native.String.{String}
use mathlib.Core.Path.{◌≡◌, refl, ap, ap₂, ◌∙◌}
use mathlib.Core.Bool.{Bool, true, false, ◌&&◌, ◌||◌}
use mathlib.Core.List.{List, [], ◌∷◌, map, reverse, reverse_aux, reverse-reverse}
use native.Mathlib.Omega.{arith}
unfoldable use native.Mathlib.Decide.{ℕ_discrete}
use morpheus_uplink.Base.Lists.{any}
use morpheus_uplink.Base.Tests.{ltb, leb, ◌==◌, if◌then◌else◌}

abbrev pub Text : Type 0
Text = List ℕ

abbrev pub codes : String → Text
codes String.[] = []
codes (String.◌∷◌ c s) = code c ∷ codes s

head_eq : {x y : ℕ} {xs ys : Text} → x ∷ xs ≡ y ∷ ys → x ≡ y
head_eq e = ground arith

tail_eq : {x y : ℕ} {xs ys : Text} → x ∷ xs ≡ y ∷ ys → xs ≡ ys
tail_eq e = ground arith

nil_ne_cons : {x : ℕ} {xs : Text} → ¬ (◌≡◌ {A = Text} [] (x ∷ xs))
nil_ne_cons e = cc

cons_ne_nil : {x : ℕ} {xs : Text} → ¬ (x ∷ xs ≡ [])
cons_ne_nil e = cc

dec_cons : {x y : ℕ} {xs ys : Text} → Dec (x ≡ y) → Dec (xs ≡ ys) → Dec (x ∷ xs ≡ y ∷ ys)
dec_cons (yes p) (yes q) = yes (ap₂ ◌∷◌ p q)
dec_cons (yes p) (no q) = no (λ e. q (tail_eq e))
dec_cons (no p) d = no (λ e. p (head_eq e))

-- `a == b` on strings.
unfoldable pub dec_text : Discrete Text
unfolding dec_cons head_eq tail_eq nil_ne_cons cons_ne_nil ℕ_discrete
dec_text [] [] = yes refl
dec_text [] (y ∷ ys) = no nil_ne_cons
dec_text (x ∷ xs) [] = no cons_ne_nil
dec_text (x ∷ xs) (y ∷ ys) = dec_cons (ℕ_discrete x y) (dec_text xs ys)

abbrev pub same : Text → Text → Bool
same a b = elim (dec_text a b) [ yes _ ↦ true | no _ ↦ false ]

-- `a < b` on strings, byte by byte.
unfoldable pub text_ltb : Text → Text → Bool
text_ltb [] [] = false
text_ltb [] (y ∷ ys) = true
text_ltb (x ∷ xs) [] = false
text_ltb (x ∷ xs) (y ∷ ys) = ltb x y || (x == y && text_ltb xs ys)

abbrev pub lower : ℕ → ℕ
lower c = if leb b'A' c && leb c b'Z' then c + 32 else c

abbrev pub to_lower : Text → Text
to_lower = map lower

abbrev pub is_space : ℕ → Bool
is_space c = c == 32 || (leb 9 c && leb c 13)

abbrev pub trim_left : Text → Text
trim_left [] = []
trim_left (c ∷ s) = if is_space c then trim_left s else c ∷ s

abbrev pub trim_space : Text → Text
trim_space s = reverse (trim_left (reverse (trim_left s)))

trim_left-any : (s : Text) → any is_space s ≡ false → trim_left s ≡ s
trim_left-any [] h = refl
trim_left-any (c ∷ s) h = ground (arith, h)

any-reverse_aux : (s t : Text) → any is_space (reverse_aux s t) ≡ (any is_space s || any is_space t)
any-reverse_aux [] t = refl
any-reverse_aux (c ∷ s) t = any-reverse_aux s (c ∷ t) ∙ ground arith

pub trim_space-any : (s : Text) → any is_space s ≡ false → trim_space s ≡ s
trim_space-any s h = rw (trim_left-any s h) (
    ap reverse (trim_left-any (reverse s) (any-reverse_aux s [] ∙ ground (arith, h)))
    ∙ reverse-reverse s)

-- `strings.ToLower(strings.TrimSpace(s))`
unfoldable pub lower_trim : Text → Text
lower_trim s = to_lower (trim_space s)

unfoldable pub has_prefix : Text → Text → Bool
has_prefix s [] = true
has_prefix [] (p ∷ ps) = false
has_prefix (c ∷ s) (p ∷ ps) = c == p && has_prefix s ps

unfoldable pub contains : Text → Text → Bool
unfolding has_prefix
contains [] p = has_prefix [] p
contains (c ∷ s) p = has_prefix (c ∷ s) p || contains s p

to_lower_test : lower_trim (codes " 0xAb ") ≡ codes "0xab"
unfolding lower_trim
to_lower_test = refl

contains_test : contains (codes "a b c") (codes "b c") ≡ true
unfolding contains
contains_test = refl
