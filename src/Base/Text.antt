-- ===== src/Base/Text.antt =====
-- Text by code points, and `strings.ToLower` as the program uses it.
use Prim.Native.Nat.{ℕ, ◌+◌}
use Prim.Native.Char.{code}
use Prim.Native.String
use Prim.Native.String.{String}
use mathlib.Core.Path.{◌≡◌, refl}
use native.Mathlib.Omega.{arith}
use mathlib.Core.Bool.{Bool, true, false, ◌&&◌, ◌||◌}
use mathlib.Core.List.{List, [], ◌∷◌, map}
use shopify_gmc.Base.Tests.{leb, nat_beq, if◌then◌else◌}

-- The code points of a text. `String` has its own `[]` and `∷`.
abbrev pub codes : String → List ℕ
codes String.[] = []
codes (String.◌∷◌ c s) = code c ∷ codes s

abbrev pub codes_beq : List ℕ → List ℕ → Bool
codes_beq [] [] = true
codes_beq (c ∷ s) (d ∷ t) = nat_beq c d && codes_beq s t
codes_beq _ _ = false

-- `unicode.ToLower` on the code points whose lower case is ASCII: A to Z, U+0130 (to "i") and
-- U+212A (to "k"). Any other code point stays outside ASCII, here as itself.
unfoldable pub lower_code : ℕ → ℕ
lower_code c =
    if leb b'A' c && leb c b'Z'
    then c + 32
    else if nat_beq c 0x130
    then b'i'
    else if nat_beq c 0x212a
    then b'k'
    else c

-- `strings.ToLower(s) == label`, for an ASCII label.
unfoldable pub lower_is : String → String → Bool
unfolding lower_code
lower_is s label = codes_beq (map lower_code (codes s)) (codes label)

codes_beq_join :
    (x a b : List ℕ) → codes_beq x a ≡ true → codes_beq x b ≡ true → codes_beq a b ≡ true
codes_beq_join [] [] [] h k = refl
codes_beq_join (c ∷ x) (d ∷ a) (f ∷ b) h k = ground (arith, codes_beq_join x a b)
codes_beq_join [] (d ∷ a) b h k = cc
codes_beq_join [] [] (f ∷ b) h k = cc
codes_beq_join (c ∷ x) [] b h k = cc
codes_beq_join (c ∷ x) (d ∷ a) [] h k = cc

-- A text has one lower case: two labels that it matches are the same.
pub lower_is_unique :
    (s a b : String)
    → lower_is s a ≡ true
    → lower_is s b ≡ true
    → codes_beq (codes a) (codes b) ≡ true
unfolding lower_is
lower_is_unique s a b h k = codes_beq_join (map lower_code (codes s)) (codes a) (codes b) h k

abbrev pub append_text : String → String → String
append_text s t = String.◌++◌ s t

-- `strings.HasPrefix` and `strings.Contains`.
unfoldable pub starts_with : List ℕ → List ℕ → Bool
starts_with [] s = true
starts_with (p ∷ ps) [] = false
starts_with (p ∷ ps) (c ∷ s) = nat_beq p c && starts_with ps s

unfoldable pub occurs_in : List ℕ → List ℕ → Bool
occurs_in p [] = starts_with p []
occurs_in p (c ∷ s) = let later = occurs_in p s in starts_with p (c ∷ s) || later

abbrev pub has_prefix : String → String → Bool
has_prefix s prefix = starts_with (codes prefix) (codes s)

abbrev pub has_substring : String → String → Bool
has_substring s part = occurs_in (codes part) (codes s)

-- `unicode.IsSpace`.
abbrev pub is_space : ℕ → Bool
is_space c =
    leb 9 c && leb c 13
    || nat_beq c 32
    || nat_beq c 0x85
    || nat_beq c 0xa0
    || nat_beq c 0x1680
    || leb 0x2000 c && leb c 0x200a
    || nat_beq c 0x2028
    || nat_beq c 0x2029
    || nat_beq c 0x202f
    || nat_beq c 0x205f
    || nat_beq c 0x3000

-- `strings.Trim` and its like.
unfoldable pub trim_start : (ℕ → Bool) → List ℕ → List ℕ
trim_start p [] = []
trim_start p (c ∷ cs) = let rest = trim_start p cs in if p c then rest else c ∷ cs

abbrev pub cons_kept : (ℕ → Bool) → ℕ → List ℕ → List ℕ
cons_kept p c [] = if p c then [] else c ∷ []
cons_kept p c (d ∷ ds) = c ∷ d ∷ ds

unfoldable pub trim_end : (ℕ → Bool) → List ℕ → List ℕ
trim_end p [] = []
trim_end p (c ∷ cs) = cons_kept p c (trim_end p cs)

abbrev pub trim : (ℕ → Bool) → List ℕ → List ℕ
trim p s = trim_end p (trim_start p s)

-- `strings.Split` by one character.
abbrev cons_part : ℕ → List (List ℕ) → List (List ℕ)
cons_part c [] = (c ∷ []) ∷ []
cons_part c (p ∷ ps) = (c ∷ p) ∷ ps

unfoldable pub split_on : ℕ → List ℕ → List (List ℕ)
split_on sep [] = [] ∷ []
split_on sep (c ∷ cs) =
    let rest = split_on sep cs in if nat_beq c sep then [] ∷ rest else cons_part c rest
