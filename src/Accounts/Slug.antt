-- ===== src/Accounts/Slug.antt =====
-- slugify of internal/web/handlers.go, on code points.
use shopify_gmc.Base.{
  ℕ, Bool, true, false, not, List, [], ◌∷◌, ◌++◌, ◌≡◌, refl, if◌then◌else◌, leb, nat_beq, map, ◌&&◌,
  ◌||◌, arith, ◌⊎◌, inl, inr,
}
use shopify_gmc.Base.Text.{lower_code, codes, is_space, trim_start, trim_end, trim}

-- A letter or a digit of a slug.
abbrev pub is_plain : ℕ → Bool
is_plain c = leb b'a' c && leb c b'z' || leb b'0' c && leb c b'9'

abbrev is_gap : ℕ → Bool
is_gap c = nat_beq c b' ' || nat_beq c b'-' || nat_beq c b'_'

-- The loop, with `prevDash`.
pub slug_loop : Bool → List ℕ → List ℕ
slug_loop prev [] = []
slug_loop prev (c ∷ cs) =
    let plain = slug_loop false cs in
    let dashed = slug_loop true cs in
    let skipped = slug_loop prev cs in
    if is_plain c
    then c ∷ plain
    else if is_gap c
    then (if prev then skipped else b'-' ∷ dashed)
    else skipped

abbrev is_dash : ℕ → Bool
is_dash c = nat_beq c b'-'

abbrev pub workspace_dash : List ℕ
workspace_dash = codes "workspace-"

abbrev or_random : List ℕ → List ℕ → List ℕ
or_random [] random = workspace_dash ++ random
or_random (c ∷ cs) random = c ∷ cs

-- With the random text that stands in for an empty slug.
unfoldable pub slugify : List ℕ → List ℕ → List ℕ
unfolding slug_loop trim_start trim_end
slugify s random =
    or_random (trim is_dash (slug_loop false (map lower_code (trim is_space s)))) random

-- Letters and digits with single dashes between them; `prev` says that a dash has just gone before,
-- or nothing.
pub is_slug_after : Bool → List ℕ → Bool
is_slug_after prev [] = not prev
is_slug_after prev (c ∷ cs) =
    is_plain c && is_slug_after false cs || is_dash c && not prev && is_slug_after true cs

-- The same, with a dash at the end or without.
is_open_after : Bool → List ℕ → Bool
is_open_after prev [] = true
is_open_after prev (c ∷ cs) =
    is_plain c && is_open_after false cs || is_dash c && not prev && is_open_after true cs

slug_loop-open : (prev : Bool) (s : List ℕ) → is_open_after prev (slug_loop prev s) ≡ true
unfolding is_open_after slug_loop
slug_loop-open prev [] = refl
slug_loop-open prev (c ∷ cs) =
    ground (arith, slug_loop-open false cs, slug_loop-open true cs, slug_loop-open prev cs)

open_first : (s : List ℕ) → is_open_after true s ≡ true → is_open_after false s ≡ true
unfolding is_open_after
open_first [] h = refl
open_first (c ∷ cs) h = ground arith

trim_start-open :
    (s : List ℕ) → is_open_after false s ≡ true → is_open_after true (trim_start is_dash s) ≡ true
unfolding is_open_after trim_start
trim_start-open [] h = refl
trim_start-open (c ∷ cs) h = ground (arith, trim_start-open cs, open_first cs)

trim_end-slug :
    (prev : Bool) (s : List ℕ)
    → is_open_after prev s ≡ true
    → (trim_end is_dash s ≡ []) ⊎ (is_slug_after prev (trim_end is_dash s) ≡ true)
unfolding is_open_after is_slug_after trim_end
trim_end-slug prev [] h = inl refl
trim_end-slug prev (c ∷ cs) h = ground (arith, trim_end-slug false cs, trim_end-slug true cs)

-- A slug has lower-case letters, digits and single dashes between them only, and is not empty; where
-- nothing is left of the text, it is "workspace-" and the random text.
pub slugify_lem :
    (s random : List ℕ)
    → (is_slug_after true (slugify s random) ≡ true) ⊎ (slugify s random ≡ workspace_dash ++ random)
unfolding slugify
slugify_lem s random = picked (trim is_dash (slug_loop false (map lower_code (trim is_space s)))) (
    trim_end-slug true (trim_start is_dash (slug_loop false (map lower_code (trim is_space s)))) (
      trim_start-open (slug_loop false (map lower_code (trim is_space s)))
        (slug_loop-open false (map lower_code (trim is_space s)))))
  where
    picked :
        (t : List ℕ)
        → (t ≡ []) ⊎ (is_slug_after true t ≡ true)
        → (is_slug_after true (or_random t random) ≡ true)
          ⊎ (or_random t random ≡ workspace_dash ++ random)
    picked [] h = inr refl
    picked (c ∷ cs) (inl e) = absurd cc
    picked (c ∷ cs) (inr h) = inl h
