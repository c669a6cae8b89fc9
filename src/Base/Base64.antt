-- ===== src/Base/Base64.antt =====
-- `base64.RawURLEncoding`, as encoding/base64 documents it: no padding, the alphabet of RFC 4648 for
-- addresses, line breaks are skipped by the decoder and the bits left over are not looked at.
use Prim.Native.Nat.{ℕ, ◌+◌, ◌-◌, ◌*◌, ◌/◌, ◌%◌, ◌<◌}
use mathlib.Core.Path.{◌≡◌, refl, ap}
use mathlib.Core.Logic.{◌≢◌}
use mathlib.Core.Bool.{Bool, true, not, ◌&&◌, ◌||◌}
use mathlib.Core.Option.{Option, none, some}
use mathlib.Core.List.{List, [], ◌∷◌, map}
use native.Mathlib.Omega.{arith}
use shopify_gmc.Base.Tests.{ltb, leb, nat_beq, if◌then◌else◌}
use shopify_gmc.Base.Lists.{All, select}
use shopify_gmc.Base.Bytes.{AreBytes}

-- The digit of a value below 64.
pub digit : ℕ → ℕ
digit n =
    if ltb n 26
    then b'A' + n
    else if ltb n 52
    then b'a' + (n - 26)
    else if ltb n 62
    then b'0' + (n - 52)
    else if nat_beq n 62
    then b'-'
    else b'_'

pub digit_value : ℕ → Option ℕ
digit_value c =
    if leb b'A' c && leb c b'Z'
    then some (c - b'A')
    else if leb b'a' c && leb c b'z'
    then some (c - b'a' + 26)
    else if leb b'0' c && leb c b'9'
    then some (c - b'0' + 52)
    else if nat_beq c b'-'
    then some 62
    else if nat_beq c b'_'
    then some 63
    else none

-- The values of the digits: six bits each.
pub sextets : List ℕ → List ℕ
sextets [] = []
sextets (a ∷ []) = a / 4 ∷ a % 4 * 16 ∷ []
sextets (a ∷ b ∷ []) = a / 4 ∷ (a % 4 * 16 + b / 16) ∷ b % 16 * 4 ∷ []
sextets (a ∷ b ∷ c ∷ rest) =
    a / 4 ∷ (a % 4 * 16 + b / 16) ∷ (b % 16 * 4 + c / 64) ∷ c % 64 ∷ sextets rest

pub encode : List ℕ → List ℕ
encode bytes = map digit (sextets bytes)

-- The values of the digits, `none` where one is no digit.
abbrev cons_value : Option ℕ → Option (List ℕ) → Option (List ℕ)
cons_value (some v) (some vs) = some (v ∷ vs)
cons_value _ _ = none

pub values : List ℕ → Option (List ℕ)
values [] = some []
values (c ∷ cs) = cons_value (digit_value c) (values cs)

abbrev cons_three : ℕ → ℕ → ℕ → Option (List ℕ) → Option (List ℕ)
cons_three a b c none = none
cons_three a b c (some bytes) = some (a ∷ b ∷ c ∷ bytes)

-- The bytes of the values; a single digit at the end is an error.
pub join_values : List ℕ → Option (List ℕ)
join_values [] = some []
join_values (p ∷ []) = none
join_values (p ∷ q ∷ []) = some ((p * 4 + q / 16) ∷ [])
join_values (p ∷ q ∷ r ∷ []) = some ((p * 4 + q / 16) ∷ (q % 16 * 16 + r / 4) ∷ [])
join_values (p ∷ q ∷ r ∷ s ∷ rest) =
    cons_three (p * 4 + q / 16) (q % 16 * 16 + r / 4) (r % 4 * 64 + s) (join_values rest)

abbrev join_all : Option (List ℕ) → Option (List ℕ)
join_all none = none
join_all (some vs) = join_values vs

abbrev not_break : ℕ → Bool
not_break c = not (nat_beq c b'\n' || nat_beq c b'\r')

pub decode : List ℕ → Option (List ℕ)
unfolding values join_values
decode s = join_all (values (select not_break s))

-- The digits of the values below 64.
digit_value-digit : (n : ℕ) → n < 64 → digit_value (digit n) ≡ some n
unfolding digit_value digit
digit_value-digit n h = ground arith

digit-not_break : (n : ℕ) → n < 64 → not_break (digit n) ≡ true
unfolding digit
digit-not_break n h = ground arith

digit-ne-dot : (n : ℕ) → n < 64 → digit n ≢ b'.'
unfolding digit
digit-ne-dot n h = ground arith

select-digits :
    (vs : List ℕ) → All (λ v. v < 64) vs → select not_break (map digit vs) ≡ map digit vs
select-digits [] h = refl
select-digits (v ∷ vs) h = ground (arith, digit-not_break v h.0, select-digits vs h.1)

values-digits : (vs : List ℕ) → All (λ v. v < 64) vs → values (map digit vs) ≡ some vs
unfolding values
values-digits [] h = refl
values-digits (v ∷ vs) h = rw (digit_value-digit v h.0, values-digits vs h.1) refl

sextets-All : (bytes : List ℕ) → AreBytes bytes → All (λ v. v < 64) (sextets bytes)
unfolding sextets
sextets-All [] h = tt
sextets-All (a ∷ []) h = (omega (arith, h.0), (omega arith, tt))
sextets-All (a ∷ b ∷ []) h = (omega (arith, h.0), (omega (arith, h.1.0), (omega arith, tt)))
sextets-All (a ∷ b ∷ c ∷ rest) h = (
  omega (arith, h.0),
  (omega (arith, h.1.0), (omega (arith, h.1.1.0), (omega arith, sextets-All rest h.1.1.1))),
)

join_values-sextets : (bytes : List ℕ) → AreBytes bytes → join_values (sextets bytes) ≡ some bytes
unfolding join_values sextets
join_values-sextets [] h = refl
join_values-sextets (a ∷ []) h = ap (λ x. some (x ∷ [])) (omega arith)
join_values-sextets (a ∷ b ∷ []) h = ground (arith, h.0, h.1.0)
join_values-sextets (a ∷ b ∷ c ∷ rest) h =
    rw (join_values-sextets rest h.1.1.1) (ground (arith, h.0, h.1.0, h.1.1.0))

pub decode-encode : (bytes : List ℕ) → AreBytes bytes → decode (encode bytes) ≡ some bytes
unfolding decode encode
decode-encode bytes h =
    let small = sextets-All bytes h in
    rw (select-digits (sextets bytes) small, values-digits (sextets bytes) small)
      (join_values-sextets bytes h)

All-map-digit : (vs : List ℕ) → All (λ v. v < 64) vs → All (λ c. c ≢ b'.') (map digit vs)
All-map-digit [] h = tt
All-map-digit (v ∷ vs) h = (digit-ne-dot v h.0, All-map-digit vs h.1)

-- An encoding has no dot.
pub encode-All : (bytes : List ℕ) → AreBytes bytes → All (λ c. c ≢ b'.') (encode bytes)
unfolding encode
encode-All bytes h = All-map-digit (sextets bytes) (sextets-All bytes h)
