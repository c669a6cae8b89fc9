-- ===== src/Billing/Signature.antt =====
-- The webhook signature, internal/billing/signature.go, over bytes. HMAC-SHA256 is the parameter
-- `hmac`; `encoding/hex` is written out.
use shopify_gmc.Base.{
  ℕ, ◌+◌, ◌-◌, ◌*◌, ◌/◌, ◌%◌, ◌<◌, ◌≡◌, ◌≢◌, ◌↔◌, refl, sym, ap, ◌∙◌, Bool, true, false, Option,
  none, some, List, [], ◌∷◌, if◌then◌else◌, leb, ltb, ◌&&◌, ◌||◌, arith, Option-cases, inl, inr,
}
use shopify_gmc.Base.Bytes.{bytes_equal, bytes_equal_iff, AreBytes}

-- The digit of a value below 16, in lower case.
hex_digit : ℕ → ℕ
hex_digit n = if ltb n 10 then b'0' + n else b'a' + (n - 10)

hex_value : ℕ → Option ℕ
hex_value c =
    if leb b'0' c && leb c b'9'
    then some (c - b'0')
    else if leb b'a' c && leb c b'f'
    then some (c - b'a' + 10)
    else if leb b'A' c && leb c b'F'
    then some (c - b'A' + 10)
    else none

-- `hex.EncodeToString` and `hex.DecodeString`; the decoder wants pairs of digits.
pub hex_encode : List ℕ → List ℕ
hex_encode [] = []
hex_encode (b ∷ bs) = hex_digit (b / 16) ∷ hex_digit (b % 16) ∷ hex_encode bs

abbrev byte_of : Option ℕ → Option ℕ → Option ℕ
byte_of (some hi) (some lo) = some (hi * 16 + lo)
byte_of _ _ = none

abbrev cons_some : Option ℕ → Option (List ℕ) → Option (List ℕ)
cons_some (some b) (some bs) = some (b ∷ bs)
cons_some _ _ = none

pub hex_decode : List ℕ → Option (List ℕ)
hex_decode [] = some []
hex_decode (c ∷ []) = none
hex_decode (c ∷ d ∷ cs) = cons_some (byte_of (hex_value c) (hex_value d)) (hex_decode cs)

abbrev pub is_nil : List ℕ → Bool
is_nil [] = true
is_nil (b ∷ bs) = false

module _ (hmac : List ℕ → List ℕ → List ℕ) where
  unfoldable pub verify_signature : List ℕ → List ℕ → List ℕ → Bool
  verify_signature secret body signature =
      if is_nil secret || is_nil signature then false else elim (hex_decode signature) [
        | none ↦ false
        | some got ↦ bytes_equal (hmac secret body) got
      ]

  pub sign_body : List ℕ → List ℕ → List ℕ
  sign_body secret body = hex_encode (hmac secret body)

hex_value-digit : (n : ℕ) → n < 16 → hex_value (hex_digit n) ≡ some n
unfolding hex_value hex_digit
hex_value-digit n h = ground arith

hex_decode-encode : (bs : List ℕ) → AreBytes bs → hex_decode (hex_encode bs) ≡ some bs
unfolding hex_encode hex_decode
hex_decode-encode [] h = refl
hex_decode-encode (b ∷ bs) h =
    rw
      (
        hex_value-digit (b / 16) (omega (arith, h.0)),
        hex_value-digit (b % 16) (omega arith),
        hex_decode-encode bs h.1,
      )
      (ap (λ n. some (n ∷ bs)) (omega (arith, h.0)))

is_nil-false : (xs : List ℕ) → xs ≢ [] → is_nil xs ≡ false
is_nil-false [] n = absurd (n refl)
is_nil-false (x ∷ xs) n = refl

hex_encode-ne-nil : (bs : List ℕ) → bs ≢ [] → hex_encode bs ≢ []
unfolding hex_encode
hex_encode-ne-nil [] n = absurd (n refl)
hex_encode-ne-nil (b ∷ bs) n = λ e. cc

-- A signature verifies exactly when the secret and the signature are not empty and the signature is
-- hex, in either case of its letters, of the HMAC of the body.
pub verify_signature_iff :
    (hmac : List ℕ → List ℕ → List ℕ) (secret body signature : List ℕ)
    → (verify_signature hmac secret body signature ≡ true)
      ↔ ((secret ≢ []) × (signature ≢ []) × (hex_decode signature ≡ some (hmac secret body)))
unfolding verify_signature
verify_signature_iff hmac secret body signature = (
  λ h. elim (Option-cases (hex_decode signature)) [
    | inl bad ↦ absurd (refused_hex bad h)
    | inr (got, good) ↦ (
      λ e. refused_empty (rw e refl) h,
      λ e. refused_empty (rw e (ground arith)) h,
      good ∙ ap some (sym ((bytes_equal_iff (hmac secret body) got).0 (accepted got good h))),
    )
  ],
  λ h. ground (
    arith,
    is_nil-false secret h.0,
    is_nil-false signature h.1,
    h.2,
    bytes_equal_iff (hmac secret body) (hmac secret body),
  ),
)
  where
    refused_empty :
        (is_nil secret || is_nil signature) ≡ true
        → verify_signature hmac secret body signature ≡ true
        → ⊥
    refused_empty e h = ground arith

    refused_hex :
        hex_decode signature ≡ none → verify_signature hmac secret body signature ≡ true → ⊥
    refused_hex e h = ground arith

    accepted :
        (got : List ℕ)
        → hex_decode signature ≡ some got
        → verify_signature hmac secret body signature ≡ true
        → bytes_equal (hmac secret body) got ≡ true
    accepted got e h = ground arith

-- What `SignBody` signs verifies under the same secret, for a hash that is a non-empty list of bytes.
pub verify_signature-sign_body :
    (hmac : List ℕ → List ℕ → List ℕ) (secret body : List ℕ)
    → secret ≢ []
    → hmac secret body ≢ []
    → AreBytes (hmac secret body)
    → verify_signature hmac secret body (sign_body hmac secret body) ≡ true
unfolding sign_body
verify_signature-sign_body hmac secret body s n h =
    (verify_signature_iff hmac secret body (hex_encode (hmac secret body))).1
      (s, hex_encode-ne-nil (hmac secret body) n, hex_decode-encode (hmac secret body) h)
