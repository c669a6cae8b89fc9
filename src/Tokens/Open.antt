-- ===== src/Tokens/Open.antt =====
-- Which tokens are opened (internal/gmc/state.go, internal/monitoring/dispatcher.go).
use shopify_gmc.Base.{
  ℕ, ◌≡◌, ◌≢◌, ◌↔◌, ◌⊎◌, inl, inr, refl, ap, ◌∙◌, none, some, List, [], ◌∷◌, ◌++◌, nat_beq,
  nat_beq_iff, All, arith, Bool-cases,
}
use shopify_gmc.Base.Bytes.{bytes_equal_iff, AreBytes}
use shopify_gmc.Base.Base64
use shopify_gmc.Tokens.{Hmac, split_dot, dot, signature, seal, open_token}

-- A body without a dot is what stands before the first one.
split_dot-append :
    (body sig : List ℕ) → All (λ c. c ≢ dot) body → split_dot (body ++ dot ∷ sig) ≡ some (body, sig)
unfolding split_dot
split_dot-append [] sig h = ground arith
split_dot-append (c ∷ body) sig h =
    ground (arith, h.0, nat_beq_iff c dot, split_dot-append body sig h.1)

-- A text has no dot, or is split at its first one.
pub record IsSplit (token body sig : List ℕ) : Type 0 where
  pub splits : split_dot token ≡ some (body, sig)
  pub parts : token ≡ body ++ dot ∷ sig
  pub no_dot : All (λ c. c ≢ dot) body

split_dot-IsSplit :
    (token : List ℕ)
    → (split_dot token ≡ none) ⊎ ((body : List ℕ) × (sig : List ℕ) × IsSplit token body sig)
unfolding split_dot
split_dot-IsSplit [] = inl refl
split_dot-IsSplit (c ∷ token) = elim (Bool-cases (nat_beq c dot)) [
  | inl is ↦ inr (
    [],
    token,
    record {
      splits = rw is refl;
      parts = ap (λ d. d ∷ token) ((nat_beq_iff c dot).0 is);
      no_dot = tt;
    },
  )
  | inr not_dot ↦ elim (split_dot-IsSplit token) [
    | inl none_left ↦ inl (rw (not_dot, none_left) refl)
    | inr (body, sig, later) ↦ inr (
      c ∷ body,
      sig,
      record {
        splits = rw (not_dot, later.splits) refl;
        parts = ap (λ t. c ∷ t) later.parts;
        no_dot = (ground (arith, nat_beq_iff c dot), later.no_dot);
      },
    )
  ]
]

module _ (hmac : Hmac) (secret : List ℕ) where
  -- A token opens exactly when it is a body without a dot, a dot, and the signature of that body, and
  -- the body decodes; what is opened is the decoded body.
  pub open_token_iff :
      (token payload : List ℕ)
      → (open_token hmac secret token ≡ inr payload) ↔ (
          (body : List ℕ) × (token ≡ body ++ dot ∷ signature hmac secret body)
          × All (λ c. c ≢ dot) body
          × (Base64.decode body ≡ some payload))
  open_token_iff token payload = (
    λ h. elim (split_dot-IsSplit token) [
      | inl no_dot ↦ absurd (not_opened token no_dot h)
      | inr (body, sig, is) ↦
          let (same, decoded) = opened token body sig is.splits h in
          (body, is.parts ∙ ap (λ s. body ++ dot ∷ s) same, is.no_dot, decoded)
    ],
    λ (body, parts, no_dot, decoded).
        rw parts (opens body (split_dot-append body (signature hmac secret body) no_dot) decoded),
  )
    where
      not_opened :
          (token : List ℕ) → split_dot token ≡ none → open_token hmac secret token ≡ inr payload → ⊥
      not_opened token none_left h = unfold open_token in ground arith

      opened :
          (token body sig : List ℕ)
          → split_dot token ≡ some (body, sig)
          → open_token hmac secret token ≡ inr payload
          → (sig ≡ signature hmac secret body) × (Base64.decode body ≡ some payload)
      opened token body sig splits h =
          unfold open_token in ground (arith, bytes_equal_iff (signature hmac secret body) sig)

      opens :
          (body : List ℕ)
          → split_dot (body ++ dot ∷ signature hmac secret body)
            ≡ some (body, signature hmac secret body)
          → Base64.decode body ≡ some payload
          → open_token hmac secret (body ++ dot ∷ signature hmac secret body) ≡ inr payload
      opens body splits decoded =
          unfold open_token in
          ground (arith, bytes_equal_iff (signature hmac secret body) (signature hmac secret body))

  pub open_token-seal :
      (payload : List ℕ)
      → AreBytes payload
      → open_token hmac secret (seal hmac secret payload) ≡ inr payload
  unfolding seal
  open_token-seal payload h =
      let body = Base64.encode payload in
      (open_token_iff (body ++ dot ∷ signature hmac secret body) payload).1
        (body, refl, Base64.encode-All payload h, Base64.decode-encode payload h)
