-- ===== src/Tokens/Laws.antt =====
-- Tokens that are signed and verified (internal/gmc/state.go, internal/monitoring/dispatcher.go).
use shopify_gmc.Base.{
  ℕ, ◌≡◌, ◌≢◌, ◌↔◌, ◌⊎◌, inl, inr, refl, sym, ap, ◌∙◌, String, true, false, Option, none, some,
  List, ◌∷◌, ◌++◌, if◌then◌else◌, All, arith, Bool-cases,
}
use shopify_gmc.Base.Bytes.{AreBytes}
use shopify_gmc.Base.Base64
use shopify_gmc.Tokens.{
  Hmac, TokenError, expired, dot, signature, open_token, OauthState, Json, filled, sign_oauth_state,
  is_expired, check_state, read_state, read_unsubscription, verify_oauth_state, Uuids, UnsubPayload,
  Unsubscription, unsub_payload, sign_unsubscribe, read_payload, verify_unsubscribe,
}
use shopify_gmc.Tokens.Open.{open_token_iff, open_token-seal}

-- A state that is signed comes back, with the fields that the signing fills in, until ten minutes
-- have passed since it was issued, and is refused as expired from then on, for a payload that JSON
-- gives back.
pub verify_oauth_state-sign_oauth_state :
    (hmac : Hmac) (json : Json OauthState) (now later : ℕ) (drawn : String) (secret : List ℕ)
    (st : OauthState)
    → AreBytes (json.marshal (filled now drawn st))
    → json.unmarshal (json.marshal (filled now drawn st)) ≡ some (filled now drawn st)
    → verify_oauth_state hmac json later secret (sign_oauth_state hmac json now drawn secret st)
      ≡ (if is_expired later (filled now drawn st) then inl expired else inr (filled now drawn st))
unfolding verify_oauth_state sign_oauth_state
verify_oauth_state-sign_oauth_state hmac json now later drawn secret st bytes back =
    ap (read_state json later)
      (open_token-seal hmac secret (json.marshal (filled now drawn st)) bytes)
    ∙ ap (check_state later) back

check_state-inr :
    (now : ℕ) (o : Option OauthState) (st : OauthState)
    → check_state now o ≡ inr st
    → (o ≡ some st) × (is_expired now st ≡ false)
check_state-inr now none st h = absurd cc
check_state-inr now (some s) st h = elim (Bool-cases (is_expired now s)) [
  | inl old ↦ absurd (refused old h)
  | inr young ↦ let same : s ≡ st = accepted young h in (ap some same, rw (← same) young)
]
  where
    refused : is_expired now s ≡ true → check_state now (some s) ≡ inr st → ⊥
    refused old h = ground arith

    accepted : is_expired now s ≡ false → check_state now (some s) ≡ inr st → s ≡ st
    accepted young h = ground arith

-- Only what was signed is accepted: a state is accepted exactly when the token is a body without a
-- dot and the signature of that body under the secret, the body decodes to JSON of the state, and the
-- state is not older than ten minutes.
pub verify_oauth_state_iff :
    (hmac : Hmac) (json : Json OauthState) (now : ℕ) (secret token : List ℕ) (st : OauthState)
    → (verify_oauth_state hmac json now secret token ≡ inr st) ↔ (
        (body : List ℕ) × (payload : List ℕ) × (token ≡ body ++ dot ∷ signature hmac secret body)
        × All (λ c. c ≢ dot) body
        × (Base64.decode body ≡ some payload)
        × (json.unmarshal payload ≡ some st)
        × (is_expired now st ≡ false))
verify_oauth_state_iff hmac json now secret token st = (
  λ h.
      let (payload, opens, read) = opened (open_token hmac secret token) refl h in
      let (body, parts, no_dot, decoded) = (open_token_iff hmac secret token payload).0 opens in
      let (unmarshalled, young) = check_state-inr now (json.unmarshal payload) st read in
      (body, payload, parts, no_dot, decoded, unmarshalled, young),
  λ (body, payload, parts, no_dot, decoded, unmarshalled, young).
      accepts payload ((open_token_iff hmac secret token payload).1 (body, parts, no_dot, decoded))
        unmarshalled young,
)
  where
    refused : {error : TokenError} → inl error ≡ inr st → ⊥
    refused h = cc

    as_read :
        verify_oauth_state hmac json now secret token ≡ inr st
        → read_state json now (open_token hmac secret token) ≡ inr st
    as_read h = unfold verify_oauth_state in h

    opened :
        (r : TokenError ⊎ List ℕ)
        → open_token hmac secret token ≡ r
        → verify_oauth_state hmac json now secret token ≡ inr st
        → (payload : List ℕ) × (open_token hmac secret token ≡ inr payload)
          × (check_state now (json.unmarshal payload) ≡ inr st)
    opened (inl error) e h = absurd (refused (sym (ap (read_state json now) e) ∙ as_read h))
    opened (inr payload) e h = (payload, e, sym (ap (read_state json now) e) ∙ as_read h)

    accepts :
        (payload : List ℕ)
        → open_token hmac secret token ≡ inr payload
        → json.unmarshal payload ≡ some st
        → is_expired now st ≡ false
        → verify_oauth_state hmac json now secret token ≡ inr st
    accepts payload e u young =
        unfold verify_oauth_state in
        ap (read_state json now) e ∙ ap (check_state now) u ∙ rw young refl

-- The link to unsubscribe gives back what it was signed for.
pub verify_unsubscribe-sign_unsubscribe :
    (hmac : Hmac) (json : Json UnsubPayload) (uuids : Uuids) (secret : List ℕ) (u : Unsubscription)
    → AreBytes (json.marshal (unsub_payload uuids u))
    → json.unmarshal (json.marshal (unsub_payload uuids u)) ≡ some (unsub_payload uuids u)
    → uuids.parse (uuids.print u.subscription_id) ≡ some u.subscription_id
    → uuids.parse (uuids.print u.user_id) ≡ some u.user_id
    → verify_unsubscribe hmac json uuids secret (sign_unsubscribe hmac json uuids secret u) ≡ inr u
unfolding verify_unsubscribe sign_unsubscribe
verify_unsubscribe-sign_unsubscribe hmac json uuids secret u bytes back sub user =
    ap (read_unsubscription json uuids)
      (open_token-seal hmac secret (json.marshal (unsub_payload uuids u)) bytes)
    ∙ ap (read_payload uuids) back
    ∙ rw (sub, user) refl
