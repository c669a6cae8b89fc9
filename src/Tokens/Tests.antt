-- ===== src/Tokens/Tests.antt =====
-- A signed state, and the theorems of the tokens at it.
use shopify_gmc.Base.{ℕ, ◌≡◌, ◌≢◌, ◌↔◌, inr, false, Option, none, some, List, [], ◌∷◌, ◌++◌, All}
use shopify_gmc.Base.Base64
use shopify_gmc.Tokens.{
  Hmac, dot, signature, OauthState, Json, is_expired, sign_oauth_state, verify_oauth_state,
}
use shopify_gmc.Tokens.Laws.{verify_oauth_state_iff}

abbrev toy_hmac : Hmac
toy_hmac [] body = body
toy_hmac (b ∷ secret) body = b ∷ toy_hmac secret body

abbrev signed : OauthState
signed = record {
  session_id = "s";
  tenant_id = 1;
  store_id = 2;
  user_id = 3;
  nonce = "n";
  issued_at = 100;
}

-- JSON that tells the time of issue only.
abbrev read_time : List ℕ → Option OauthState
read_time [] = none
read_time (time ∷ bytes) = some (record signed { issued_at = time })

abbrev json : Json OauthState
json = record { marshal = λ st. st.issued_at ∷ []; unmarshal = read_time }

abbrev secret : List ℕ
secret = 9 ∷ []

verify_oauth_state_iff_example :
    let token = sign_oauth_state toy_hmac json 100000000000 "x" secret signed in
    (verify_oauth_state toy_hmac json 200000000000 secret token ≡ inr signed) ↔ (
      (body : List ℕ) × (payload : List ℕ) × (token ≡ body ++ dot ∷ signature toy_hmac secret body)
      × All (λ c. c ≢ dot) body
      × (Base64.decode body ≡ some payload)
      × (read_time payload ≡ some signed)
      × (is_expired 200000000000 signed ≡ false))
verify_oauth_state_iff_example =
    verify_oauth_state_iff toy_hmac json 200000000000 secret
      (sign_oauth_state toy_hmac json 100000000000 "x" secret signed) signed
