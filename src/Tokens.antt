-- ===== src/Tokens.antt =====
-- The signed tokens of internal/gmc/state.go (the `state` of the Google sign-in) and of
-- internal/monitoring/dispatcher.go (the links to unsubscribe): base64url(body) "." base64url(hmac).
-- HMAC-SHA256, encoding/json on the two payloads and the texts of UUIDs are parameters. A time is a
-- number of nanoseconds.
pub mod Open
pub mod Laws
mod Tests
use shopify_gmc.Base.{
  ℕ, ◌+◌, ◌-◌, ◌*◌, ◌/◌, String, Bool, true, false, not, Option, none, some, List, [], ◌∷◌, ◌++◌,
  ◌==◌, nat_eq, string_eq, if◌then◌else◌, ltb, nat_beq, default, ◌⊎◌, inl, inr,
}
use shopify_gmc.Base.Bytes.{bytes_equal}
use shopify_gmc.Base.Base64

abbrev pub Hmac : Type 0
Hmac = List ℕ → List ℕ → List ℕ

pub data TokenError : Type 0 where
  malformed bad_signature undecodable unreadable expired : TokenError

abbrev pub dot : ℕ
dot = b'.'

abbrev cons_before : ℕ → Option (List ℕ × List ℕ) → Option (List ℕ × List ℕ)
cons_before c none = none
cons_before c (some (body, sig)) = some (c ∷ body, sig)

-- What stands before and after the first dot.
pub split_dot : List ℕ → Option (List ℕ × List ℕ)
split_dot [] = none
split_dot (c ∷ token) =
    let rest = split_dot token in if nat_beq c dot then some ([], token) else cons_before c rest

-- The signature of a body that is encoded already.
abbrev pub signature : Hmac → List ℕ → List ℕ → List ℕ
signature hmac secret body = Base64.encode (hmac secret body)

unfoldable pub seal : Hmac → List ℕ → List ℕ → List ℕ
seal hmac secret payload =
    let body = Base64.encode payload in body ++ dot ∷ signature hmac secret body

unfoldable pub open_token : Hmac → List ℕ → List ℕ → TokenError ⊎ List ℕ
open_token hmac secret token = elim (split_dot token) [
  | none ↦ inl malformed
  | some (body, sig) ↦
      if not (bytes_equal (signature hmac secret body) sig)
      then inl bad_signature
      else elim (Base64.decode body) [ none ↦ inl undecodable | some payload ↦ inr payload ]
]

pub record OauthState : Type 0 where
  pub session_id : String
  pub tenant_id : ℕ
  pub store_id : ℕ
  pub user_id : ℕ
  pub nonce : String
  pub issued_at : ℕ

-- `json.Marshal` and `json.Unmarshal` on a payload.
pub record Json (A : Type 0) : Type 0 where
  pub marshal : A → List ℕ
  pub unmarshal : List ℕ → Option A

abbrev pub second : ℕ
second = 1000000000

abbrev pub state_ttl : ℕ
state_ttl = 600 * second

-- The fields that are filled in, with the nonce that is drawn.
abbrev pub filled : ℕ → String → OauthState → OauthState
filled now drawn st = record st {
  issued_at = if st.issued_at == 0 then now / second else st.issued_at;
  nonce = if st.nonce == "" then drawn else st.nonce;
}

unfoldable pub sign_oauth_state : Hmac → Json OauthState → ℕ → String → List ℕ → OauthState → List ℕ
sign_oauth_state hmac json now drawn secret st =
    seal hmac secret (json.marshal (filled now drawn st))

-- Is the state older than the time to live; one from the future is not.
abbrev pub is_expired : ℕ → OauthState → Bool
is_expired now st = ltb state_ttl (now - st.issued_at * second)

abbrev pub check_state : ℕ → Option OauthState → TokenError ⊎ OauthState
check_state now none = inl unreadable
check_state now (some st) = if is_expired now st then inl expired else inr st

abbrev pub read_state : Json OauthState → ℕ → TokenError ⊎ List ℕ → TokenError ⊎ OauthState
read_state json now (inl error) = inl error
read_state json now (inr payload) = check_state now (json.unmarshal payload)

unfoldable pub verify_oauth_state :
    Hmac → Json OauthState → ℕ → List ℕ → List ℕ → TokenError ⊎ OauthState
verify_oauth_state hmac json now secret token = read_state json now (open_token hmac secret token)

pub record UnsubPayload : Type 0 where
  pub subscription : String
  pub user : String
  pub trigger : String

-- `uuid.UUID.String` and `uuid.Parse`; a text that does not parse counts as the zero UUID.
pub record Uuids : Type 0 where
  pub print : ℕ → String
  pub parse : String → Option ℕ

pub record Unsubscription : Type 0 where
  pub subscription_id : ℕ
  pub user_id : ℕ
  pub trigger : String

abbrev pub unsub_payload : Uuids → Unsubscription → UnsubPayload
unsub_payload uuids u = record {
  subscription = uuids.print u.subscription_id;
  user = uuids.print u.user_id;
  trigger = u.trigger;
}

unfoldable pub sign_unsubscribe :
    Hmac → Json UnsubPayload → Uuids → List ℕ → Unsubscription → List ℕ
sign_unsubscribe hmac json uuids secret u = seal hmac secret (json.marshal (unsub_payload uuids u))

abbrev pub read_payload : Uuids → Option UnsubPayload → TokenError ⊎ Unsubscription
read_payload uuids none = inl unreadable
read_payload uuids (some p) = inr (record {
  subscription_id = default (uuids.parse p.subscription) 0;
  user_id = default (uuids.parse p.user) 0;
  trigger = p.trigger;
})

abbrev pub read_unsubscription :
    Json UnsubPayload → Uuids → TokenError ⊎ List ℕ → TokenError ⊎ Unsubscription
read_unsubscription json uuids (inl error) = inl error
read_unsubscription json uuids (inr payload) = read_payload uuids (json.unmarshal payload)

unfoldable pub verify_unsubscribe :
    Hmac → Json UnsubPayload → Uuids → List ℕ → List ℕ → TokenError ⊎ Unsubscription
verify_unsubscribe hmac json uuids secret token =
    read_unsubscription json uuids (open_token hmac secret token)
