-- ===== src/Accounts.antt =====
-- Accounts: Signup, VerifyEmail, ResendVerification, Forgot and Reset of internal/web/handlers.go, with
-- the statements of internal/store (users, tenants, memberships and the two tables of tokens). A
-- token's row stands under its hash, which is unique. Parameters: the hashes of tokens and passwords,
-- and the number of bytes of a text. Mails go out. Fresh identifiers are counted up.
pub mod Slug
pub mod Reset
pub mod Journey
pub mod Entry
mod Tests
use shopify_gmc.Base.{
  ℕ, suc, ◌+◌, ◌*◌, String, Bool, true, false, not, Option, none, some, List, [], ◌∷◌, ◌++◌, ◌==◌,
  nat_eq, string_eq, if◌then◌else◌, is_some, ltb, any, map, ◌&&◌, ◌||◌,
}
use shopify_gmc.Base.Table.{Table, lookup, insert, modify}
use shopify_gmc.Base.Text.{codes, codes_beq, lower_code}
use shopify_gmc.Access.{Membership}
use shopify_gmc.Members.{insert_member}
use shopify_gmc.Accounts.Slug.{slugify}

pub record User : Type 0 where
  pub email : String
  pub name : Option String
  pub password_hash : String
  pub email_verified_at : Option ℕ
  pub default_tenant_id : Option ℕ

-- A row of password_reset_tokens or of email_verification_tokens.
pub record Token : Type 0 where
  pub user_id : ℕ
  pub expires_at : ℕ
  pub consumed_at : Option ℕ

pub record TenantRow : Type 0 where
  pub name : List ℕ
  pub slug : List ℕ

pub record Mail : Type 0 where
  pub to : String
  pub link_token : String

pub record State : Type 0 where
  pub users : Table ℕ User
  pub tenants : Table ℕ TenantRow
  pub members : List Membership
  pub verifications : Table String Token
  pub resets : Table String Token
  pub mails : List Mail
  pub free : ℕ

pub record Params : Type 0 where
  pub token_hash : String → String
  pub hash_password : String → String
  pub byte_length : String → ℕ

abbrev pub hour : ℕ
hour = 3600

pub data Answer : Type 0 where
  bad_fields email_taken slug_taken failed created : Answer
  bad_link verified : Answer
  sent : Answer
  mismatched too_short reset_done : Answer

-- GetActiveByTokenHash: WHERE token_hash = $1 AND expires_at > $2 AND consumed_at IS NULL.
abbrev pub if_usable : ℕ → Option Token → Option Token
if_usable now none = none
if_usable now (some t) =
    if ltb now t.expires_at && not (is_some t.consumed_at) then some t else none

unfoldable pub get_active : ℕ → String → Table String Token → Option Token
get_active now hash tokens = if_usable now (lookup hash tokens)

-- Consume, of a row that is not consumed.
abbrev pub consume : ℕ → String → Table String Token → Table String Token
consume now hash = modify hash (λ t. record t { consumed_at = some now })

-- INSERT of a token; `none` where its hash is in use.
abbrev pub insert_token : String → Token → Table String Token → Option (Table String Token)
insert_token hash t tokens = elim (lookup hash tokens) [
  | some old ↦ none
  | none ↦ some (insert hash t tokens)
]

-- Users.GetByEmail.
abbrev pub when_found : ℕ × User → Bool → Option (ℕ × User) → Option (ℕ × User)
when_found e true rest = some e
when_found e false rest = rest

unfoldable pub get_by_email : String → Table ℕ User → Option (ℕ × User)
get_by_email email [] = none
get_by_email email (e ∷ users) = when_found e (e.1.email == email) (get_by_email email users)

-- The fields of a sign-up, trimmed, with the name and the address in their normal form; the name of
-- the workspace and the ends of the slug and of the link are given.
pub record Form : Type 0 where
  pub name : String
  pub email : String
  pub password : String
  pub workspace : List ℕ
  pub slug_end : List ℕ
  pub fallback : List ℕ
  pub token : String

module _ (k : Params) where
  -- The transaction of `VerifyEmail`: none of it is kept where a statement fails.
  abbrev pub mark_verified : ℕ → String → Option Token → State → Answer × State
  mark_verified now hash none st = (bad_link, st)
  mark_verified now hash (some t) st = elim (lookup t.user_id st.users) [
    | none ↦ (bad_link, st)
    | some u ↦ (
      verified,
      record st {
        verifications = consume now hash st.verifications;
        users = modify t.user_id (λ u. record u { email_verified_at = some now }) st.users;
      },
    )
  ]

  unfoldable pub verify_email : ℕ → String → State → Answer × State
  verify_email now token st =
      mark_verified now (k.token_hash token) (get_active now (k.token_hash token) st.verifications)
        st

  -- A row that is inserted, and then the mail with its token, where it goes out.
  abbrev mailed : String → String → State → State
  mailed to token st = record st { mails = record { to = to; link_token = token } ∷ st.mails }

  abbrev pub verification_for : ℕ → ℕ → Token
  verification_for now user = record {
    user_id = user;
    expires_at = now + 24 * hour;
    consumed_at = none;
  }

  abbrev resend_to : ℕ → String → Option (ℕ × User) → State → State
  resend_to now token none st = st
  resend_to now token (some (id, u)) st =
      if is_some u.email_verified_at
      then st
      else elim (insert_token (k.token_hash token) (verification_for now id) st.verifications) [
        | none ↦ st
        | some tokens ↦ mailed u.email token (record st { verifications = tokens })
      ]

  -- `ResendVerification`, with the token that is drawn; the answer is the same in every case.
  unfoldable pub resend_verification : ℕ → String → String → State → Answer × State
  resend_verification now email token st =
      (sent, resend_to now token (get_by_email email st.users) st)

  abbrev pub reset_for : ℕ → ℕ → Token
  reset_for now user = record { user_id = user; expires_at = now + hour; consumed_at = none }

  abbrev forgot_of : ℕ → String → Option (ℕ × User) → State → State
  forgot_of now token none st = st
  forgot_of now token (some (id, u)) st =
      elim (insert_token (k.token_hash token) (reset_for now id) st.resets) [
        | none ↦ st
        | some tokens ↦ mailed u.email token (record st { resets = tokens })
      ]

  -- `Forgot`.
  unfoldable pub forgot : ℕ → String → String → State → Answer × State
  forgot now email token st = (sent, forgot_of now token (get_by_email email st.users) st)

  -- The transaction of `Reset`.
  abbrev reset_with : ℕ → String → String → Option Token → State → Answer × State
  reset_with now hash new_hash none st = (bad_link, st)
  reset_with now hash new_hash (some t) st = elim (lookup t.user_id st.users) [
    | none ↦ (bad_link, st)
    | some u ↦ (
      reset_done,
      record st {
        users = modify t.user_id (λ u. record u { password_hash = new_hash }) st.users;
        resets = consume now hash st.resets;
      },
    )
  ]

  unfoldable pub reset : ℕ → String → String → String → State → Answer × State
  reset now token password confirm st =
      if not (password == confirm)
      then (mismatched, st)
      else if ltb (k.byte_length password) 12
      then (too_short, st)
      else reset_with now (k.token_hash token) (k.hash_password password)
          (get_active now (k.token_hash token) st.resets) st

  abbrev pub new_slug : Form → List ℕ
  new_slug f = slugify f.workspace f.fallback ++ b'-' ∷ f.slug_end

  abbrev pub same_text : List ℕ → List ℕ → Bool
  same_text a b = codes_beq (map lower_code a) (map lower_code b)

  abbrev pub slug_used : List ℕ → Table ℕ TenantRow → Bool
  slug_used slug = any (λ e. same_text e.1.slug slug)

  abbrev pub new_user : ℕ → Form → User
  new_user tenant f = record {
    email = f.email;
    name = some f.name;
    password_hash = k.hash_password f.password;
    email_verified_at = none;
    default_tenant_id = some tenant;
  }

  abbrev pub add_owner :
      ℕ → Form → State → Option (List Membership) → Option (Table String Token) → Answer × State
  add_owner now f st (some members) (some tokens) = (
    created,
    mailed f.email f.token (record st {
      tenants = st.tenants ++ (st.free, record { name = f.workspace; slug = new_slug f }) ∷ [];
      users = st.users ++ (suc st.free, new_user st.free f) ∷ [];
      members = members;
      verifications = tokens;
      free = suc (suc st.free);
    }),
  )
  add_owner now f st _ _ = (failed, st)

  -- The transaction of `Signup`, and the mail.
  abbrev pub sign_up_in : ℕ → Form → State → Answer × State
  sign_up_in now f st =
      if slug_used (new_slug f) st.tenants
      then (slug_taken, st)
      else if is_some (get_by_email f.email st.users)
      then (email_taken, st)
      else add_owner now f st
          (insert_member (record { tenant_id = st.free; user_id = suc st.free; role = "owner" })
            st.members)
          (insert_token (k.token_hash f.token) (verification_for now (suc st.free))
            st.verifications)

  unfoldable pub signup : ℕ → Form → State → Answer × State
  signup now f st =
      if f.name == "" || f.email == "" || ltb (k.byte_length f.password) 12
      then (bad_fields, st)
      else sign_up_in now f st
