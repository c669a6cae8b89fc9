-- ===== src/Accounts/Tests.antt =====
-- A sign-up, its confirmation, a reset and the logins at a concrete state.
use shopify_gmc.Base.{
  ℕ, ◌≡◌, refl, true, none, some, [], ◌∷◌, string_eq, nat_eq, arith, ◌==◌, if◌then◌else◌,
}
use shopify_gmc.Base.Text.{lower_code}
use shopify_gmc.Base.Table.{lookup, IsKeyed}
use shopify_gmc.LoginLimiter
use shopify_gmc.Login
use shopify_gmc.Login.{login, pending}
use shopify_gmc.Members.{insert_member, owners}
use shopify_gmc.Accounts.{
  User, Token, State, Params, Form, created, verified, reset_done, signup, verify_email, reset,
  get_active, get_by_email,
}
use shopify_gmc.Accounts.Slug.{slugify}
use shopify_gmc.Accounts.Reset.{reset_once}
use shopify_gmc.Accounts.Journey.{with_users}
use shopify_gmc.Accounts.Entry.{signup-verify-login, reset-login}

abbrev params : Params
params = record { token_hash = λ s. s; hash_password = λ s. s; byte_length = λ s. 12 }

abbrev empty : State
empty = record {
  users = [];
  tenants = [];
  members = [];
  verifications = [];
  resets = [];
  mails = [];
  free = 1;
}

abbrev form : Form
form = record {
  name = "Ada";
  email = "ada@example.com";
  password = "a long password";
  workspace = b'A' ∷ b'c' ∷ b' ' ∷ b'!' ∷ [];
  slug_end = b'x' ∷ [];
  fallback = [];
  token = "t0k";
}

signs_up : (signup params 100 form empty).0 ≡ created
unfolding signup insert_member owners lookup get_by_email
signs_up = refl

slug_of : slugify form.workspace form.fallback ≡ b'a' ∷ b'c' ∷ []
unfolding slugify lower_code
slug_of = refl

abbrev login_params : Login.Params
login_params = record {
  normal = λ s. s;
  verify = λ password hashed. password == hashed;
  hash = λ token. token;
  ttl = 60;
  encode = λ cookie. some cookie.token;
  decode = λ value. none;
}

abbrev login_form : Login.Form
login_form = record {
  email = "ada@example.com";
  password = "a long password";
  next = "";
  ip = "10.0.0.1";
  agent = "";
}

abbrev login_state : Login.State
login_state = record {
  limiter = [];
  sessions = record { free = 0; rows = []; by_hash = []; by_id = [] };
  accounts = [];
  slugs = [];
  members = [];
}

admits : (LoginLimiter.check login_state.limiter 5000 "10.0.0.1").1.1 ≡ true
unfolding LoginLimiter.check lookup
admits = refl

fresh : lookup {K = ℕ} {V = User} 2 [] ≡ none
unfolding lookup
fresh = refl

signup-verify-login_example :
    let after = (signup params 100 form empty).1 in
    let confirmed = verify_email params 200 form.token after in
    ((login login_params true 5 "s" 5000 login_form (with_users login_state after.users)).1
      ≡ record { page = pending; cookie = none })
    × (confirmed.0 ≡ verified)
    × ((login login_params true 5 "s" 5000 login_form
          (with_users login_state confirmed.1.users)).1.cookie
        ≡ some "s")
signup-verify-login_example =
    signup-verify-login params 100 form empty 200 login_params 5 "s" 5000 login_form login_state "s"
      tt fresh signs_up (omega arith) refl refl admits refl

abbrev ada : User
ada = record {
  email = "ada@example.com";
  name = none;
  password_hash = "old";
  email_verified_at = some 3;
  default_tenant_id = none;
}

abbrev link : Token
link = record { user_id = 2; expires_at = 500; consumed_at = none }

abbrev forgotten : State
forgotten = record empty { users = (2, ada) ∷ []; resets = ("r", link) ∷ [] }

resets_password :
    (reset params 400 "r" "a long password" "a long password" forgotten).0 ≡ reset_done
unfolding reset get_active lookup
resets_password = refl

reset_once_example :
    (get_active 450 "r"
        (reset params 400 "r" "a long password" "a long password" forgotten).1.resets
      ≡ none)
    × ((reset params 450 "r" "other" "other"
          (reset params 400 "r" "a long password" "a long password" forgotten).1).1
        ≡ (reset params 400 "r" "a long password" "a long password" forgotten).1)
reset_once_example =
    reset_once params 400 "r" "a long password" "a long password" forgotten 450 "other" "other"
      resets_password

forgotten-IsKeyed : IsKeyed forgotten.users
forgotten-IsKeyed = unfold lookup in (refl, tt)

active : get_active 400 "r" forgotten.resets ≡ some link
unfolding get_active lookup
active = refl

by_address : get_by_email ada.email forgotten.users ≡ some (2, ada)
unfolding get_by_email
by_address = refl

reset-login_example :
    (login login_params true 5 "s" 5000 login_form (
      with_users login_state
        (reset params 400 "r" "a long password" "a long password" forgotten).1.users)).1.cookie
    ≡ (if login_params.verify "a long password" "a long password" then some "s" else none)
reset-login_example =
    reset-login params 400 "r" "a long password" forgotten link ada login_params 5 "s" 5000
      login_form login_state "s" forgotten-IsKeyed active by_address refl refl refl admits refl
