-- ===== src/Login/Tests.antt =====
-- A login and a logout at a concrete state, and their theorems there.
use shopify_gmc.Base.{
  ℕ, ◌+◌, ◌≡◌, ◌≢◌, refl, String, true, false, none, some, [], ◌∷◌, string_eq, nat_eq, ==_iff, ltb,
  if◌then◌else◌, arith, ◌==◌,
}
use shopify_gmc.Base.Text.{starts_with}
use shopify_gmc.Base.Table.{lookup}
use shopify_gmc.LoginLimiter
use shopify_gmc.Sessions.{MemSessionDb, create, get}
use shopify_gmc.Sessions.Laws.{IsCoherent}
use shopify_gmc.Login.{
  Account, State, Form, Params, login, logout, safe_login_next, redirect, first_slug,
}
use shopify_gmc.Login.Laws.{IsSignedIn, login_signs_in, login-logout}

abbrev params : Params
params = record {
  normal = λ s. s;
  verify = λ password hashed. password == hashed;
  hash = λ token. token;
  ttl = 60;
  encode = λ cookie. some cookie.token;
  decode = λ value. some (record { session_id = 5; token = value });
}

abbrev no_sessions : MemSessionDb
no_sessions = record { free = 0; rows = []; by_hash = []; by_id = [] }

abbrev ada : Account
ada = record {
  id = 1;
  password_hash = "pw";
  email_verified_at = some 3;
  default_tenant_id = some 9;
}

abbrev start : State
start = record {
  limiter = [];
  sessions = no_sessions;
  accounts = ("ada@example.com", ada) ∷ [];
  slugs = (9, "acme") ∷ [];
  members = [];
}

abbrev form : Form
form = record {
  email = "ada@example.com";
  password = "pw";
  next = "//evil.example";
  ip = "10.0.0.1";
  agent = "";
}

abbrev token : String
token = "t0k"

named : token ≢ ""
named e = not_true ((==_iff token "").1 e)
  where
    not_true : false ≡ true → ⊥
    not_true h = cc

signed_in : (login params true 5 token 100 form start).1.cookie ≡ some "t0k"
unfolding login LoginLimiter.check lookup
signed_in = refl

-- The address of another site is not followed.
led_home : (login params true 5 token 100 form start).1.page ≡ redirect "/t/acme"
unfolding login LoginLimiter.check lookup safe_login_next first_slug starts_with
led_home = refl

login_signs_in_example :
    (u : Account) × IsSignedIn params true 5 token 100 form start
      (login params true 5 token 100 form start).0
      u
      "t0k"
    × (get params.hash params.ttl token 159 (login params true 5 token 100 form start).0.sessions
        ≡ (if ltb 159 (100 + 60)
            then some
                (create params.hash params.ttl 5 token 100 u.id form.ip form.agent start.sessions).0
            else none))
login_signs_in_example = login_signs_in params true 5 token 100 form start "t0k" 159 named signed_in

no_sessions-IsCoherent : IsCoherent no_sessions
unfolding lookup
no_sessions-IsCoherent = record {
  owned = λ h p row known held. absurd cc;
  bounded = λ h p known. absurd cc;
}

unused : lookup {K = ℕ} {V = ℕ} 5 [] ≡ none
unfolding lookup
unused = refl

login-logout_example :
    get params.hash params.ttl token 130
      (logout params 120 (some "t0k") (login params true 5 token 100 form start).0).0.sessions
    ≡ none
login-logout_example =
    login-logout params true 5 token 100 form start "t0k" 120 130 (omega arith) named
      no_sessions-IsCoherent unused refl signed_in

-- A backslash after the slash passes; browsers read it as a second slash.
led_astray : safe_login_next "/\\evil.example" ≡ "/\\evil.example"
unfolding safe_login_next starts_with
led_astray = refl
