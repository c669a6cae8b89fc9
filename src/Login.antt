-- ===== src/Login.antt =====
-- Signing in and out: Login, safeLoginNext, firstSlug and Logout of internal/web/handlers.go, over the
-- limiter and the session store. Parameters: argon2 behind auth.VerifyPassword, securecookie, the trim
-- and the lower case of an address, and what the session table and the cookie's encoder answer.
mod Laws
mod Tests
use shopify_gmc.Base.{
  ℕ, String, Bool, true, false, not, Option, none, some, List, [], ◌∷◌, ◌==◌, nat_eq, string_eq,
  if◌then◌else◌, is_some, ltb, nat_beq, ◌&&◌, ◌||◌,
}
use shopify_gmc.Base.Table.{Table, lookup}
use shopify_gmc.Base.Text.{append_text, has_prefix}
use shopify_gmc.LoginLimiter
use shopify_gmc.LoginLimiter.{Limiter, Answer}
use shopify_gmc.Sessions.{Session, MemSessionDb}
use shopify_gmc.Sessions

-- The rows that signing in reads, of users by address, of tenants and of memberships.
pub record Account : Type 0 where
  pub id : ℕ
  pub password_hash : String
  pub email_verified_at : Option ℕ
  pub default_tenant_id : Option ℕ

pub record MemberRow : Type 0 where
  pub tenant_id : ℕ
  pub user_id : ℕ
  pub created_at : ℕ

pub record State : Type 0 where
  pub limiter : Limiter
  pub sessions : MemSessionDb
  pub accounts : Table String Account
  pub slugs : Table ℕ String
  pub members : List MemberRow

pub record Form : Type 0 where
  pub email : String
  pub password : String
  pub next : String
  pub ip : String
  pub agent : String

-- `auth.SessionCookie`.
pub record SessionCookie : Type 0 where
  pub session_id : ℕ
  pub token : String

pub data Page : Type 0 where
  too_many : ℕ → Page
  invalid pending failed : Page
  redirect : String → Page

-- The page, and the session cookie that is set.
pub record Reply : Type 0 where
  pub page : Page
  pub cookie : Option String

pub record Params : Type 0 where
  pub normal : String → String
  pub verify : String → String → Bool
  pub hash : String → String
  pub ttl : ℕ
  pub encode : SessionCookie → Option String
  pub decode : String → Option SessionCookie

unfoldable pub safe_login_next : String → String
safe_login_next raw =
    if raw == ""
    then ""
    else if not (has_prefix raw "/") || has_prefix raw "//"
    then ""
    else if has_prefix raw "/login" || has_prefix raw "/logout"
    then ""
    else raw

-- ORDER BY m.created_at LIMIT 1, over the memberships of a user whose tenant exists.
abbrev pub earlier : MemberRow → Option MemberRow → Option MemberRow
earlier m none = some m
earlier m (some n) = if ltb n.created_at m.created_at then some n else some m

pub earliest : ℕ → Table ℕ String → List MemberRow → Option MemberRow
earliest user slugs [] = none
earliest user slugs (m ∷ ms) =
    let rest = earliest user slugs ms in
    if m.user_id == user && is_some (lookup m.tenant_id slugs) then earlier m rest else rest

abbrev pub slug_at : Table ℕ String → Option ℕ → String
slug_at slugs none = ""
slug_at slugs (some id) = elim (lookup id slugs) [ none ↦ "" | some slug ↦ slug ]

abbrev pub member_slug : Table ℕ String → Option MemberRow → String
member_slug slugs none = ""
member_slug slugs (some m) = slug_at slugs (some m.tenant_id)

unfoldable pub first_slug : Account → State → String
first_slug u st =
    let preferred = slug_at st.slugs u.default_tenant_id in
    if preferred == "" then member_slug st.slugs (earliest u.id st.slugs st.members) else preferred

abbrev pub reply : Page → Reply
reply p = record { page = p; cookie = none }

-- Where a login leads to.
abbrev pub destination : Form → Account → State → String
destination f u st =
    let next = safe_login_next f.next in
    if next == ""
    then (let slug = first_slug u st in if slug == "" then "/" else append_text "/t/" slug)
    else next

module _ (k : Params) where
  abbrev pub count_failure : ℕ → Form → State → State × Reply
  count_failure now f st =
      (record st { limiter = LoginLimiter.record_failure st.limiter now f.ip }, reply invalid)

  -- After `Create`: the cookie is written and the address is forgiven.
  abbrev pub finish : Form → Account → State → Option String → State × Reply
  finish f u st none = (st, reply failed)
  finish f u st (some cookie) =
      let forgiven = record st { limiter = LoginLimiter.record_success st.limiter f.ip } in
      (forgiven, record { page = redirect (destination f u forgiven); cookie = some cookie })

  abbrev pub start_session : Bool → ℕ → String → ℕ → Form → Account → State → State × Reply
  start_session stores id token now f u st =
      if not stores
      then (st, reply failed)
      else finish f u
          (record st {
            sessions = (Sessions.create k.hash k.ttl id token now u.id f.ip f.agent st.sessions).1;
          })
          (k.encode (record { session_id = id; token = token }))

  abbrev pub authenticate : Bool → ℕ → String → ℕ → Form → Option Account → State → State × Reply
  authenticate stores id token now f none st = count_failure now f st
  authenticate stores id token now f (some u) st =
      if not (k.verify f.password u.password_hash)
      then count_failure now f st
      else if not (is_some u.email_verified_at)
      then (st, reply pending)
      else start_session stores id token now f u st

  abbrev pub checked : Bool → ℕ → String → ℕ → Form → Limiter × Answer → State → State × Reply
  checked stores id token now f (limiter, (retry, allowed)) st =
      let pruned = record st { limiter = limiter } in
      if not allowed
      then (pruned, reply (too_many retry))
      else authenticate stores id token now f (lookup (k.normal f.email) st.accounts) pruned

  -- `Login`, of a form that parses; the identifier and the token of a session are drawn.
  unfoldable pub login : Bool → ℕ → String → ℕ → Form → State → State × Reply
  login stores id token now f st =
      checked stores id token now f (LoginLimiter.check st.limiter now f.ip) st

  abbrev pub revoked : ℕ → Option SessionCookie → State → State
  revoked now none st = st
  revoked now (some c) st = elim (Sessions.revoke c.session_id now st.sessions) [
    | none ↦ st
    | some sessions ↦ record st { sessions = sessions }
  ]

  -- `Logout`, with the value of the session cookie; the cookie is cleared.
  unfoldable pub logout : ℕ → Option String → State → State × Reply
  logout now cookie st = (
    revoked now (elim cookie [ none ↦ none | some value ↦ k.decode value ]) st,
    reply (redirect "/"),
  )
