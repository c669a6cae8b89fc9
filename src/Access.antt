-- ===== src/Access.antt =====
-- The guards of the pages of a workspace: the middlewares of internal/web/auth_middleware.go and of
-- internal/web/middleware_tenant.go, internal/auth/csrf.go, the reader of internal/auth/cookie.go, and
-- the two chains of cmd/server/main.go. A handler is a function of the request, its context and the
-- world. Parameters: securecookie, HMAC, `[]byte(s)`, url.QueryEscape, the `lower` of the database, and
-- the page of a handler.
pub mod Decide
pub mod Laws
mod Tests
use shopify_gmc.Base.{
  ℕ, String, Bool, true, false, not, Option, none, some, List, [], ◌∷◌, ◌==◌, nat_eq, string_eq,
  if◌then◌else◌, leb, is_some, ◌&&◌, ◌||◌,
}
use shopify_gmc.Base.Table.{Table, lookup}
use shopify_gmc.Base.Text.{append_text, has_prefix, has_substring}
use shopify_gmc.Base.Bytes.{bytes_equal}
use shopify_gmc.Base.Base64
use shopify_gmc.Tokens.{Hmac}
use shopify_gmc.Sessions.{Session, MemSessionDb, get}

pub record Request : Type 0 where
  pub method : String
  pub slug : String
  pub accept : String
  pub request_uri : String
  pub cookies : Table String String
  pub csrf_header : String
  pub csrf_field : String

-- `auth.User`.
pub record User : Type 0 where
  pub id : ℕ
  pub email : String
  pub name : String

-- A row of users, of tenants and of memberships, with the columns that are read here.
pub record UserRow : Type 0 where
  pub email : String
  pub name : Option String

pub record Tenant : Type 0 where
  pub id : ℕ
  pub name : String
  pub slug : String
  pub plan : String

pub record Membership : Type 0 where
  pub tenant_id : ℕ
  pub user_id : ℕ
  pub role : String

-- The database, as it is committed, with `rest` for all other tables.
pub record Db (R : Type 0) : Type 0 where
  pub users : Table ℕ UserRow
  pub tenants : List Tenant
  pub memberships : List Membership
  pub rest : R

-- `pending` is what was written in the open transaction; what a handler writes through the pool is in
-- `db` at once.
pub record World (R : Type 0) : Type 0 where
  pub now : ℕ
  pub sessions : MemSessionDb
  pub db : Db R
  pub pending : Db R → Db R

-- `store.RequestContext` as the transaction has it: an identifier that is zero is not set.
pub record Rls : Type 0 where
  pub tenant_id : Option ℕ
  pub user_id : Option ℕ

-- The values of the context; `rls` is that of the transaction, where there is one.
pub record Context : Type 0 where
  pub session : Option Session
  pub user : Option User
  pub impersonator : Option User
  pub tenant : Option Tenant
  pub membership : Option Membership
  pub impersonating : Bool
  pub rls : Option Rls
  pub csrf : List ℕ

pub data Body : Type 0 where
  page : String → Body
  redirect : String → Body

pub data Outcome : Type 0 where
  replied : ℕ → Body → Outcome
  panicked : Outcome

abbrev pub Handler : Type 0 → Type 0
Handler R = Request → Context → World R → Outcome × World R

abbrev pub Middleware : Type 0 → Type 0
Middleware R = Handler R → Handler R

-- What the database answers to BEGIN, to set_config and to COMMIT.
pub record Answers : Type 0 where
  pub begins : Bool
  pub configures : Bool
  pub commits : Bool

pub record Secrets : Type 0 where
  pub hash : String → String
  pub ttl : ℕ
  pub decode_cookie : String → String → Option String
  pub hmac : Hmac
  pub csrf_secret : List ℕ
  pub utf8 : String → List ℕ
  pub query_escape : String → String
  pub lower : String → String

abbrev pub empty_context : Context
empty_context = record {
  session = none;
  user = none;
  impersonator = none;
  tenant = none;
  membership = none;
  impersonating = false;
  rls = none;
  csrf = [];
}

unfoldable pub wants_html : String → Bool
wants_html accept =
    if accept == ""
    then true
    else if has_substring accept "text/html"
    then true
    else if has_substring accept "application/json" || has_substring accept "application/xml"
    then false
    else has_prefix accept "*/*"

-- `safeNextURL` of the request's URI.
unfoldable pub safe_next_url : String → String
safe_next_url p =
    if p == "" || p == "/"
    then ""
    else if not (has_prefix p "/") || has_prefix p "//"
    then ""
    else if has_prefix p "/login" || has_prefix p "/logout"
    then ""
    else p

abbrev pub login_address : Secrets → Request → String
login_address k r =
    let next = safe_next_url r.request_uri in
    if next == ""
    then "/login"
    else append_text "/login" (append_text "?next=" (k.query_escape next))

abbrev pub unauthorized : Secrets → Request → Outcome
unauthorized k r =
    if r.method == "GET" && wants_html r.accept
    then replied 302 (redirect (login_address k r))
    else replied 401 (page "unauthorized")

abbrev pub forbidden : Outcome
forbidden = replied 403 (page "You can't access this workspace.")

abbrev pub is_safe_method : String → Bool
is_safe_method m = m == "GET" || m == "HEAD" || m == "OPTIONS" || m == "TRACE"

-- `CookieManager.Read`: the token of the cookie.
pub read_cookie : Secrets → String → Request → Option String
read_cookie k name r = elim (lookup name r.cookies) [
  | none ↦ none
  | some value ↦ k.decode_cookie name value
]

-- `FindUser`.
abbrev user_of : ℕ → UserRow → User
user_of id u = record {
  id = id;
  email = u.email;
  name = elim u.name [ none ↦ "" | some name ↦ name ];
}

pub find_user : {R : Type 0} → ℕ → Db R → Option User
find_user id db = elim (lookup id db.users) [ none ↦ none | some u ↦ some (user_of id u) ]

-- The column slug is a citext: it is compared by the database's `lower`.
unfoldable pub get_by_slug : (String → String) → String → List Tenant → Option Tenant
get_by_slug lower slug [] = none
get_by_slug lower slug (t ∷ ts) =
    if lower t.slug == lower slug then some t else get_by_slug lower slug ts

unfoldable pub get_by_tenant_and_user : ℕ → ℕ → List Membership → Option Membership
get_by_tenant_and_user tenant user [] = none
get_by_tenant_and_user tenant user (m ∷ ms) =
    if m.tenant_id == tenant && m.user_id == user
    then some m
    else get_by_tenant_and_user tenant user ms

-- `CSRFManager.TokenFor` and `Verify`.
unfoldable pub token_for : Secrets → String → List ℕ
token_for k token = Base64.encode (k.hmac k.csrf_secret (k.utf8 token))

unfoldable pub verify_csrf : Secrets → String → String → Bool
verify_csrf k token presented =
    if token == "" || presented == ""
    then false
    else bytes_equal (token_for k token) (k.utf8 presented)

abbrev pub presented : Request → String
presented r = if r.csrf_header == "" then r.csrf_field else r.csrf_header

abbrev pub effective_user : Session → ℕ
effective_user s = elim s.row.impersonating_user [ none ↦ s.row.user_id | some target ↦ target ]

abbrev pub is_impersonating : Session → Bool
is_impersonating s = is_some s.row.impersonating_user

-- Who impersonates, where it is known.
abbrev pub impersonator_of : {R : Type 0} → Session → Db R → Option User
impersonator_of s db = elim s.row.impersonating_user [
  | none ↦ none
  | some target ↦ find_user s.row.user_id db
]

-- A value of the context, set where there is a new one.
pub newer : Option User → Option User → Option User
newer none old = old
newer (some a) old = some a

abbrev pub rls_id : ℕ → Option ℕ
rls_id id = if id == 0 then none else some id

abbrev pub rls_of : Tenant → Option User → Rls
rls_of t user = record {
  tenant_id = rls_id t.id;
  user_id = elim user [ none ↦ none | some u ↦ rls_id u.id ];
}

abbrev pub is_failure : Outcome → Bool
is_failure panicked = true
is_failure (replied status body) = leb 500 status

-- A transaction begins with nothing written.
abbrev pub opened : {R : Type 0} → World R → World R
opened w = record w { pending = λ db. db }

-- The end of the transaction of a world: its writes are made, or dropped; those through the pool stay.
abbrev pub end_transaction : {R : Type 0} → Bool → World R → Outcome × World R → Outcome × World R
end_transaction commits before (o, w) = (
  o,
  if is_failure o || not commits
      then record w { pending = before.pending }
      else record w { db = w.pending w.db; pending = before.pending },
)

module _ {R : Type 0} (k : Secrets) where
  abbrev signed_in :
      Handler R → Request → Context → World R → Session → Option User → Outcome × World R
  signed_in next r cx w s none = (unauthorized k r, w)
  signed_in next r cx w s (some user) =
      next r
        (record cx {
          session = some s;
          user = some user;
          impersonator = newer (impersonator_of s w.db) cx.impersonator;
        })
        w

  abbrev with_session : Handler R → Request → Context → World R → Option Session → Outcome × World R
  with_session next r cx w none = (unauthorized k r, w)
  with_session next r cx w (some s) = signed_in next r cx w s (find_user (effective_user s) w.db)

  abbrev with_cookie : Handler R → Request → Context → World R → Option String → Outcome × World R
  with_cookie next r cx w none = (unauthorized k r, w)
  with_cookie next r cx w (some token) =
      with_session next r cx w (get k.hash k.ttl token w.now w.sessions)

  unfoldable pub require_user : Middleware R
  require_user next r cx w = with_cookie next r cx w (read_cookie k "session" r)

  abbrev with_tenant : Handler R → Request → Context → World R → Option Tenant → Outcome × World R
  with_tenant next r cx w none = (replied 404 (page "Not found"), w)
  with_tenant next r cx w (some t) = next r (record cx { tenant = some t }) w

  unfoldable pub load_tenant_by_slug : Middleware R
  load_tenant_by_slug next r cx w =
      with_tenant next r cx w (get_by_slug k.lower r.slug w.db.tenants)

  abbrev with_membership :
      Handler R → Request → Context → World R → Option Membership → Outcome × World R
  with_membership next r cx w none = (forbidden, w)
  with_membership next r cx w (some m) = next r (record cx { membership = some m }) w

  abbrev check_membership :
      Handler R → Request → Context → World R → Option User → Option Tenant → Outcome × World R
  check_membership next r cx w none tenant = (replied 302 (redirect "/login"), w)
  check_membership next r cx w (some u) none = (forbidden, w)
  check_membership next r cx w (some u) (some t) =
      with_membership next r cx w (get_by_tenant_and_user t.id u.id w.db.memberships)

  unfoldable pub require_membership : Middleware R
  require_membership next r cx w = check_membership next r cx w cx.user cx.tenant

  unfoldable pub check_impersonation : Middleware R
  check_impersonation next r cx w =
      next r
        (record cx {
          impersonating = elim cx.session [ none ↦ false | some s ↦ is_impersonating s ];
        })
        w

  abbrev begin_rls :
      Answers → Handler R → Request → Context → World R → Option Tenant → Outcome × World R
  begin_rls db next r cx w none = (panicked, w)
  begin_rls db next r cx w (some t) =
      if not db.configures
      then (replied 500 (page "set rls"), w)
      else end_transaction db.commits w
          (next r (record cx { rls = some (rls_of t cx.user) }) (opened w))

  -- Without a tenant the code reads through a nil pointer.
  unfoldable pub set_rls_context : Answers → Middleware R
  set_rls_context db next r cx w =
      if not db.begins
      then (replied 500 (page "begin tx"), w)
      else begin_rls db next r cx w cx.tenant

  -- `CSRFManager.Middleware`.
  abbrev check_csrf : Handler R → Request → Context → World R → Option Session → Outcome × World R
  check_csrf next r cx w none = (replied 403 (page "csrf: no session"), w)
  check_csrf next r cx w (some s) =
      if s.token == ""
      then (replied 403 (page "csrf: no session"), w)
      else if not (verify_csrf k s.token (presented r))
      then (replied 403 (page "csrf: token mismatch"), w)
      else next r cx w

  abbrev csrf_middleware : Middleware R
  csrf_middleware next r cx w =
      if is_safe_method r.method then next r cx w else check_csrf next r cx w cx.session

  abbrev seed_csrf : Middleware R
  seed_csrf next r cx w =
      next r (record cx { csrf = token_for k (elim cx.session [ none ↦ "" | some s ↦ s.token ]) }) w

  unfoldable pub csrf : Middleware R
  csrf next r cx w = csrf_middleware (seed_csrf next) r cx w

  abbrev owner_only :
      Handler R → Request → Context → World R → Option Membership → Outcome × World R
  owner_only next r cx w none = (forbidden, w)
  owner_only next r cx w (some m) =
      if not (m.role == "owner") || cx.impersonating then (forbidden, w) else next r cx w

  unfoldable pub require_owner : Middleware R
  require_owner next r cx w = owner_only next r cx w cx.membership

  -- `Chain`: the first is the outermost.
  unfoldable pub chain : List (Middleware R) → Middleware R
  chain [] h = h
  chain (m ∷ ms) h = m (chain ms h)

  unfoldable pub tenant_chain : Answers → Middleware R
  unfolding chain
  tenant_chain db = chain (
      require_user
      ∷ load_tenant_by_slug
      ∷ require_membership
      ∷ check_impersonation
      ∷ set_rls_context db
      ∷ csrf
      ∷ [])

  unfoldable pub owner_chain : Answers → Middleware R
  unfolding chain
  owner_chain db = chain (tenant_chain db ∷ require_owner ∷ [])
