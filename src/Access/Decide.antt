-- ===== src/Access/Decide.antt =====
-- Whom the chain of a workspace's pages, `tenantMW` of cmd/server/main.go, lets through, stated as one
-- condition on the request, the session and the tables.
use shopify_gmc.Base.{
  String, Bool, true, false, not, Option, none, some, [], ◌≡◌, refl, ap, ◌==◌, nat_eq, string_eq,
  ◌||◌, ◌&&◌, Bool-cases, inl, inr, arith,
}
use shopify_gmc.Sessions.{Session, get}
use shopify_gmc.Access.{
  Request, User, Tenant, Membership, Db, World, Context, Outcome, replied, panicked, Handler,
  Answers, Secrets, empty_context, unauthorized, page, is_safe_method, read_cookie, find_user,
  get_by_slug, get_by_tenant_and_user, token_for, verify_csrf, presented, effective_user,
  is_impersonating, impersonator_of, newer, rls_of, end_transaction, opened, require_user,
  load_tenant_by_slug, require_membership, check_impersonation, set_rls_context, csrf, tenant_chain,
}

abbrev pub is_refusal : Outcome → Bool
is_refusal panicked = false
is_refusal (replied status body) =
    status == 302 || status == 401 || status == 403 || status == 404 || status == 500

abbrev pub csrf_holds : Secrets → Request → Session → Bool
csrf_holds k r s =
    is_safe_method r.method || (not (s.token == "") && verify_csrf k s.token (presented r))

-- The context of a request that is let through.
abbrev pub admitted_context :
    {R : Type 0} → Secrets → Db R → Session → User → Tenant → Membership → Context
admitted_context k db s u t m = record {
  session = some s;
  user = some u;
  impersonator = impersonator_of s db;
  tenant = some t;
  membership = some m;
  impersonating = is_impersonating s;
  rls = some (rls_of t (some u));
  csrf = token_for k s.token;
}

-- The cookie names a live session; its user, or the one that it impersonates, is a member of the
-- tenant that the address names; and an unsafe request presents the session's CSRF token.
pub record IsAdmitted {R : Type 0} (k : Secrets) (r : Request) (w : World R) (s : Session)
    (u : User) (t : Tenant) (m : Membership) : Type 0 where
  pub token : String
  pub cookie : read_cookie k "session" r ≡ some token
  pub live : get k.hash k.ttl token w.now w.sessions ≡ some s
  pub is_user : find_user (effective_user s) w.db ≡ some u
  pub is_tenant : get_by_slug k.lower r.slug w.db.tenants ≡ some t
  pub is_member : get_by_tenant_and_user t.id u.id w.db.memberships ≡ some m
  pub csrf : csrf_holds k r s ≡ true

-- What becomes of a request: its handler runs, for an admitted one only, in a transaction; or it is
-- refused, whatever the handler is, and the world stays as it was.
pub data Verdict {R : Type 0} (k : Secrets) (db : Answers) (r : Request) (w : World R)
    (run : Handler R → Outcome × World R) : Type 0 where
  runs :
      (s : Session) (u : User) (t : Tenant) (m : Membership)
      → IsAdmitted k r w s u t m
      → ((next : Handler R)
          → run next
            ≡ end_transaction db.commits w (next r (admitted_context k w.db s u t m) (opened w)))
      → Verdict k db r w run
  refuses :
      (o : Outcome)
      → is_refusal o ≡ true
      → ((next : Handler R) → run next ≡ (o, w))
      → Verdict k db r w run

pub newer-none : (o : Option User) → newer o none ≡ o
unfolding newer
newer-none none = refl
newer-none (some a) = refl

module _ {R : Type 0} (k : Secrets) (db : Answers) (r : Request) (w : World R) where
  pub unauthorized_refuses : is_refusal (unauthorized k r) ≡ true
  unauthorized_refuses = ground arith

  -- The context in which the CSRF token is checked.
  abbrev pub begun : Session → User → Tenant → Membership → Context
  begun s u t m = record (admitted_context k w.db s u t m) { csrf = [] }

  csrf-holds :
      (next : Handler R) (s : Session) (u : User) (t : Tenant) (m : Membership)
      → csrf_holds k r s ≡ true
      → csrf k next r (begun s u t m) (opened w)
        ≡ next r (admitted_context k w.db s u t m) (opened w)
  unfolding csrf
  csrf-holds next s u t m h = ground arith

  pub csrf-fails :
      (s : Session) (u : User) (t : Tenant) (m : Membership)
      → csrf_holds k r s ≡ false
      → (message : String) × ((next : Handler R)
          → csrf k next r (begun s u t m) (opened w) ≡ (replied 403 (page message), opened w))
  unfolding csrf
  csrf-fails s u t m h = elim (Bool-cases (s.token == "")) [
    | inl missing ↦ ("csrf: no session", λ next. ground arith)
    | inr named ↦ ("csrf: token mismatch", λ next. ground arith)
  ]

  -- Where the database begins a transaction and takes the settings, an admitted request reaches the
  -- handler, with the session, the user, the tenant, the membership and the settings of the
  -- transaction in its context.
  pub tenant_chain_admits :
      (s : Session) (u : User) (t : Tenant) (m : Membership)
      → IsAdmitted k r w s u t m
      → db.begins ≡ true
      → db.configures ≡ true
      → (next : Handler R)
      → tenant_chain k db next r empty_context w
        ≡ end_transaction db.commits w (next r (admitted_context k w.db s u t m) (opened w))
  unfolding tenant_chain require_user load_tenant_by_slug require_membership check_impersonation
      set_rls_context
  tenant_chain_admits s u t m a b c next =
      rw
        (
          a.cookie,
          a.live,
          a.is_user,
          a.is_tenant,
          a.is_member,
          b,
          c,
          newer-none (impersonator_of s w.db),
        )
        (ap (end_transaction db.commits w) (csrf-holds next s u t m a.csrf))
