-- ===== src/Access/Tests.antt =====
-- The guards of a workspace's pages at concrete requests.
use shopify_gmc.Base.{
  ℕ, ◌+◌, ◌≡◌, ◌==◌, if◌then◌else◌, refl, true, false, none, some, [], ◌∷◌, ◌⊎◌, string_eq, nat_eq,
}
use shopify_gmc.Base.Table.{lookup}
use shopify_gmc.Sessions.{SessionRow, Session, MemSessionDb, get, find_active, row_at}
use shopify_gmc.Access.{
  Request, User, Tenant, Membership, World, Outcome, Handler, Answers, Secrets, replied, page,
  empty_context, is_impersonating, end_transaction, opened, tenant_chain, owner_chain, find_user,
  read_cookie, get_by_slug, get_by_tenant_and_user, require_user, load_tenant_by_slug,
  require_membership, check_impersonation, set_rls_context, csrf, require_owner,
}
use shopify_gmc.Access.Decide.{
  admitted_context, IsAdmitted, Verdict, is_refusal, tenant_chain_admits,
}
use shopify_gmc.Access.Laws.{tenant_chain_guards, owner_chain_guards}

abbrev secrets : Secrets
secrets = record {
  hash = λ token. token;
  ttl = 60;
  decode_cookie = λ name value. some value;
  hmac = λ key text. text;
  csrf_secret = [];
  utf8 = λ s. [];
  query_escape = λ s. s;
  lower = λ s. if s == "ACME" then "acme" else s;
}

abbrev row : SessionRow
row = record {
  id = 5;
  user_id = 1;
  token_hash = "t0k";
  ip_address = "";
  user_agent = "";
  expires_at = 160;
  last_seen_at = 100;
  revoked_at = none;
  created_at = 100;
  impersonating_user = none;
  impersonating_tenant = none;
  impersonation_log = none;
}

abbrev sessions : MemSessionDb
sessions = record { free = 1; rows = (0, row) ∷ []; by_hash = ("t0k", 0) ∷ []; by_id = (5, 0) ∷ [] }

abbrev acme : Tenant
acme = record { id = 9; name = "Acme"; slug = "acme"; plan = "free" }

abbrev member : Membership
member = record { tenant_id = 9; user_id = 1; role = "member" }

-- The rest of the database is a counter.
abbrev world : World ℕ
world = record {
  now = 120;
  sessions = sessions;
  db = record {
    users = (1, record { email = "ada@example.com"; name = none }) ∷ [];
    tenants = acme ∷ [];
    memberships = member ∷ [];
    rest = 0;
  };
  pending = λ db. db;
}

abbrev request : Request
request = record {
  method = "GET";
  slug = "ACME";
  accept = "";
  request_uri = "/t/acme";
  cookies = ("session", "t0k") ∷ [];
  csrf_header = "";
  csrf_field = "";
}

abbrev answers : Answers
answers = record { begins = true; configures = true; commits = true }

-- A handler that adds one in the transaction and two through the pool.
abbrev counts : ℕ → Handler ℕ
counts status r cx w = (
  replied status (page "counted"),
  record w {
    db = record w.db { rest = w.db.rest + 2 };
    pending = λ db. let done = w.pending db in record done { rest = done.rest + 1 };
  },
)

counted : (tenant_chain secrets answers (counts 200) request empty_context world).1.db.rest ≡ 3
unfolding tenant_chain require_user read_cookie lookup get find_active row_at find_user
    load_tenant_by_slug get_by_slug require_membership get_by_tenant_and_user check_impersonation
    set_rls_context csrf
counted = refl

not_an_owner : (owner_chain secrets answers (counts 200) request empty_context world).1.db.rest ≡ 0
unfolding owner_chain tenant_chain require_user read_cookie lookup get find_active row_at find_user
    load_tenant_by_slug get_by_slug require_membership get_by_tenant_and_user check_impersonation
    set_rls_context csrf require_owner
not_an_owner = refl

-- What was written in the transaction is dropped, and what was written through the pool is not.
failing : (tenant_chain secrets answers (counts 500) request empty_context world).1.db.rest ≡ 2
unfolding tenant_chain require_user read_cookie lookup get find_active row_at find_user
    load_tenant_by_slug get_by_slug require_membership get_by_tenant_and_user check_impersonation
    set_rls_context csrf
failing = refl

admitted :
    IsAdmitted secrets request world
      (record { row = row; token = "t0k" })
      (record { id = 1; email = "ada@example.com"; name = "" })
      acme
      member
unfolding read_cookie lookup get find_active row_at find_user get_by_slug get_by_tenant_and_user
admitted = record {
  token = "t0k";
  cookie = refl;
  live = refl;
  is_user = refl;
  is_tenant = refl;
  is_member = refl;
  csrf = refl;
}

tenant_chain_admits_example :
    tenant_chain secrets answers (counts 200) request empty_context world
    ≡ end_transaction true world (
        counts 200 request
          (admitted_context secrets world.db
            (record { row = row; token = "t0k" })
            (record { id = 1; email = "ada@example.com"; name = "" })
            acme
            member)
          (opened world))
tenant_chain_admits_example =
    tenant_chain_admits secrets answers request world (record { row = row; token = "t0k" })
      (record { id = 1; email = "ada@example.com"; name = "" }) acme member admitted refl refl
      (counts 200)

tenant_chain_guards_example :
    Verdict secrets answers request world
      (λ next. tenant_chain secrets answers next request empty_context world)
tenant_chain_guards_example = tenant_chain_guards secrets answers request world

owner_chain_guards_example :
    ((s : Session) × (u : User) × (t : Tenant) × (m : Membership) × IsAdmitted secrets request world
        s u t m
      × (m.role ≡ "owner")
      × (is_impersonating s ≡ false)
      × ((next : Handler ℕ)
          → owner_chain secrets answers next request empty_context world
            ≡ end_transaction true world
                (next request (admitted_context secrets world.db s u t m) (opened world))))
    ⊎ ((o : Outcome) × (is_refusal o ≡ true)
        × ((next : Handler ℕ)
            → owner_chain secrets answers next request empty_context world ≡ (o, world)))
owner_chain_guards_example = owner_chain_guards secrets answers request world
