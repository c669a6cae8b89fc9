-- ===== src/Members.antt =====
-- The members of a workspace: TransferOwnership, RemoveMembership and AcceptInvitation of
-- internal/web/handlers_tenant.go, with the statements of internal/store/memberships.go and
-- internal/store/invitations.go, on tables that keep the constraints of the migrations: one row for a
-- tenant and a user, and one owner for a tenant. A statement that fails aborts its transaction, which
-- leaves the tables as they were. auth.VerifyPassword and uuid.Parse are parameters.
pub mod Owners
mod Tests
use shopify_gmc.Base.{
  ℕ, String, Bool, true, false, not, Option, none, some, List, [], ◌∷◌, ◌==◌, nat_eq, string_eq,
  if◌then◌else◌, leb, ltb, length, select, any, ◌&&◌, ◌||◌,
}
use shopify_gmc.Base.Table.{Table, lookup}
use shopify_gmc.Access.{Membership}

-- Who asks, in which workspace: the context of the page.
pub record Actor : Type 0 where
  pub tenant_id : ℕ
  pub user_id : ℕ
  pub password_hash : String

pub record Params : Type 0 where
  pub verify : String → String → Bool
  pub parse_uuid : String → Option ℕ

-- The answers: a redirection to the members with its message, or an error.
pub data Answer : Type 0 where
  missing wrong_password bad_id demote_failed promote_failed transferred : Answer
  cannot_remove_self removed : Answer

abbrev pub is_row : ℕ → ℕ → Membership → Bool
is_row tenant user m = m.tenant_id == tenant && m.user_id == user

abbrev pub is_owner_of : ℕ → Membership → Bool
is_owner_of tenant m = m.tenant_id == tenant && m.role == "owner"

unfoldable pub owners : ℕ → List Membership → ℕ
owners tenant ms = length (select (is_owner_of tenant) ms)

unfoldable pub set_role : ℕ → ℕ → String → List Membership → List Membership
set_role tenant user role [] = []
set_role tenant user role (m ∷ ms) =
    let rest = set_role tenant user role ms in
    if is_row tenant user m then record m { role = role } ∷ rest else m ∷ rest

-- UPDATE memberships, under the index memberships_one_owner_per_tenant.
unfoldable pub update_role : ℕ → ℕ → String → List Membership → Option (List Membership)
unfolding owners
update_role tenant user role ms =
    let after = set_role tenant user role ms in
    if leb (owners tenant after) 1 then some after else none

abbrev pub promote : ℕ → ℕ → List Membership → Option (List Membership) → Answer × List Membership
promote tenant user before none = (demote_failed, before)
promote tenant user before (some demoted) = elim (update_role tenant user "owner" demoted) [
  | none ↦ (promote_failed, before)
  | some promoted ↦ (transferred, promoted)
]

abbrev pub transfer_to : Actor → Option ℕ → List Membership → Answer × List Membership
transfer_to a none ms = (bad_id, ms)
transfer_to a (some user) ms =
    promote a.tenant_id user ms (update_role a.tenant_id a.user_id "member" ms)

-- `TransferOwnership`, with the password and the user of a form that parses.
unfoldable pub transfer_ownership :
    Params → Actor → String → String → List Membership → Answer × List Membership
transfer_ownership k a password user ms =
    if password == "" || user == ""
    then (missing, ms)
    else if not (k.verify password a.password_hash)
    then (wrong_password, ms)
    else transfer_to a (k.parse_uuid user) ms

-- DELETE FROM memberships.
unfoldable pub delete_member : ℕ → ℕ → List Membership → List Membership
delete_member tenant user ms = select (λ m. not (is_row tenant user m)) ms

abbrev pub remove_user : Actor → Option ℕ → List Membership → Answer × List Membership
remove_user a none ms = (bad_id, ms)
remove_user a (some user) ms =
    if user == a.user_id
    then (cannot_remove_self, ms)
    else (removed, delete_member a.tenant_id user ms)

-- `RemoveMembership`.
unfoldable pub remove_membership :
    Params → Actor → String → List Membership → Answer × List Membership
remove_membership k a user ms = remove_user a (k.parse_uuid user) ms

pub record Invitation : Type 0 where
  pub tenant_id : ℕ
  pub role : String
  pub status : String
  pub expires_at : ℕ

-- The tables that an acceptance meets; invitations by the hash of their token.
pub record State : Type 0 where
  pub members : List Membership
  pub invitations : Table String Invitation
  pub slugs : Table ℕ String

-- INSERT INTO memberships, under both indexes.
unfoldable pub insert_member : Membership → List Membership → Option (List Membership)
unfolding owners
insert_member m ms =
    if any (is_row m.tenant_id m.user_id) ms
    then none
    else if leb (owners m.tenant_id (m ∷ ms)) 1
    then some (m ∷ ms)
    else none

abbrev pub mark : String → Table String Invitation → Table String Invitation
mark hash [] = []
mark hash ((h, i) ∷ rest) =
    (h, if h == hash && i.status == "pending" then record i { status = "accepted" } else i)
    ∷ mark hash rest

abbrev pub inserted : String → Invitation → State → Option (List Membership) → Option String × State
inserted hash i st none = (none, st)
inserted hash i st (some members) = elim (lookup i.tenant_id st.slugs) [
  | none ↦ (none, st)
  | some slug ↦ (some slug, record st { members = members; invitations = mark hash st.invitations })
]

abbrev pub accepted : ℕ → ℕ → String → Option Invitation → State → Option String × State
accepted now user hash none st = (none, st)
accepted now user hash (some i) st =
    if not (i.status == "pending") || ltb i.expires_at now
    then (none, st)
    else inserted hash i st (
        insert_member (record { tenant_id = i.tenant_id; user_id = user; role = i.role })
          st.members)

-- The transaction of `AcceptInvitation` by a user who is signed in, with the hash of the token: the
-- slug of the workspace that the user has joined.
unfoldable pub accept_invitation : ℕ → ℕ → String → State → Option String × State
accept_invitation now user hash st = accepted now user hash (lookup hash st.invitations) st
