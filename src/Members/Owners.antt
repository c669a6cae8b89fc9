-- ===== src/Members/Owners.antt =====
-- The owners of a workspace, under the operations of internal/web/handlers_tenant.go.
use shopify_gmc.Base.{
  ℕ, ◌+◌, ◌≤◌, ◌≡◌, refl, ◌∙◌, String, true, false, some, List, [], ◌∷◌, ◌==◌, ==_iff, nat_eq,
  string_eq, length, select, ◌&&◌, arith, Bool-cases, Option-cases, inl, inr,
}
use shopify_gmc.Access.{Membership}
use shopify_gmc.Members.{
  Actor, Params, transferred, is_row, owners, set_role, update_role, promote, transfer_ownership,
  delete_member, remove_membership,
}

-- The rows of a user in a workspace, and those of them that are an owner's.
unfoldable pub rows_of : ℕ → ℕ → List Membership → ℕ
rows_of tenant user ms = length (select (is_row tenant user) ms)

unfoldable pub owned : ℕ → ℕ → List Membership → ℕ
owned tenant user ms = length (select (λ m. is_row tenant user m && m.role == "owner") ms)

module _ (tenant user : ℕ) where
  set_role-demotes :
      (ms : List Membership)
      → owners tenant (set_role tenant user "member" ms) + owned tenant user ms ≡ owners tenant ms
  unfolding set_role owned owners
  set_role-demotes [] = refl
  set_role-demotes (m ∷ ms) = ground (arith, set_role-demotes ms)

  set_role-promotes :
      (ms : List Membership)
      → owners tenant (set_role tenant user "owner" ms) + owned tenant user ms
        ≡ owners tenant ms + rows_of tenant user ms
  unfolding set_role owned owners rows_of
  set_role-promotes [] = refl
  set_role-promotes (m ∷ ms) = ground (arith, set_role-promotes ms)

  owned-promoted :
      (ms : List Membership)
      → owned tenant user (set_role tenant user "owner" ms) ≡ rows_of tenant user ms
  unfolding set_role owned rows_of
  owned-promoted [] = refl
  owned-promoted (m ∷ ms) = ground (arith, owned-promoted ms)

  owned_of : (ms : List Membership) → owned tenant user ms ≤ owners tenant ms
  unfolding owned owners
  owned_of [] = omega arith
  owned_of (m ∷ ms) = ground (arith, owned_of ms)

  rows_of-set_role :
      (other : ℕ) (role : String) (ms : List Membership)
      → rows_of tenant user (set_role tenant other role ms) ≡ rows_of tenant user ms
  unfolding rows_of set_role
  rows_of-set_role other role [] = refl
  rows_of-set_role other role (m ∷ ms) = ground (arith, rows_of-set_role other role ms)

  other_set_role :
      (other : ℕ) (role : String) (ms : List Membership)
      → (tenant == other) ≡ false
      → owners other (set_role tenant user role ms) ≡ owners other ms
  unfolding owners set_role
  other_set_role other role [] ne = refl
  other_set_role other role (m ∷ ms) ne = ground (
    arith,
    other_set_role other role ms ne,
    ==_iff m.tenant_id tenant,
    ==_iff m.tenant_id other,
    ==_iff tenant other,
  )

update_role-fits :
    (tenant user : ℕ) (role : String) (ms : List Membership)
    → owners tenant (set_role tenant user role ms) ≤ 1
    → update_role tenant user role ms ≡ some (set_role tenant user role ms)
unfolding update_role
update_role-fits tenant user role ms fits = ground arith

owned-demoted :
    (tenant user : ℕ) (ms : List Membership)
    → owned tenant user ms ≡ 1
    → owners tenant ms ≡ 1
    → owners tenant (set_role tenant user "member" ms) ≡ 0
owned-demoted tenant user ms one all = omega (arith, set_role-demotes tenant user ms)

-- The table after a transfer.
abbrev pub handed : ℕ → ℕ → ℕ → List Membership → List Membership
handed tenant old new ms = set_role tenant new "owner" (set_role tenant old "member" ms)

owners-handed :
    (tenant old new : ℕ) (ms : List Membership)
    → owned tenant old ms ≡ 1
    → owners tenant ms ≡ 1
    → owners tenant (handed tenant old new ms) ≡ rows_of tenant new ms
owners-handed tenant old new ms one all = omega (
  arith,
  set_role-promotes tenant new (set_role tenant old "member" ms),
  owned-demoted tenant old ms one all,
  owned_of tenant new (set_role tenant old "member" ms),
  rows_of-set_role tenant new old "member" ms,
)

-- The one owner of a workspace hands it over, with the right password: the transfer is announced
-- whoever the new owner is, the workspace then has as many owners as the table has rows of that user
-- in it, all that user's: one for a member and none for anybody else, and another workspace keeps its own.
pub transfer_ownership-owners :
    (k : Params) (a : Actor) (password user : String) (new other : ℕ) (ms : List Membership)
    → (password == "") ≡ false
    → (user == "") ≡ false
    → k.verify password a.password_hash ≡ true
    → k.parse_uuid user ≡ some new
    → owned a.tenant_id a.user_id ms ≡ 1
    → owners a.tenant_id ms ≡ 1
    → rows_of a.tenant_id new ms ≤ 1
    → (a.tenant_id == other) ≡ false
    → ((transfer_ownership k a password user ms).0 ≡ transferred)
      × (owners a.tenant_id (transfer_ownership k a password user ms).1
          ≡ rows_of a.tenant_id new ms)
      × (owned a.tenant_id new (transfer_ownership k a password user ms).1
          ≡ rows_of a.tenant_id new ms)
      × (owners other (transfer_ownership k a password user ms).1 ≡ owners other ms)
unfolding transfer_ownership
transfer_ownership-owners k a password user new other ms named given right parsed one all unique
      ne =
    rw (named, given, right, parsed, fits, promote, promoted)
      (
        refl,
        owners-handed a.tenant_id a.user_id new ms one all,
        owned-promoted a.tenant_id new (set_role a.tenant_id a.user_id "member" ms)
            ∙ rows_of-set_role a.tenant_id new a.user_id "member" ms,
        other_set_role a.tenant_id new other "owner" (set_role a.tenant_id a.user_id "member" ms) ne
            ∙ other_set_role a.tenant_id a.user_id other "member" ms ne,
      )
  where
    fits :
        update_role a.tenant_id a.user_id "member" ms
        ≡ some (set_role a.tenant_id a.user_id "member" ms)
    fits =
        update_role-fits a.tenant_id a.user_id "member" ms
          (omega (arith, owned-demoted a.tenant_id a.user_id ms one all))

    promoted :
        update_role a.tenant_id new "owner" (set_role a.tenant_id a.user_id "member" ms)
        ≡ some (handed a.tenant_id a.user_id new ms)
    promoted =
        update_role-fits a.tenant_id new "owner" (set_role a.tenant_id a.user_id "member" ms)
          (omega (arith, owners-handed a.tenant_id a.user_id new ms one all, unique))

module _ (tenant old user : ℕ) where
  delete_member-owners :
      (ms : List Membership)
      → owners tenant (delete_member tenant user ms) + owned tenant user ms ≡ owners tenant ms
  unfolding delete_member owners owned
  delete_member-owners [] = refl
  delete_member-owners (m ∷ ms) = ground (arith, delete_member-owners ms)

  owned_disjoint :
      (ms : List Membership)
      → (user == old) ≡ false
      → owned tenant user ms + owned tenant old ms ≤ owners tenant ms
  unfolding owners owned
  owned_disjoint [] ne = omega arith
  owned_disjoint (m ∷ ms) ne =
      ground
        (arith, owned_disjoint ms ne, ==_iff m.user_id user, ==_iff m.user_id old, ==_iff user old)

-- Whoever the one owner removes, the workspace keeps its owner.
pub remove_membership-owners :
    (k : Params) (a : Actor) (user : String) (ms : List Membership)
    → owned a.tenant_id a.user_id ms ≡ 1
    → owners a.tenant_id ms ≡ 1
    → owners a.tenant_id (remove_membership k a user ms).1 ≡ 1
unfolding remove_membership
remove_membership-owners k a user ms one all = elim (Option-cases (k.parse_uuid user)) [
  | inl unread ↦ rw unread all
  | inr (id, read) ↦ elim (Bool-cases (id == a.user_id)) [
    | inl itself ↦ rw (read, itself) all
    | inr other ↦
        rw (read, other)
          (omega (
            arith,
            delete_member-owners a.tenant_id a.user_id id ms,
            owned_disjoint a.tenant_id a.user_id id ms other,
          ))
  ]
]
