-- ===== src/Members/Tests.antt =====
-- Owners at a concrete table.
use shopify_gmc.Base.{
  ◌≡◌, refl, none, some, List, [], ◌∷◌, ◌==◌, nat_eq, string_eq, if◌then◌else◌, arith,
}
use shopify_gmc.Base.Table.{lookup}
use shopify_gmc.Access.{Membership}
use shopify_gmc.Members.{
  Actor, Params, transferred, owners, transfer_ownership, set_role, update_role, accept_invitation,
  insert_member,
}
use shopify_gmc.Members.Owners.{rows_of, owned, transfer_ownership-owners}

abbrev params : Params
params = record {
  verify = λ password hashed. password == hashed;
  parse_uuid = λ text. if text == "bob" then some 2 else if text == "eve" then some 3 else none;
}

abbrev ada : Actor
ada = record { tenant_id = 9; user_id = 1; password_hash = "pw" }

abbrev members : List Membership
members =
    record { tenant_id = 9; user_id = 1; role = "owner" }
    ∷ record { tenant_id = 9; user_id = 2; role = "member" }
    ∷ record { tenant_id = 8; user_id = 3; role = "owner" }
    ∷ []

-- Eve is no member, and the workspace is left with no owner.
handed_to_nobody : owners 9 (transfer_ownership params ada "pw" "eve" members).1 ≡ 0
unfolding owners transfer_ownership set_role update_role
handed_to_nobody = refl

transfer_ownership-owners_example :
    ((transfer_ownership params ada "pw" "bob" members).0 ≡ transferred)
    × (owners 9 (transfer_ownership params ada "pw" "bob" members).1 ≡ rows_of 9 2 members)
    × (owned 9 2 (transfer_ownership params ada "pw" "bob" members).1 ≡ rows_of 9 2 members)
    × (owners 8 (transfer_ownership params ada "pw" "bob" members).1 ≡ owners 8 members)
unfolding owned owners rows_of
transfer_ownership-owners_example =
    transfer_ownership-owners params ada "pw" "bob" 2 8 members refl refl refl refl refl refl
      (omega arith) refl

joined :
    (accept_invitation 50 4 "h" (record {
      members = members;
      invitations =
          ("h", record { tenant_id = 9; role = "member"; status = "pending"; expires_at = 60 })
          ∷ [];
      slugs = (9, "acme") ∷ [];
    })).0
    ≡ some "acme"
unfolding accept_invitation insert_member owners lookup
joined = refl
