-- ===== src/Sessions/Tests.antt =====
-- A session of the store, and the theorems of the sessions at it.
use shopify_gmc.Base.{
  ℕ, ◌≡◌, ◌≢◌, refl, String, true, false, none, some, [], ◌∷◌, string_eq, nat_eq, ==_iff,
}
use shopify_gmc.Base.Table.{lookup, insert, modify}
use shopify_gmc.Sessions.{
  MemSessionDb, new_row, create, get, revoke, insert_row, row_at, find_active, change_row,
  revoke_in, revoke_row,
}
use shopify_gmc.Sessions.Laws.{IsCoherent, create-get, revoke-get, insert_row-IsCoherent}

abbrev hash : String → String
hash token = token

abbrev empty : MemSessionDb
empty = record { free = 0; rows = []; by_hash = []; by_id = [] }

abbrev token : String
token = "t0k"

named : token ≢ ""
named e = not_true ((==_iff token "").1 e)
  where
    not_true : false ≡ true → ⊥
    not_true h = cc

create-get_example :
    get hash 60 token 159 (create hash 60 5 token 100 1 "" "" empty).1
    ≡ some (create hash 60 5 token 100 1 "" "" empty).0
create-get_example = create-get hash 60 5 token 100 1 "" "" empty 159 named

empty-IsCoherent : IsCoherent empty
unfolding lookup
empty-IsCoherent = record {
  owned = λ h p row known held. absurd cc;
  bounded = λ h p known. absurd cc;
}

unused : lookup {K = ℕ} {V = ℕ} 5 [] ≡ none
unfolding lookup
unused = refl

abbrev one_session : MemSessionDb
one_session = record {
  free = 1;
  rows = (0, new_row hash 60 5 token 100 1 "" "") ∷ [];
  by_hash = (token, 0) ∷ [];
  by_id = (5, 0) ∷ [];
}

inserted : insert_row (new_row hash 60 5 token 100 1 "" "") empty ≡ one_session
unfolding insert_row insert
inserted = refl

abbrev revoked : MemSessionDb
revoked = record one_session {
  rows = (0, revoke_row 120 (new_row hash 60 5 token 100 1 "" "")) ∷ [];
}

its_session :
    get hash 60 token 110 one_session
    ≡ some (record { row = new_row hash 60 5 token 100 1 "" ""; token = token })
unfolding get find_active row_at lookup
its_session = refl

revoking : revoke 5 120 one_session ≡ some revoked
unfolding revoke revoke_in change_row lookup modify
revoking = refl

one_session-IsCoherent : IsCoherent one_session
one_session-IsCoherent = rw (← inserted) insert_row-IsCoherent_again
  where
    insert_row-IsCoherent_again :
        IsCoherent (insert_row (new_row hash 60 5 token 100 1 "" "") empty)
    insert_row-IsCoherent_again =
        insert_row-IsCoherent (new_row hash 60 5 token 100 1 "" "") empty empty-IsCoherent unused

revoke-get_example : get hash 60 token 130 revoked ≡ none
revoke-get_example =
    revoke-get hash 60 token 110 one_session revoked
      (record { row = new_row hash 60 5 token 100 1 "" ""; token = token }) 120 130
      one_session-IsCoherent its_session revoking
