-- ===== src/Sessions/Laws.antt =====
-- What the sessions of internal/auth/session.go promise.
use shopify_gmc.Base.{
  ℕ, suc, ◌+◌, ◌<◌, ◌≡◌, ◌≢◌, inl, inr, refl, ap, ◌∙◌, String, Bool, true, false, none, some, ◌==◌,
  string_eq, nat_eq, ==_iff, ==_refl, if◌then◌else◌, ltb, arith, Option-cases, Bool-cases,
}
use shopify_gmc.Base.Table.{lookup, insert, modify, lookup-insert, lookup-modify}
use mathlib.Core.Option
use shopify_gmc.Sessions.{
  SessionRow, Session, MemSessionDb, insert_row, row_at, if_active, find_active, change_row,
  is_live, revoke_row, revoke_in, new_row, create, get, revoke,
}

module _ (hash : String → String) (ttl : ℕ) where
  get_of :
      (token : String) (now : ℕ) (db : MemSessionDb)
      → token ≢ ""
      → get hash ttl token now db
        ≡ Option.map
            (λ row. record { row = row; token = token })
            (if_active now (row_at (lookup (hash token) db.by_hash) db))
  unfolding get find_active
  get_of token now db named = ground (arith, ==_iff token "")

  created_row :
      (id : ℕ) (token : String) (now user : ℕ) (ip agent : String) (db : MemSessionDb)
      → let db' = (create hash ttl id token now user ip agent db).1 in
        row_at (lookup (hash token) db'.by_hash) db'
        ≡ some (new_row hash ttl id token now user ip agent)
  unfolding create insert_row row_at
  created_row id token now user ip agent db = ground (
    arith,
    lookup-insert (hash token) (hash token) db.free db.by_hash,
    ==_refl (hash token),
    lookup-insert db.free db.free (new_row hash ttl id token now user ip agent) db.rows,
    ==_refl db.free,
  )

-- The session that is created, with a token that is not empty, is the one that its token gets at
-- every time before it expires, which is the time to live later, and from then on it gets none.
pub create-get :
    (hash : String → String) (ttl id : ℕ) (token : String) (now user : ℕ) (ip agent : String)
    (db : MemSessionDb) (at_time : ℕ)
    → token ≢ ""
    → let (session, created) = create hash ttl id token now user ip agent db in
      get hash ttl token at_time created ≡ (if ltb at_time (now + ttl) then some session else none)
create-get hash ttl id token now user ip agent db at_time named =
    get_of hash ttl token at_time (create hash ttl id token now user ip agent db).1 named
    ∙ ap (λ o. Option.map (λ row. record { row = row; token = token }) (if_active at_time o))
        (created_row hash ttl id token now user ip agent db)
    ∙ unfold create in ground arith

-- An entry of the map by hashes points to a row that the map by identifiers points to, too, and no
-- pointer is beyond the free one.
pub record IsCoherent (db : MemSessionDb) : Type 0 where
  pub owned :
      (h : String) (pointer : ℕ) (row : SessionRow)
      → lookup h db.by_hash ≡ some pointer
      → lookup pointer db.rows ≡ some row
      → lookup row.id db.by_id ≡ some pointer
  pub bounded : (h : String) (pointer : ℕ) → lookup h db.by_hash ≡ some pointer → pointer < db.free

-- Only an entry with a row gets a session.
got :
    (hash : String → String) (ttl : ℕ) (token : String) (now : ℕ) (db : MemSessionDb) (s : Session)
    → get hash ttl token now db ≡ some s
    → (pointer : ℕ) × (lookup (hash token) db.by_hash ≡ some pointer)
      × (lookup pointer db.rows ≡ some s.row)
unfolding get find_active row_at
got hash ttl token now db s h = elim (Option-cases (lookup (hash token) db.by_hash)) [
  | inl unknown ↦ absurd (none_got unknown h)
  | inr (pointer, known) ↦ (pointer, known, ground arith)
]
  where
    none_got : lookup (hash token) db.by_hash ≡ none → get hash ttl token now db ≡ some s → ⊥
    none_got unknown h = ground arith

changed :
    (allowed : SessionRow → Bool) (f : SessionRow → SessionRow) (pointer : ℕ)
    (db after : MemSessionDb)
    → change_row allowed f (some pointer) db ≡ some after
    → (after.rows ≡ modify pointer f db.rows) × (after.by_hash ≡ db.by_hash)
unfolding change_row
changed allowed f pointer db after h = ground arith

-- In a coherent store, a session that its token gets is gone for good once it is revoked: the token
-- gets nothing, at any time after.
pub revoke-get :
    (hash : String → String) (ttl : ℕ) (token : String) (now : ℕ) (db after : MemSessionDb)
    (s : Session) (at_time later : ℕ)
    → IsCoherent db
    → get hash ttl token now db ≡ some s
    → revoke s.row.id at_time db ≡ some after
    → get hash ttl token later after ≡ none
revoke-get hash ttl token now db after s at_time later coherent found revoked =
    let (pointer, known, held) = got hash ttl token now db s found in
    let same = coherent.owned (hash token) pointer s.row known held in
    let (rows, hashes) =
      changed is_live (revoke_row at_time) pointer db after
        (unfold revoke revoke_in in rw same at revoked) in
    revoked_none pointer (ap (λ m. lookup (hash token) m) hashes ∙ known) (
      ap (λ m. lookup pointer m) rows
      ∙ lookup-modify pointer pointer (revoke_row at_time) db.rows
      ∙ rw (==_refl pointer, held) refl)
  where
    revoked_none :
        (pointer : ℕ)
        → lookup (hash token) after.by_hash ≡ some pointer
        → lookup pointer after.rows ≡ some (revoke_row at_time s.row)
        → get hash ttl token later after ≡ none
    revoked_none pointer known row = unfold get find_active row_at in ground arith

-- A row that is inserted under an identifier that is not in use keeps the store coherent.
pub insert_row-IsCoherent :
    (r : SessionRow) (db : MemSessionDb)
    → IsCoherent db
    → lookup r.id db.by_id ≡ none
    → IsCoherent (insert_row r db)
unfolding insert_row
insert_row-IsCoherent r db is fresh = record {
  owned = λ h pointer row known held. elim (Bool-cases (r.token_hash == h)) [
    | inl same ↦ its_own h pointer row same known held
    | inr other ↦ an_old h pointer row other known held
  ];
  bounded = λ h pointer known. elim (Bool-cases (r.token_hash == h)) [
    | inl same ↦ its_bound h pointer same known
    | inr other ↦ old_bound h pointer other known
  ];
}
  where
    its_bound :
        (h : String) (pointer : ℕ)
        → (r.token_hash == h) ≡ true
        → lookup h (insert r.token_hash db.free db.by_hash) ≡ some pointer
        → pointer < suc db.free
    its_bound h pointer same known = ground (arith, lookup-insert r.token_hash h db.free db.by_hash)

    found_old :
        (h : String) (pointer : ℕ)
        → (r.token_hash == h) ≡ false
        → lookup h (insert r.token_hash db.free db.by_hash) ≡ some pointer
        → lookup h db.by_hash ≡ some pointer
    found_old h pointer other known =
        ground (arith, lookup-insert r.token_hash h db.free db.by_hash)

    old_bound :
        (h : String) (pointer : ℕ)
        → (r.token_hash == h) ≡ false
        → lookup h (insert r.token_hash db.free db.by_hash) ≡ some pointer
        → pointer < suc db.free
    old_bound h pointer other known =
        omega (arith, is.bounded h pointer (found_old h pointer other known))

    its_own :
        (h : String) (pointer : ℕ) (row : SessionRow)
        → (r.token_hash == h) ≡ true
        → lookup h (insert r.token_hash db.free db.by_hash) ≡ some pointer
        → lookup pointer (insert db.free r db.rows) ≡ some row
        → lookup row.id (insert r.id db.free db.by_id) ≡ some pointer
    its_own h pointer row same known held = ground (
      arith,
      lookup-insert r.token_hash h db.free db.by_hash,
      lookup-insert db.free pointer r db.rows,
      ==_iff db.free pointer,
      lookup-insert r.id row.id db.free db.by_id,
      ==_refl r.id,
    )

    an_old :
        (h : String) (pointer : ℕ) (row : SessionRow)
        → (r.token_hash == h) ≡ false
        → lookup h (insert r.token_hash db.free db.by_hash) ≡ some pointer
        → lookup pointer (insert db.free r db.rows) ≡ some row
        → lookup row.id (insert r.id db.free db.by_id) ≡ some pointer
    an_old h pointer row other known held =
        let old = found_old h pointer other known in
        let same_row : lookup pointer db.rows ≡ some row = ground (
          arith,
          is.bounded h pointer old,
          lookup-insert db.free pointer r db.rows,
          ==_iff db.free pointer,
        ) in
        ground (
          arith,
          is.owned h pointer row old same_row,
          lookup-insert r.id row.id db.free db.by_id,
          ==_iff r.id row.id,
        )
