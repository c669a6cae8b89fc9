-- ===== src/Sessions.antt =====
-- Login sessions: internal/auth/session.go over the store of internal/auth/memdb.go. A time is a
-- number, an identifier a ℕ; the hash of a token (SHA-256 in hex) is the parameter `hash`, and the
-- token and the identifier that are drawn are arguments. Each method is one step, under the mutex.
pub mod Laws
mod Tests
use shopify_gmc.Base.{
  ℕ, suc, ◌+◌, String, Bool, true, false, not, Option, none, some, List, [], ◌∷◌, ◌==◌, string_eq,
  nat_eq, if◌then◌else◌, is_some, ltb, ◌||◌,
}
use shopify_gmc.Base.Table.{Table, lookup, insert, modify}
use mathlib.Core.Option

-- `sessionRow`.
pub record SessionRow : Type 0 where
  pub id : ℕ
  pub user_id : ℕ
  pub token_hash : String
  pub ip_address : String
  pub user_agent : String
  pub expires_at : ℕ
  pub last_seen_at : ℕ
  pub revoked_at : Option ℕ
  pub created_at : ℕ
  pub impersonating_user : Option ℕ
  pub impersonating_tenant : Option ℕ
  pub impersonation_log : Option ℕ

-- `Session`, the row with its token.
pub record Session : Type 0 where
  pub row : SessionRow
  pub token : String

-- `MemSessionDB`: both maps hold pointers to the rows; `free` is the next pointer.
pub record MemSessionDb : Type 0 where
  pub free : ℕ
  pub rows : Table ℕ SessionRow
  pub by_hash : Table String ℕ
  pub by_id : Table ℕ ℕ

unfoldable pub insert_row : SessionRow → MemSessionDb → MemSessionDb
insert_row r db = record {
  free = suc db.free;
  rows = insert db.free r db.rows;
  by_hash = insert r.token_hash db.free db.by_hash;
  by_id = insert r.id db.free db.by_id;
}

-- The row that an entry of a map points to.
unfoldable pub row_at : Option ℕ → MemSessionDb → Option SessionRow
row_at none db = none
row_at (some pointer) db = lookup pointer db.rows

abbrev pub is_active : ℕ → SessionRow → Bool
is_active now row = not (is_some row.revoked_at || not (ltb now row.expires_at))

abbrev pub if_active : ℕ → Option SessionRow → Option SessionRow
if_active now none = none
if_active now (some row) = if is_active now row then some row else none

unfoldable pub find_active : String → ℕ → MemSessionDb → Option SessionRow
find_active hash now db = if_active now (row_at (lookup hash db.by_hash) db)

-- Changes the row of an identifier through its pointer; `none` is `ErrSessionNotFound`.
unfoldable pub change_row :
    (SessionRow → Bool) → (SessionRow → SessionRow) → Option ℕ → MemSessionDb → Option MemSessionDb
change_row allowed f none db = none
change_row allowed f (some pointer) db = elim (lookup pointer db.rows) [
  | none ↦ none
  | some row ↦ if allowed row then some (record db { rows = modify pointer f db.rows }) else none
]

abbrev pub is_live : SessionRow → Bool
is_live row = not (is_some row.revoked_at)

abbrev pub extend_row : ℕ → ℕ → SessionRow → SessionRow
extend_row expires seen row = record row { expires_at = expires; last_seen_at = seen }

abbrev pub revoke_row : ℕ → SessionRow → SessionRow
revoke_row at_time row = record row { revoked_at = some at_time }

abbrev pub impersonate_row : Option ℕ → Option ℕ → Option ℕ → SessionRow → SessionRow
impersonate_row user tenant log row = record row {
  impersonating_user = user;
  impersonating_tenant = tenant;
  impersonation_log = log;
}

unfoldable pub update_expiry : ℕ → ℕ → ℕ → MemSessionDb → Option MemSessionDb
update_expiry id expires seen db =
    change_row is_live (extend_row expires seen) (lookup id db.by_id) db

unfoldable pub revoke_in : ℕ → ℕ → MemSessionDb → Option MemSessionDb
revoke_in id at_time db = change_row is_live (revoke_row at_time) (lookup id db.by_id) db

unfoldable pub set_impersonation :
    ℕ → Option ℕ → Option ℕ → Option ℕ → MemSessionDb → Option MemSessionDb
set_impersonation id user tenant log db =
    change_row (λ row. true) (impersonate_row user tenant log) (lookup id db.by_id) db

module _ (hash : String → String) (ttl : ℕ) where
  abbrev pub new_row : ℕ → String → ℕ → ℕ → String → String → SessionRow
  new_row id token now user ip agent = record {
    id = id;
    user_id = user;
    token_hash = hash token;
    ip_address = ip;
    user_agent = agent;
    expires_at = now + ttl;
    last_seen_at = now;
    revoked_at = none;
    created_at = now;
    impersonating_user = none;
    impersonating_tenant = none;
    impersonation_log = none;
  }

  unfoldable pub create :
      ℕ → String → ℕ → ℕ → String → String → MemSessionDb → Session × MemSessionDb
  create id token now user ip agent db = (
    record { row = new_row id token now user ip agent; token = token },
    insert_row (new_row id token now user ip agent) db,
  )

  -- `none` is `ErrSessionNotFound`.
  unfoldable pub get : String → ℕ → MemSessionDb → Option Session
  get token now db =
      if token == ""
      then none
      else Option.map (λ row. record { row = row; token = token }) (find_active (hash token) now db)

  unfoldable pub extend : ℕ → ℕ → MemSessionDb → Option MemSessionDb
  extend id now db = update_expiry id (now + ttl) now db

unfoldable pub revoke : ℕ → ℕ → MemSessionDb → Option MemSessionDb
revoke id now db = revoke_in id now db
