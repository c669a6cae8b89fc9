-- ===== src/Settings/Storage.antt =====
-- Where the settings are stored: the interface `Backend` of internal/settings/service.go with what
-- the service relies on, and `MemBackend` of internal/settings/memdb.go, which fills it.
use shopify_gmc.Base.{
  ℕ, ◌≡◌, ◌≢◌, String, Option, none, some, List, string_eq, ==_iff, ==_refl, if◌then◌else◌, is_some,
  arith,
}
use shopify_gmc.Base.Table.{Table, lookup, insert, remove, lookup-insert}

-- The answer of `Get`: a blob, `ErrNotFound`, or another error.
pub data Fetched : Type 0 where
  found : List ℕ → Fetched
  missing broken : Fetched

-- `none` is an error.
pub record Backend (S : Type 0) : Type 0 where
  pub get : String → S → Fetched
  pub set : String → List ℕ → S → Option S
  pub delete : String → S → Option S

-- A write that succeeds is what a read of the key finds, and no other key changes.
pub record IsBackend {S : Type 0} (b : Backend S) : Type 0 where
  pub get-set :
      (key : String) (blob : List ℕ) (s t : S)
      → b.set key blob s ≡ some t
      → b.get key t ≡ found blob
  pub get-set_other :
      (key other : String) (blob : List ℕ) (s t : S)
      → b.set key blob s ≡ some t
      → key ≢ other
      → b.get other t ≡ b.get other s

abbrev fetched : Option (List ℕ) → Fetched
fetched none = missing
fetched (some blob) = found blob

-- The slices are copied, so that lists do for them.
unfoldable pub mem_backend : Backend (Table String (List ℕ))
mem_backend = record {
  get = λ key m. fetched (lookup key m);
  set = λ key blob m. some (insert key blob m);
  delete = λ key m. if is_some (lookup key m) then some (remove key m) else none;
}

pub mem_backend-IsBackend : IsBackend mem_backend
unfolding mem_backend
mem_backend-IsBackend = record {
  get-set = λ key blob s t h. ground (arith, lookup-insert key key blob s, ==_refl key);
  get-set_other =
      λ key other blob s t h ne. ground (arith, lookup-insert key other blob s, ==_iff key other);
}
