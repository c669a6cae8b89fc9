-- ===== src/Crawler/Discover.antt =====
-- The addresses that `discover` of internal/crawler/crawler.go files.
use shopify_gmc.Base.{
  ℕ, ◌≡◌, refl, inl, inr, String, Option, none, some, List, [], ◌∷◌, ◌++◌, string_eq, ==_iff, All,
  arith, Bool-cases, ◌||◌,
}
use shopify_gmc.Base.Text.{codes, starts_with}
use shopify_gmc.Crawler.{
  Net, Page, Found, seen_in, absolute, push, add_product, add_collection, add_policy, lower_path,
  file_under, file_link, discover_from, discover, nothing_found,
}

module _ (n : Net) where
  -- All addresses found.
  abbrev pub found_all : Found → List String
  found_all f = f.products ++ (f.collections ++ f.policies)

  abbrev pub IsOwn : String → Type 0
  IsOwn u = n.host u ≡ n.store_host

  All-snoc : (xs : List String) (u : String) → All IsOwn xs → IsOwn u → All IsOwn (xs ++ u ∷ [])
  All-snoc [] u h own = (own, tt)
  All-snoc (x ∷ xs) u h own = (h.0, All-snoc xs u h.1 own)

  pub record AreOwn (f : Found) : Type 0 where
    pub products_own : All IsOwn f.products
    pub collections_own : All IsOwn f.collections
    pub policies_own : All IsOwn f.policies

  absolute-IsOwn : (href abs : String) → absolute n href ≡ some abs → IsOwn abs
  unfolding absolute
  absolute-IsOwn href abs h = ground (arith, ==_iff (n.host abs) n.store_host)

  push_product-own :
      (abs : String) (f : Found) → IsOwn abs → AreOwn f → AreOwn (push n (add_product n) abs f)
  push_product-own abs f own h = elim (Bool-cases (seen_in abs f.seen)) [
    | inl seen ↦ rw (push, seen) h
    | inr new ↦
        rw (push, new)
          (record {
            products_own = All-snoc f.products abs h.products_own own;
            collections_own = h.collections_own;
            policies_own = h.policies_own;
          })
  ]

  push_collection-own :
      (abs : String) (f : Found) → IsOwn abs → AreOwn f → AreOwn (push n (add_collection n) abs f)
  push_collection-own abs f own h = elim (Bool-cases (seen_in abs f.seen)) [
    | inl seen ↦ rw (push, seen) h
    | inr new ↦
        rw (push, new)
          (record {
            products_own = h.products_own;
            collections_own = All-snoc f.collections abs h.collections_own own;
            policies_own = h.policies_own;
          })
  ]

  push_policy-own :
      (abs : String) (f : Found) → IsOwn abs → AreOwn f → AreOwn (push n (add_policy n) abs f)
  push_policy-own abs f own h = elim (Bool-cases (seen_in abs f.seen)) [
    | inl seen ↦ rw (push, seen) h
    | inr new ↦
        rw (push, new)
          (record {
            products_own = h.products_own;
            collections_own = h.collections_own;
            policies_own = All-snoc f.policies abs h.policies_own own;
          })
  ]

  file_under-own :
      (abs : String) (path : List ℕ) (f : Found)
      → IsOwn abs
      → AreOwn f
      → AreOwn (file_under n abs path f)
  file_under-own abs path f own h = elim (Bool-cases (starts_with (codes "/products/") path)) [
    | inl product ↦ rw (file_under, product) (push_product-own abs f own h)
    | inr other ↦ elim (Bool-cases (starts_with (codes "/collections/") path)) [
      | inl collection ↦ rw (file_under, other, collection) (push_collection-own abs f own h)
      | inr neither ↦
          elim (Bool-cases (
            starts_with (codes "/policies/") path
            || starts_with (codes "/pages/about") path
            || starts_with (codes "/pages/contact") path)) [
              | inl policy ↦ rw (file_under, other, neither, policy) (push_policy-own abs f own h)
              | inr none_of ↦ rw (file_under, other, neither, none_of) h
            ]
    ]
  ]

  discover_from-own :
      (hrefs : List String) (f : Found) → AreOwn f → AreOwn (discover_from n hrefs f)
  unfolding discover_from
  discover_from-own [] f h = h
  discover_from-own (href ∷ hrefs) f h =
      discover_from-own hrefs (file_link n (absolute n href) f)
        (filed (absolute n href) (absolute-IsOwn href))
    where
      filed :
          (o : Option String)
          → ((abs : String) → o ≡ some abs → IsOwn abs)
          → AreOwn (file_link n o f)
      filed none own = h
      filed (some abs) own = file_under-own abs (lower_path n abs) f (own abs refl) h

  -- The addresses that are filed are on the store's host.
  pub discover-own : (home : Page) → AreOwn (discover n home)
  unfolding discover
  discover-own home =
      discover_from-own (n.links home.html) (nothing_found n)
        (record { products_own = tt; collections_own = tt; policies_own = tt })
