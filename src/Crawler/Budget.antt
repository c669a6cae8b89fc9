-- ===== src/Crawler/Budget.antt =====
-- What the crawler of internal/crawler/crawler.go fetches: the pages that robots.txt allows, on the
-- store's host, within the budgets, in whatever order the fan-out ends.
use shopify_gmc.Base.{
  ℕ, zero, suc, ◌≤◌, ◌≡◌, refl, sym, ap, ◌∙◌, inl, inr, String, Bool, true, not, List, [], ◌∷◌,
  ◌++◌, ◌==◌, string_eq, ==_iff, All, All-append, arith, Bool-cases, length, select, take, map,
  length-append,
}
use shopify_gmc.Crawler.{Net, Found, Task, product, collection, policy, task_url, tasks_of}
use shopify_gmc.Crawler.Discover.{IsOwn, AreOwn}

-- The fan-out ends in some order of its tasks: each kind of task as often as before.
pub record IsOrder (order : List Task → List Task) : Type 0 where
  pub same :
      (p : Task → Bool) (ts : List Task) → length (select p (order ts)) ≡ length (select p ts)

module _ (n : Net) where
  abbrev pub OwnTask : Task → Type 0
  OwnTask task = IsOwn n (task_url task)

  abbrev is_foreign : Task → Bool
  is_foreign task = not (n.host (task_url task) == n.store_host)

  own-foreign : (ts : List Task) → All OwnTask ts → length (select is_foreign ts) ≡ 0
  own-foreign [] h = refl
  own-foreign (task ∷ ts) h =
      ground (arith, own-foreign ts h.1, ==_iff (n.host (task_url task)) n.store_host, h.0)

  foreign-own : (ts : List Task) → length (select is_foreign ts) ≡ 0 → All OwnTask ts
  foreign-own [] h = tt
  foreign-own (task ∷ ts) h = elim (Bool-cases (n.host (task_url task) == n.store_host)) [
    | inl own ↦ ((==_iff (n.host (task_url task)) n.store_host).0 own, foreign-own ts (rw own at h))
    | inr other ↦ cc (rw other at h)
  ]

  pub order-own :
      (order : List Task → List Task) (ts : List Task)
      → IsOrder order
      → All OwnTask ts
      → All OwnTask (order ts)
  order-own order ts is h = foreign-own (order ts) (is.same is_foreign ts ∙ own-foreign ts h)

  select-true : (ts : List Task) → length (select (λ task. true) ts) ≡ length ts
  select-true [] = refl
  select-true (task ∷ ts) = ap suc (select-true ts)

  pub length-order :
      (order : List Task → List Task) (ts : List Task)
      → IsOrder order
      → length (order ts) ≡ length ts
  length-order order ts is =
      sym (select-true (order ts)) ∙ is.same (λ task. true) ts ∙ select-true ts

  map-take-own :
      (kind : String → Task) (m : ℕ) (us : List String)
      → ((u : String) → task_url (kind u) ≡ u)
      → All (IsOwn n) us
      → All OwnTask (map kind (take m us))
  map-take-own kind zero us same h = tt
  map-take-own kind (suc m) [] same h = tt
  map-take-own kind (suc m) (u ∷ us) same h = (rw (same u) h.0, map-take-own kind m us same h.1)

  pub tasks_of-own : (f : Found) → AreOwn n f → All OwnTask (tasks_of n f)
  unfolding tasks_of
  tasks_of-own f h =
      All-append OwnTask (map product (take 25 f.products))
        (map collection (take 5 f.collections) ++ map policy (take 6 f.policies))
        (map-take-own product 25 f.products (λ u. refl) h.products_own)
        (All-append OwnTask (map collection (take 5 f.collections)) (map policy (take 6 f.policies))
          (map-take-own collection 5 f.collections (λ u. refl) h.collections_own)
          (map-take-own policy 6 f.policies (λ u. refl) h.policies_own))

  length-map-take :
      (kind : String → Task) (m : ℕ) (us : List String) → length (map kind (take m us)) ≤ m
  length-map-take kind zero us = omega arith
  length-map-take kind (suc m) [] = omega arith
  length-map-take kind (suc m) (u ∷ us) = omega (arith, length-map-take kind m us)

  pub length-tasks_of : (f : Found) → length (tasks_of n f) ≤ 36
  unfolding tasks_of
  length-tasks_of f = omega (
    arith,
    length-append (map product (take 25 f.products))
        (map collection (take 5 f.collections) ++ map policy (take 6 f.policies)),
    length-append (map collection (take 5 f.collections)) (map policy (take 6 f.policies)),
    length-map-take product 25 f.products,
    length-map-take collection 5 f.collections,
    length-map-take policy 6 f.policies,
  )
