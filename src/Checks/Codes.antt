-- ===== src/Checks/Codes.antt =====
-- The codes of the item-level issues in the checks of internal/audit/checks/gmc.go.
use shopify_gmc.Base.{
  ◌≡◌, refl, ap, ◌∙◌, String, Bool, true, false, not, Option, none, some, List, [], ◌∷◌, ◌==◌,
  string_eq, ==_iff, if◌then◌else◌, ◌||◌, ◌&&◌, arith, any, map, inl, inr, Bool-cases, is_some,
}
use shopify_gmc.Base.Table.{Table, lookup, insert, lookup-insert}
use shopify_gmc.Audit.{Meta, Issue, CheckResult}
use shopify_gmc.Checks.{Gmc, Format, ItemIssue, ProductStatus, finish}
use shopify_gmc.Checks.Accounts.{issues-finish}
use shopify_gmc.Checks.Items.{
  is_image_policy_code, dedicated, Bucket, join_bucket, group_issues, group_products, insert_key,
  sort_keys, products_of, bucket_issue, bucket_issues, specific_item_issue, image_policy_violation,
  find_code, Affected, affect, affected_from, product_issue, affected_issues, item_code_check,
  price_mismatch, availability_mismatch,
}

-- Whether one of the issues has the code, in the products and in the result of a check.
pub occurs_among : String → List ItemIssue → Bool
occurs_among code [] = false
occurs_among code (ii ∷ more) = ii.code == code || occurs_among code more

pub occurs : String → List ProductStatus → Bool
occurs code [] = false
occurs code (p ∷ ps) = occurs_among code p.item_level_issues || occurs code ps

pub reports : String → CheckResult → Bool
reports code r = any (λ i. i.external_code == code) r.issues

module _ {ℓ} {V : Type ℓ} where
  holds : String → Table String V → Bool
  holds code [] = false
  holds code ((name, v) ∷ m) = name == code || holds code m

  holds-lookup : (code : String) (m : Table String V) → holds code m ≡ is_some (lookup code m)
  unfolding holds lookup
  holds-lookup code [] = refl
  holds-lookup code ((name, v) ∷ m) = ground (arith, holds-lookup code m)

  holds-insert_key :
      (code : String) (entry : String × V) (m : Table String V)
      → holds code (insert_key entry m) ≡ (entry.0 == code || holds code m)
  unfolding holds insert_key
  holds-insert_key code entry [] = refl
  holds-insert_key code entry (first ∷ rest) = ground (arith, holds-insert_key code entry rest)

  holds-sort_keys : (code : String) (m : Table String V) → holds code (sort_keys m) ≡ holds code m
  unfolding holds sort_keys
  holds-sort_keys code [] = refl
  holds-sort_keys code (entry ∷ m) =
      holds-insert_key code entry (sort_keys m)
      ∙ ap (λ b. entry.0 == code || b) (holds-sort_keys code m)

module _ (skip : String → Bool) (code : String) where
  same_skip : (other : String) → (other == code) ≡ true → skip other ≡ skip code
  same_skip other same = ap skip ((==_iff other code).0 same)

  holds-group_one :
      (ii : ItemIssue) (b : Bucket) (groups : Table String Bucket)
      → is_some (lookup code (if skip ii.code then groups else insert ii.code b groups))
        ≡ (is_some (lookup code groups) || not (skip code) && (ii.code == code))
  holds-group_one ii b groups =
      ground (arith, lookup-insert ii.code code b groups, same_skip ii.code)

  holds-group_issues :
      (id : String) (iis : List ItemIssue) (groups : Table String Bucket)
      → is_some (lookup code (group_issues skip id iis groups))
        ≡ (is_some (lookup code groups) || not (skip code) && occurs_among code iis)
  unfolding group_issues occurs_among
  holds-group_issues id [] groups = ground arith
  holds-group_issues id (ii ∷ more) groups = ground (
    arith,
    holds-group_issues id more (
        if skip ii.code
        then groups
        else insert ii.code (join_bucket id ii (lookup ii.code groups)) groups),
    holds-group_one ii (join_bucket id ii (lookup ii.code groups)) groups,
  )

  holds-group_products :
      (ps : List ProductStatus) (groups : Table String Bucket)
      → is_some (lookup code (group_products skip ps groups))
        ≡ (is_some (lookup code groups) || not (skip code) && occurs code ps)
  unfolding group_products occurs
  holds-group_products [] groups = ground arith
  holds-group_products (p ∷ ps) groups = ground (
    arith,
    holds-group_products ps (group_issues skip p.product_id p.item_level_issues groups),
    holds-group_issues p.product_id p.item_level_issues groups,
  )

reports-finish :
    (code : String) (m : Meta) (is : List Issue)
    → reports code (finish m is) ≡ any (λ i. i.external_code == code) is
unfolding reports
reports-finish code m is = ap (any (λ i. i.external_code == code)) (issues-finish m is)

any-bucket_issue :
    (k : Format) (code : String) (m : Table String Bucket)
    → any (λ i. i.external_code == code) (map (bucket_issue k) m) ≡ holds code m
unfolding holds
any-bucket_issue k code [] = refl
any-bucket_issue k code ((name, b) ∷ m) = ap (λ c. name == code || c) (any-bucket_issue k code m)

reports-group :
    (k : Format) (code : String) (m : Meta) (skip : String → Bool) (ps : List ProductStatus)
    → reports code (finish m (bucket_issues k (group_products skip ps [])))
      ≡ (not (skip code) && occurs code ps)
unfolding lookup
reports-group k code m skip ps =
    reports-finish code m (bucket_issues k (group_products skip ps []))
    ∙ any-bucket_issue k code (sort_keys (group_products skip ps []))
    ∙ holds-sort_keys code (group_products skip ps [])
    ∙ holds-lookup code (group_products skip ps [])
    ∙ holds-group_products skip code ps []

-- Whether a product is affected.
is_affected : Table String ProductStatus → Bool
is_affected [] = false
is_affected (entry ∷ m) = true

is_affected-insert :
    (id : String) (p : ProductStatus) (m : Table String ProductStatus)
    → is_affected (insert id p m) ≡ true
unfolding is_affected insert
is_affected-insert id p [] = refl
is_affected-insert id p ((name, q) ∷ m) = ground arith

is_affected-sort_keys : (m : Table String ProductStatus) → is_affected (sort_keys m) ≡ is_affected m
unfolding is_affected sort_keys insert_key
is_affected-sort_keys [] = refl
is_affected-sort_keys (entry ∷ m) = inserted (sort_keys m)
  where
    inserted : (rest : Table String ProductStatus) → is_affected (insert_key entry rest) ≡ true
    inserted [] = refl
    inserted (first ∷ rest) = ground arith

is_some-find_code :
    (code : String) (iis : List ItemIssue) → is_some (find_code code iis) ≡ occurs_among code iis
unfolding occurs_among
is_some-find_code code [] = refl
is_some-find_code code (ii ∷ more) = ground (arith, is_some-find_code code more)

affect-is_affected :
    (p : ProductStatus) (o : Option ItemIssue) (a : Affected)
    → is_affected (affect p o a).products ≡ (is_affected a.products || is_some o)
affect-is_affected p none a = ground arith
affect-is_affected p (some ii) a = is_affected-insert p.product_id p a.products ∙ ground arith

is_affected-from :
    (code : String) (ps : List ProductStatus) (a : Affected)
    → is_affected (affected_from code ps a).products ≡ (is_affected a.products || occurs code ps)
unfolding affected_from occurs
is_affected-from code [] a = ground arith
is_affected-from code (p ∷ ps) a = ground (
  arith,
  is_affected-from code ps (affect p (find_code code p.item_level_issues) a),
  affect-is_affected p (find_code code p.item_level_issues) a,
  is_some-find_code code p.item_level_issues,
)

any-product_issue :
    (code own summary detail : String) (m : Table String ProductStatus)
    → any (λ i. i.external_code == code) (map (product_issue own summary detail) m)
      ≡ (is_affected m && (own == code))
unfolding is_affected
any-product_issue code own summary detail [] = refl
any-product_issue code own summary detail (entry ∷ m) =
    ground (arith, any-product_issue code own summary detail m)

reports-item_code :
    (code own summary : String) (m : Meta) (gmc : Option Gmc)
    → reports code (item_code_check m gmc own summary)
      ≡ (occurs own (products_of gmc) && (own == code))
unfolding is_affected
reports-item_code code own summary m gmc =
    reports-finish code m (affected_issues own summary affected)
    ∙ any-product_issue code own summary affected.example_detail (sort_keys affected.products)
    ∙ ap (λ b. b && (own == code))
        (is_affected-sort_keys affected.products
          ∙ is_affected-from own (products_of gmc) none_affected)
  where
    none_affected : Affected
    none_affected = record { products = []; example_detail = "" }

    affected : Affected
    affected = affected_from own (products_of gmc) none_affected

same_occurs :
    (code own : String) (ps : List ProductStatus)
    → (occurs own ps && (own == code)) ≡ (occurs code ps && (own == code))
same_occurs code own ps = elim (Bool-cases (own == code)) [
  | inl same ↦ rw ((==_iff own code).0 same) refl
  | inr other ↦ rw other (ground arith)
]

-- Which check reports a code of an item-level issue: the price check and the availability check their
-- own codes, the image check the image codes, and the check of specific issues all others; each
-- exactly where the code occurs in a product, and nothing that does not occur.
pub item_codes_lem :
    (k : Format) (code : String) (gmc : Option Gmc)
    → (reports code (price_mismatch gmc)
        ≡ (occurs code (products_of gmc) && ("landing_page_price_mismatch" == code)))
      × (reports code (availability_mismatch gmc)
          ≡ (occurs code (products_of gmc) && ("landing_page_availability_mismatch" == code)))
      × (reports code (image_policy_violation k gmc)
          ≡ (is_image_policy_code code && occurs code (products_of gmc)))
      × (reports code (specific_item_issue k gmc)
          ≡ (not (dedicated code || is_image_policy_code code) && occurs code (products_of gmc)))
unfolding price_mismatch availability_mismatch image_policy_violation specific_item_issue
item_codes_lem k code gmc = (
  reports-item_code code "landing_page_price_mismatch" _ _ gmc
      ∙ same_occurs code "landing_page_price_mismatch" (products_of gmc),
  reports-item_code code "landing_page_availability_mismatch" _ _ gmc
      ∙ same_occurs code "landing_page_availability_mismatch" (products_of gmc),
  reports-group k code _ (λ c. not (is_image_policy_code c)) (products_of gmc) ∙ ground arith,
  reports-group k code _ (λ c. dedicated c || is_image_policy_code c) (products_of gmc),
)
