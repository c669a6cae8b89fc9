-- ===== src/Checks/Items.antt =====
-- The checks of the item-level issues, internal/audit/checks/gmc.go: those with a check of their own,
-- the image policy, and all others grouped by their code.
use shopify_gmc.Base.{
  ℕ, String, Bool, not, Option, none, some, List, [], ◌∷◌, ◌==◌, string_eq, nat_eq, if◌then◌else◌,
  ◌||◌, length, map,
}
use shopify_gmc.Base.Text.{codes, lower_code, starts_with, occurs_in, append_text}
use shopify_gmc.Base.Bytes.{bytes_equal}
use shopify_gmc.Base.Table.{Table, lookup, insert}
use shopify_gmc.Audit.{Meta, Issue, CheckResult}
use shopify_gmc.Audit.Score.{codes_ltb}
use shopify_gmc.Checks.{Gmc, Format, ItemIssue, ProductStatus, finish, gmc_meta}

-- `isImagePolicyCode`.
unfoldable pub is_image_policy_code : String → Bool
is_image_policy_code code =
    let c = map lower_code (codes code) in
    starts_with (codes "image_link_") c
    || occurs_in (codes "image_policy") c
    || bytes_equal c (codes "promotional_overlay")
    || bytes_equal c (codes "missing_image_link")

abbrev pub dedicated : String → Bool
dedicated code =
    code == "landing_page_price_mismatch" || code == "landing_page_availability_mismatch"

-- The products are a set of ids.
pub record Bucket : Type 0 where
  pub example : ItemIssue
  pub products : List String

abbrev add_id : String → List String → List String
add_id id [] = id ∷ []
add_id id (i ∷ is) = let rest = add_id id is in if i == id then i ∷ is else i ∷ rest

abbrev pub join_bucket : String → ItemIssue → Option Bucket → Bucket
join_bucket id ii none = record { example = ii; products = id ∷ [] }
join_bucket id ii (some b) = record b { products = add_id id b.products }

-- The loops that group the issues by their code, past those that `skip` tells.
unfoldable pub group_issues :
    (String → Bool) → String → List ItemIssue → Table String Bucket → Table String Bucket
group_issues skip id [] groups = groups
group_issues skip id (ii ∷ more) groups = group_issues skip id more (
    if skip ii.code
    then groups
    else insert ii.code (join_bucket id ii (lookup ii.code groups)) groups)

unfoldable pub group_products :
    (String → Bool) → List ProductStatus → Table String Bucket → Table String Bucket
group_products skip [] groups = groups
group_products skip (p ∷ ps) groups =
    group_products skip ps (group_issues skip p.product_id p.item_level_issues groups)

-- `sort.Strings` of the keys of a map, with what the map holds for them.
unfoldable pub insert_key {ℓ} : {V : Type ℓ} → String × V → Table String V → Table String V
insert_key entry [] = entry ∷ []
insert_key entry (first ∷ rest) =
    let after = insert_key entry rest in
    if codes_ltb (codes first.0) (codes entry.0) then first ∷ after else entry ∷ first ∷ rest

unfoldable pub sort_keys {ℓ} : {V : Type ℓ} → Table String V → Table String V
sort_keys [] = []
sort_keys (entry ∷ m) = insert_key entry (sort_keys m)

abbrev plural : ℕ → String
plural n = if n == 1 then "" else "s"

-- The products, none where there is no connection.
abbrev pub products_of : Option Gmc → List ProductStatus
products_of none = []
products_of (some gmc) = gmc.products

module _ (k : Format) where
  abbrev pub bucket_issue : String × Bucket → Issue
  bucket_issue (code, b) = record {
    url = "";
    product_title = "";
    detail = append_text b.example.description (
        append_text " — affects " (
          append_text (k.decimal (length b.products))
            (append_text " product" (append_text (plural (length b.products)) "."))));
    evidence = b.example.detail;
    external_code = code;
  }

  abbrev pub bucket_issues : Table String Bucket → List Issue
  bucket_issues groups = map bucket_issue (sort_keys groups)

  -- `runGMCSpecificItemIssue`.
  unfoldable pub specific_item_issue : Option Gmc → CheckResult
  specific_item_issue gmc =
      finish (gmc_meta "gmc_specific_item_issue" "Item-level issues reported by Google" "warning") (
        bucket_issues (
          group_products (λ code. dedicated code || is_image_policy_code code) (products_of gmc)
            []))

  -- `runGMCImagePolicyViolation`.
  unfoldable pub image_policy_violation : Option Gmc → CheckResult
  image_policy_violation gmc =
      finish
        (gmc_meta "gmc_image_policy_violation" "Product images comply with Google's image policy"
          "warning")
        (bucket_issues
          (group_products (λ code. not (is_image_policy_code code)) (products_of gmc) []))

-- The first issue of the code.
abbrev pub find_code : String → List ItemIssue → Option ItemIssue
find_code code [] = none
find_code code (ii ∷ more) =
    let rest = find_code code more in if ii.code == code then some ii else rest

-- The affected products by their ids, and the example, the last one found.
pub record Affected : Type 0 where
  pub products : Table String ProductStatus
  pub example_detail : String

abbrev pub affect : ProductStatus → Option ItemIssue → Affected → Affected
affect p none a = a
affect p (some ii) a = record {
  products = insert p.product_id p a.products;
  example_detail = ii.detail;
}

unfoldable pub affected_from : String → List ProductStatus → Affected → Affected
affected_from code [] a = a
affected_from code (p ∷ ps) a =
    affected_from code ps (affect p (find_code code p.item_level_issues) a)

abbrev pub product_issue : String → String → String → String × ProductStatus → Issue
product_issue code summary detail (id, p) = record {
  url = p.link;
  product_title = p.title;
  detail = summary;
  evidence = detail;
  external_code = code;
}

abbrev pub affected_issues : String → String → Affected → List Issue
affected_issues code summary a =
    map (product_issue code summary a.example_detail) (sort_keys a.products)

-- `runItemCodeCheck`.
abbrev pub item_code_check : Meta → Option Gmc → String → String → CheckResult
item_code_check m gmc code summary = finish m (
    affected_issues code summary
      (affected_from code (products_of gmc) (record { products = []; example_detail = "" })))

-- `runGMCLandingPagePriceMismatch`.
unfoldable pub price_mismatch : Option Gmc → CheckResult
price_mismatch gmc =
    item_code_check
      (gmc_meta "gmc_landing_page_price_mismatch" "Landing-page prices match feed prices"
        "critical")
      gmc "landing_page_price_mismatch" "Price on landing page does not match feed."

-- `runGMCLandingPageAvailabilityMismatch`.
unfoldable pub availability_mismatch : Option Gmc → CheckResult
availability_mismatch gmc =
    item_code_check
      (gmc_meta "gmc_landing_page_availability_mismatch"
        "Landing-page availability matches feed availability" "warning")
      gmc "landing_page_availability_mismatch" "Availability on landing page does not match feed."
