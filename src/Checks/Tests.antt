-- ===== src/Checks/Tests.antt =====
-- An account with a critical issue and a warning, and products of which one in ten is disapproved.
use shopify_gmc.Base.{
  ◌≡◌, refl, String, true, some, List, [], ◌∷◌, ◌==◌, string_eq, map, ◌&&◌, ◌||◌, not,
}
use shopify_gmc.Checks.{Gmc, Format, ProductStatus, disapproval_rate}
use shopify_gmc.Checks.Items.{
  specific_item_issue, image_policy_violation, price_mismatch, availability_mismatch, products_of,
  is_image_policy_code, dedicated,
}
use shopify_gmc.Checks.Codes.{reports, occurs, item_codes_lem}

abbrev product : String → List String → ProductStatus
product id found = record {
  product_id = id;
  title = "T";
  link = "L";
  destination_statuses = record { disapproved_countries = []; status = "disapproved" } ∷ [];
  item_level_issues = map (λ code. record { code = code; description = "D"; detail = "E" }) found;
}

abbrev gmc : Gmc
gmc = record {
  account = some (record {
    website_claimed = true;
    account_level_issues =
        record { id = "policy"; title = "Suspended"; severity = "critical"; detail = "" }
        ∷ record { id = "shipping"; title = "No shipping"; severity = "error"; detail = "" }
        ∷ [];
  });
  products =
      product "a" ("item_missing_required_attribute" ∷ "image_link_broken" ∷ [])
      ∷ product "b" ("landing_page_price_mismatch" ∷ "item_missing_required_attribute" ∷ [])
      ∷ [];
  feeds = [];
}

abbrev format : Format
format = record { decimal = λ n. "n"; percent = λ n total. "p" }

severity_of : (disapproval_rate format (some gmc)).severity ≡ "critical"
unfolding disapproval_rate
severity_of = refl

abbrev image_code : String
image_code = "image_link_broken"

item_codes_lem_example :
    (reports image_code (price_mismatch (some gmc)) ≡ (
      occurs image_code (products_of (some gmc)) && ("landing_page_price_mismatch" == image_code)))
    × (reports image_code (availability_mismatch (some gmc)) ≡ (
        occurs image_code (products_of (some gmc))
        && ("landing_page_availability_mismatch" == image_code)))
    × (reports image_code (image_policy_violation format (some gmc))
        ≡ (is_image_policy_code image_code && occurs image_code (products_of (some gmc))))
    × (reports image_code (specific_item_issue format (some gmc)) ≡ (
        not (dedicated image_code || is_image_policy_code image_code)
        && occurs image_code (products_of (some gmc))))
item_codes_lem_example = item_codes_lem format image_code (some gmc)
