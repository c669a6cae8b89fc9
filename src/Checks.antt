-- ===== src/Checks.antt =====
-- The checks of a Merchant Center account, its products and its feeds, internal/audit/checks/gmc.go.
-- What `fmt.Sprintf` makes of a number and of a percentage is a parameter.
pub mod Accounts
pub mod Items
pub mod Codes
mod Tests
use shopify_gmc.Base.{
  ℕ, zero, suc, ◌*◌, String, Bool, true, false, not, Option, none, some, List, [], ◌∷◌, ◌==◌,
  string_eq, nat_eq, if◌then◌else◌, ◌||◌, ◌&&◌, leb, ltb, length, any, select,
}
use shopify_gmc.Base.Text.{append_text}
use shopify_gmc.Audit.{Meta, Status, pass, fail, Issue, CheckResult}
use shopify_gmc.Gmc.{AccountIssue}

pub record AccountStatus : Type 0 where
  pub website_claimed : Bool
  pub account_level_issues : List AccountIssue

pub record DestinationStatus : Type 0 where
  pub disapproved_countries : List String
  pub status : String

pub record FeedError : Type 0 where
  pub code : String
  pub message : String

pub record DatafeedStatus : Type 0 where
  pub datafeed_id : String
  pub country : String
  pub language : String
  pub processing_status : String
  pub items_total : ℕ
  pub items_valid : ℕ
  pub errors : List FeedError

pub record ItemIssue : Type 0 where
  pub code : String
  pub description : String
  pub detail : String

pub record ProductStatus : Type 0 where
  pub product_id : String
  pub title : String
  pub link : String
  pub destination_statuses : List DestinationStatus
  pub item_level_issues : List ItemIssue

-- `cx.GMC`, as far as these checks read it.
pub record Gmc : Type 0 where
  pub account : Option AccountStatus
  pub products : List ProductStatus
  pub feeds : List DatafeedStatus

pub record Format : Type 0 where
  pub decimal : ℕ → String
  pub percent : ℕ → ℕ → String

-- `NewResult`, `FinishPassed` and `FinishFailed`.
abbrev new_result : Meta → CheckResult
new_result m = record { meta = m; status = pass; severity = m.default_severity; issues = [] }

abbrev finish_failed : CheckResult → List Issue → CheckResult
finish_failed r issues = record r { status = fail; issues = issues }

-- Passed where there is no issue.
abbrev pub finish : Meta → List Issue → CheckResult
finish m [] = new_result m
finish m (i ∷ is) = finish_failed (new_result m) (i ∷ is)

abbrev pub gmc_meta : String → String → String → Meta
gmc_meta id title severity = record {
  id = id;
  title = title;
  category = "gmc";
  default_severity = severity;
  ai_fix_eligible = false;
  source = "gmc_api";
}

abbrev pub meta_account_suspended : Meta
meta_account_suspended =
    gmc_meta "gmc_account_suspended" "Merchant Center account is not suspended" "critical"

abbrev pub meta_account_warning : Meta
meta_account_warning =
    gmc_meta "gmc_account_warning" "Merchant Center account has no warnings" "warning"

abbrev meta_website_not_claimed : Meta
meta_website_not_claimed =
    gmc_meta "gmc_website_not_claimed" "Store URL is claimed in Merchant Center" "warning"

abbrev meta_disapproval_rate : Meta
meta_disapproval_rate =
    gmc_meta "gmc_product_disapproval_rate" "Product disapproval rate is below threshold" "warning"

abbrev meta_feed_fetch_error : Meta
meta_feed_fetch_error =
    gmc_meta "gmc_feed_fetch_error" "Product feed fetched without errors" "critical"

abbrev pub reported : AccountIssue → Issue
reported ai = record {
  url = "";
  product_title = "";
  detail = ai.title;
  evidence = ai.detail;
  external_code = ai.id;
}

-- The loops over the account's issues: the critical ones, and all others.
unfoldable pub critical_issues : List AccountIssue → List Issue
critical_issues [] = []
critical_issues (ai ∷ more) =
    let rest = critical_issues more in
    if not (ai.severity == "critical") then rest else reported ai ∷ rest

unfoldable pub warning_issues : List AccountIssue → List Issue
warning_issues [] = []
warning_issues (ai ∷ more) =
    let rest = warning_issues more in if ai.severity == "critical" then rest else reported ai ∷ rest

-- Issues of the account, none where there is no connection or no account.
abbrev pub account_of : Option Gmc → Option AccountStatus
account_of none = none
account_of (some gmc) = gmc.account

abbrev pub level_issues : Option AccountStatus → List AccountIssue
level_issues none = []
level_issues (some account) = account.account_level_issues

-- `runGMCAccountSuspended`.
unfoldable pub account_suspended : Option Gmc → CheckResult
account_suspended gmc =
    finish meta_account_suspended (critical_issues (level_issues (account_of gmc)))

-- `runGMCAccountWarning`.
unfoldable pub account_warning : Option Gmc → CheckResult
account_warning gmc = finish meta_account_warning (warning_issues (level_issues (account_of gmc)))

abbrev unclaimed : Option AccountStatus → List Issue
unclaimed none = []
unclaimed (some account) =
    if account.website_claimed
    then []
    else record {
      url = "";
      product_title = "";
      detail = "Your store URL has not been verified and claimed in Merchant Center.";
      evidence = "websiteClaimed=false on accountstatuses.get";
      external_code = "website_not_claimed";
    }
      ∷ []

-- `runGMCWebsiteNotClaimed`.
unfoldable pub website_not_claimed : Option Gmc → CheckResult
website_not_claimed gmc = finish meta_website_not_claimed (unclaimed (account_of gmc))

-- `hasDisapprovedDestination`.
abbrev pub has_disapproved_destination : ProductStatus → Bool
has_disapproved_destination p =
    any (λ d. d.status == "disapproved" || ltb 0 (length d.disapproved_countries))
      p.destination_statuses

module _ (k : Format) where
  abbrev rate_issue : ℕ → ℕ → Issue
  rate_issue disapproved total = record {
    url = "";
    product_title = "";
    detail = append_text (k.decimal disapproved) (
        append_text " of " (
          append_text (k.decimal total) (
            append_text " products are disapproved ("
              (append_text (k.percent disapproved total) "%)."))));
    evidence = "Per-product item-level issues are listed under specific item issues.";
    external_code = "high_disapproval_rate";
  }

  -- The rates 0.05 and 0.01 as fractions, which the floats agree with below 2 ^ 50 products.
  abbrev pub rate_result : ℕ → ℕ → CheckResult
  rate_result disapproved total =
      if disapproved == 0
      then new_result meta_disapproval_rate
      else if leb total (20 * disapproved)
      then record (finish_failed (new_result meta_disapproval_rate)
          (rate_issue disapproved total ∷ [])) { severity = "critical" }
      else if ltb (100 * disapproved) total
      then new_result meta_disapproval_rate
      else finish_failed (new_result meta_disapproval_rate) (rate_issue disapproved total ∷ [])

  abbrev rate_of : List ProductStatus → CheckResult
  rate_of [] = new_result meta_disapproval_rate
  rate_of (p ∷ ps) =
      rate_result (length (select has_disapproved_destination (p ∷ ps))) (length (p ∷ ps))

  -- `runGMCDisapprovalRate`.
  unfoldable pub disapproval_rate : Option Gmc → CheckResult
  disapproval_rate none = new_result meta_disapproval_rate
  disapproval_rate (some gmc) = rate_of gmc.products

  -- The first error, or the status of the processing.
  abbrev feed_error : DatafeedStatus → List FeedError → FeedError
  feed_error f (e ∷ es) = e
  feed_error f [] = record {
    code = "feed_processing_failure";
    message =
        if f.processing_status == "success"
        then "Feed processing failed."
        else append_text "Feed processing status: " f.processing_status;
  }

  abbrev feed_issue : DatafeedStatus → FeedError → Issue
  feed_issue f e = record {
    url = "";
    product_title = "";
    detail = append_text "Feed " (
        append_text f.datafeed_id (
          append_text " (" (
            append_text f.country
              (append_text "/" (append_text f.language (append_text "): " e.message))))));
    evidence = append_text "itemsTotal=" (
        append_text (k.decimal f.items_total)
          (append_text " itemsValid=" (k.decimal f.items_valid)));
    external_code = e.code;
  }

  abbrev is_fetched : DatafeedStatus → Bool
  is_fetched f = f.processing_status == "success" && length f.errors == 0

  unfoldable pub feed_issues : List DatafeedStatus → List Issue
  feed_issues [] = []
  feed_issues (f ∷ fs) =
      let rest = feed_issues fs in
      if is_fetched f then rest else feed_issue f (feed_error f f.errors) ∷ rest

  -- `runGMCFeedFetchError`.
  unfoldable pub feed_fetch_error : Option Gmc → CheckResult
  feed_fetch_error none = new_result meta_feed_fetch_error
  feed_fetch_error (some gmc) = finish meta_feed_fetch_error (feed_issues gmc.feeds)
