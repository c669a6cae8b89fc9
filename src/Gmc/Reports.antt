-- ===== src/Gmc/Reports.antt =====
-- The status of an account and the pages of its products, internal/gmc/client.go.
use shopify_gmc.Base.{
  ℕ, zero, suc, ◌≤◌, ◌≡◌, refl, ap, ◌∙◌, String, Bool, false, some, List, [], ◌∷◌, ◌++◌, ◌==◌,
  string_eq, if◌then◌else◌, ◌||◌, ◌⊎◌, inr, arith,
}
use mathlib.Core.List.{append_assoc}
use shopify_gmc.Gmc.{
  AccountIssue, worst_from, synthesise_status, ProductPage, list_from, list_product_statuses,
}

-- Whether an issue has one of the severities.
pub has_severity : String → List AccountIssue → Bool
has_severity severity [] = false
has_severity severity (i ∷ is) = i.severity == severity || has_severity severity is

-- The status of an account by what its issues contain.
pub status_by_content : List AccountIssue → String
status_by_content is =
    if has_severity "critical" is
    then "suspended"
    else if has_severity "error" is || has_severity "suggestion" is
    then "warning"
    else "active"

worst_from_warning :
    (is : List AccountIssue)
    → worst_from "warning" is ≡ (if has_severity "critical" is then "suspended" else "warning")
unfolding worst_from has_severity
worst_from_warning [] = refl
worst_from_warning (i ∷ is) = ground (arith, worst_from_warning is)

-- The status of an account is "suspended" where any of its issues is critical, in whatever order they
-- come; else "warning" where one is an error or a suggestion; else "active".
pub synthesise_status_lem : (is : List AccountIssue) → synthesise_status is ≡ status_by_content is
unfolding synthesise_status worst_from has_severity status_by_content
synthesise_status_lem [] = refl
synthesise_status_lem (i ∷ is) = ground (arith, worst_from_warning is, synthesise_status_lem is)

-- The pages from a token on, up to the one that names no next page, with their number.
pub data Pages {ℓ} {P E : Type ℓ} (get_page : String → E ⊎ ProductPage P)
    : String → ℕ → List P → Type ℓ where
  final_page :
      {token : String} {page : ProductPage P}
      → get_page token ≡ inr page
      → page.next_page_token ≡ ""
      → Pages get_page token 1 page.resources
  next_page :
      {token : String} {page : ProductPage P} {count : ℕ} {rest : List P}
      → get_page token ≡ inr page
      → (page.next_page_token == "") ≡ false
      → Pages get_page page.next_page_token count rest
      → Pages get_page token (suc count) (page.resources ++ rest)

module _ {ℓ} {P E : Type ℓ} (get_page : String → E ⊎ ProductPage P) where
  list_from-Pages :
      (fuel : ℕ) {token : String} {count : ℕ} {rest : List P} (all : List P)
      → Pages get_page token count rest
      → count ≤ fuel
      → list_from get_page fuel token all ≡ some (inr (all ++ rest))
  unfolding list_from
  list_from-Pages zero all (final_page is end) enough = ground (arith, enough)
  list_from-Pages zero all (next_page is more after) enough = ground (arith, enough)
  list_from-Pages (suc fuel) all (final_page is end) enough = rw (list_from, is, end) refl
  list_from-Pages (suc fuel) all (next_page {page = page} {rest = rest} is more after) enough =
      rw (list_from, is, more)
        (list_from-Pages fuel (all ++ page.resources) after (omega (arith, enough))
          ∙ ap (λ ps. some (inr ps)) (append_assoc all page.resources rest))

  -- Where the pages of the products end after `count` pages, the loop that reads them ends once it may
  -- read as many, with the products of all pages in their order.
  pub list_product_statuses_lem :
      {count : ℕ} {products : List P} (fuel : ℕ)
      → Pages get_page "" count products
      → count ≤ fuel
      → list_product_statuses get_page fuel ≡ some (inr products)
  unfolding list_product_statuses
  list_product_statuses_lem fuel pages enough = list_from-Pages fuel [] pages enough
