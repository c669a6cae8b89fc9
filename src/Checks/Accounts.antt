-- ===== src/Checks/Accounts.antt =====
-- The two checks of internal/audit/checks/gmc.go that share the issues of the account.
use shopify_gmc.Base.{
  ℕ, ◌+◌, ◌≡◌, refl, Bool, Option, List, [], ◌∷◌, string_eq, arith, length, select, map,
}
use shopify_gmc.Audit.{Meta, Issue}
use shopify_gmc.Gmc.{AccountIssue}
use shopify_gmc.Checks.{
  Gmc, finish, reported, critical_issues, warning_issues, account_of, level_issues,
  account_suspended, account_warning, meta_account_suspended, meta_account_warning,
}

-- The issues that meet a test.
pub count_issues : (Issue → Bool) → List Issue → ℕ
count_issues p is = length (select p is)

pub issues-finish : (m : Meta) (is : List Issue) → (finish m is).issues ≡ is
issues-finish m [] = refl
issues-finish m (i ∷ is) = refl

split_issues :
    (p : Issue → Bool) (ais : List AccountIssue)
    → count_issues p (critical_issues ais) + count_issues p (warning_issues ais)
      ≡ count_issues p (map reported ais)
unfolding count_issues critical_issues warning_issues
split_issues p [] = refl
split_issues p (ai ∷ ais) = ground (arith, split_issues p ais)

-- Every issue of the account is reported by exactly one of the two checks: whatever is counted, the
-- issues of gmc_account_suspended and those of gmc_account_warning are as many together as Google
-- reports for the account, and none where there is no connection.
pub account_issues_once :
    (p : Issue → Bool) (gmc : Option Gmc)
    → count_issues p (account_suspended gmc).issues + count_issues p (account_warning gmc).issues
      ≡ count_issues p (map reported (level_issues (account_of gmc)))
unfolding account_suspended account_warning
account_issues_once p gmc =
    rw
      (
        issues-finish meta_account_suspended (critical_issues (level_issues (account_of gmc))),
        issues-finish meta_account_warning (warning_issues (level_issues (account_of gmc))),
      )
      (split_issues p (level_issues (account_of gmc)))
