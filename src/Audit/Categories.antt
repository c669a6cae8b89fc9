-- ===== src/Audit/Categories.antt =====
-- The roll-up by category of `runScore`, internal/audit/pipeline.go.
use shopify_gmc.Base.{
  ℕ, ◌+◌, ◌≡◌, refl, ap, ◌∙◌, String, Bool, true, false, Option, none, some, List, [], ◌∷◌,
  string_eq, if◌then◌else◌, default, length, sum_of, select, arith,
}
use shopify_gmc.Base.Table.{Table, lookup, insert}
use shopify_gmc.Audit.{Status, pass, fail, info, CheckResult, CategorySummary, AuditOutput}
use shopify_gmc.Audit.Score.{
  Tally, tally_result, tally_all, empty_tally, run_score, fresh_category, tally_category_of,
  tally_category, sort_categories, insert_sorted,
}
use shopify_gmc.Audit.Stage.{end_stage}

abbrev pub has_passed : CheckResult → Bool
has_passed r = elim r.status [ pass ↦ true | fail ↦ false | info ↦ false ]

abbrev pub has_failed : CheckResult → Bool
has_failed r = elim r.status [ pass ↦ false | fail ↦ true | info ↦ false ]

-- A counter of the categories, over all of them.
module _ (g : CategorySummary → ℕ) where
  abbrev all_of : Table String CategorySummary → ℕ
  all_of cats = sum_of (λ c. g c.1) cats

  abbrev before : Option CategorySummary → ℕ
  before none = 0
  before (some c) = g c

  insert-all_of :
      (k : String) (c : CategorySummary) (cats : Table String CategorySummary)
      → all_of (insert k c cats) + before (lookup k cats) ≡ all_of cats + g c
  unfolding insert lookup
  insert-all_of k c [] = omega arith
  insert-all_of k c ((j, d) ∷ cats) = ground (arith, insert-all_of k c cats)

  sorted-sum :
      (c : CategorySummary) (cs : List CategorySummary)
      → sum_of g (insert_sorted c cs) ≡ g c + sum_of g cs
  unfolding insert_sorted
  sorted-sum c [] = refl
  sorted-sum c (d ∷ ds) = ground (arith, sorted-sum c ds)

  sort_categories-sum :
      (cats : Table String CategorySummary) → sum_of g (sort_categories cats) ≡ all_of cats
  unfolding sort_categories
  sort_categories-sum [] = refl
  sort_categories-sum ((k, c) ∷ cats) =
      sorted-sum c (sort_categories cats) ∙ ap (λ n. g c + n) (sort_categories-sum cats)

  module _ (counts : CheckResult → Bool) (fresh : (name : String) → g (fresh_category name) ≡ 0)
      (steps : (r : CheckResult) (c : CategorySummary)
        → g (tally_category r.status r.severity c) ≡ g c + (if counts r then 1 else 0)) where
    step-sum :
        (r : CheckResult) (cats : Table String CategorySummary)
        → all_of (tally_category_of r cats) ≡ all_of cats + (if counts r then 1 else 0)
    unfolding tally_category_of
    step-sum r cats =
        let name = r.meta.category in
        let old = default (lookup name cats) (fresh_category name) in
        ground (
          arith,
          insert-all_of name (tally_category r.status r.severity old) cats,
          fresh name,
          steps r old,
        )

    tally-sum :
        (rs : List CheckResult) (t : Tally)
        → all_of (tally_all rs t).cats ≡ all_of t.cats + length (select counts rs)
    unfolding tally_all tally_result
    tally-sum [] t = omega arith
    tally-sum (r ∷ rs) t = ground (arith, tally-sum rs (tally_result r t), step-sum r t.cats)

    categories-sum :
        (out : AuditOutput)
        → sum_of g (run_score out).categories ≡ length (select counts out.results)
    unfolding run_score end_stage
    categories-sum out =
        sort_categories-sum (tally_all out.results empty_tally).cats
        ∙ (tally-sum out.results empty_tally ∙ omega arith)

-- The roll-up accounts for every check: over all the categories, the passed ones are the results that
-- passed, and the failed ones those that failed.
pub run_score_categories :
    (out : AuditOutput)
    → (sum_of (λ c. c.passed) (run_score out).categories ≡ length (select has_passed out.results))
      × (sum_of (λ c. c.failed) (run_score out).categories ≡ length (select has_failed out.results))
run_score_categories out = (
  categories-sum (λ c. c.passed) has_passed (λ name. refl)
      (λ r c. passed_step r.status r.severity c) out,
  categories-sum (λ c. c.failed) has_failed (λ name. refl)
      (λ r c. failed_step r.status r.severity c) out,
)
  where
    passed_step :
        (status : Status) (severity : String) (c : CategorySummary)
        → (tally_category status severity c).passed
          ≡ c.passed + (if elim status [ pass ↦ true | fail ↦ false | info ↦ false ] then 1 else 0)
    passed_step pass severity c = unfold tally_category in omega arith
    passed_step fail severity c = unfold tally_category in omega arith
    passed_step info severity c = unfold tally_category in omega arith

    failed_step :
        (status : Status) (severity : String) (c : CategorySummary)
        → (tally_category status severity c).failed
          ≡ c.failed + (if elim status [ pass ↦ false | fail ↦ true | info ↦ false ] then 1 else 0)
    failed_step pass severity c = unfold tally_category in omega arith
    failed_step fail severity c = unfold tally_category in omega arith
    failed_step info severity c = unfold tally_category in omega arith
