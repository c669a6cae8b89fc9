-- ===== src/Audit/Score.antt =====
-- Stage 4, `runScore` of internal/audit/pipeline.go.
use shopify_gmc.Base.{
  ℕ, suc, ◌+◌, ◌*◌, String, Bool, true, false, not, List, [], ◌∷◌, ◌==◌, string_eq, if◌then◌else◌,
  default, length, ltb, ◌&&◌, ◌||◌, nat_beq,
}
use shopify_gmc.Base.Int.{ℤ, pos, negsuc, ◌-ℤ◌, ltb_ℤ}
use shopify_gmc.Base.Table.{Table, lookup, insert}
use shopify_gmc.Base.Text.{codes}
use shopify_gmc.Audit.{
  Status, pass, fail, info, CheckResult, CategorySummary, AuditOutput, ok, scored,
}
use shopify_gmc.Audit.Stage.{end_stage}

pub severity_rank : String → ℕ
severity_rank s =
    if s == "critical"
    then 4
    else if s == "error"
    then 3
    else if s == "warning"
    then 2
    else if s == "info"
    then 1
    else 0

unfoldable pub weight_for : String → ℕ
weight_for s =
    if s == "critical" then 10 else if s == "error" then 5 else if s == "warning" then 2 else 0

unfoldable pub risk_level : ℤ → String
risk_level score =
    if not (ltb_ℤ score (pos 80))
    then "low"
    else if not (ltb_ℤ score (pos 50))
    then "medium"
    else "high"

-- What the loop over the results changes.
pub record Tally : Type 0 where
  pub score : ℤ
  pub counts : Table String ℕ
  pub cats : Table String CategorySummary

abbrev pub fresh_category : String → CategorySummary
fresh_category category = record {
  category = category;
  passed = 0;
  failed = 0;
  worst_status = pass;
  worst_severity = "info";
}

-- The change to the result's category, by the result's status and severity.
unfoldable pub tally_category : Status → String → CategorySummary → CategorySummary
unfolding severity_rank
tally_category pass severity cat = record cat { passed = suc cat.passed }
tally_category fail severity cat = record cat {
  failed = suc cat.failed;
  worst_status = fail;
  worst_severity =
      if ltb (severity_rank cat.worst_severity) (severity_rank severity)
      then severity
      else cat.worst_severity;
}
tally_category info severity cat = cat

-- counts[key] += n.
unfoldable pub add_count : String → ℕ → Table String ℕ → Table String ℕ
add_count key n counts = insert key (default (lookup key counts) 0 + n) counts

unfoldable pub tally_category_of :
    CheckResult → Table String CategorySummary → Table String CategorySummary
tally_category_of r cats =
    insert r.meta.category
      (tally_category r.status r.severity
        (default (lookup r.meta.category cats) (fresh_category r.meta.category)))
      cats

unfoldable pub tally_score : Status → String → ℕ → ℤ → ℤ
tally_score fail severity issues score = score -ℤ pos (weight_for severity * issues)
tally_score status severity issues score = score

unfoldable pub tally_counts : Status → String → ℕ → Table String ℕ → Table String ℕ
tally_counts pass severity issues counts = counts
tally_counts fail severity issues counts = add_count severity issues counts
tally_counts info severity issues counts = add_count "info" issues counts

-- One round of the loop.
unfoldable pub tally_result : CheckResult → Tally → Tally
tally_result r t = record {
  score = tally_score r.status r.severity (length r.issues) t.score;
  counts = tally_counts r.status r.severity (length r.issues) t.counts;
  cats = tally_category_of r t.cats;
}

unfoldable pub tally_all : List CheckResult → Tally → Tally
tally_all [] t = t
tally_all (r ∷ rs) t = tally_all rs (tally_result r t)

abbrev pub empty_tally : Tally
empty_tally = record {
  score = pos 100;
  counts = ("critical", 0) ∷ ("error", 0) ∷ ("warning", 0) ∷ ("info", 0) ∷ [];
  cats = [];
}

abbrev pub clamp : ℤ → ℤ
clamp (pos n) = pos n
clamp (negsuc n) = pos 0

-- `<` on texts: by bytes of UTF-8, which is by code points.
abbrev pub codes_ltb : List ℕ → List ℕ → Bool
codes_ltb s [] = false
codes_ltb [] (d ∷ t) = true
codes_ltb (c ∷ s) (d ∷ t) = ltb c d || nat_beq c d && codes_ltb s t

-- `sort.Slice` by the category; no two categories are the same.
unfoldable pub insert_sorted : CategorySummary → List CategorySummary → List CategorySummary
insert_sorted c [] = c ∷ []
insert_sorted c (d ∷ ds) =
    let rest = insert_sorted c ds in
    if codes_ltb (codes d.category) (codes c.category) then d ∷ rest else c ∷ d ∷ ds

unfoldable pub sort_categories : Table String CategorySummary → List CategorySummary
sort_categories [] = []
sort_categories ((name, c) ∷ cats) = insert_sorted c (sort_categories cats)

unfoldable pub run_score : AuditOutput → AuditOutput
run_score out =
    let t = tally_all out.results empty_tally in
    let score = clamp t.score in
    let risk = risk_level score in
    end_stage "score" ok (scored score risk) (record out {
      score = score;
      counts = t.counts;
      risk_level = risk;
      categories = sort_categories t.cats;
    })
