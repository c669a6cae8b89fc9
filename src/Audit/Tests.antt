-- ===== src/Audit/Tests.antt =====
-- A run of the pipeline, and the theorems of the audit at it.
use shopify_gmc.Base.{
  ◌-◌, ◌≡◌, refl, String, true, none, some, [], ◌∷◌, string_eq, if◌then◌else◌, sum_of, leb,
}
use shopify_gmc.Base.Int.{pos, ◌-ℤ◌}
use shopify_gmc.Base.Table.{lookup}
use shopify_gmc.Audit.{Meta, Issue, CheckResult, pass, fail, AuditInput, AuditOutput}
use shopify_gmc.Audit.Stage.{end_stage}
use shopify_gmc.Audit.Score.{run_score, tally_all, tally_result, tally_score, weight_for}
use shopify_gmc.Audit.Tally.{counted, points, run_score_lem}
use shopify_gmc.Audit.Enrich.{AiBudget, AiClient, run_enrich, run_summarize}
use shopify_gmc.Audit.Pipeline.{
  Check, CheckContext, Services, good, fresh_output, run, run_checks, crawl_result, proceed,
  run_validate, run_crawl, close_crawl, run_gmc_sync, close_sync, detect_run, crawl_run, run_detect,
  finish_run, run_persist, close_persist,
}
use shopify_gmc.Audit.Run.{IsScored, checked_context, last_stages, stage_names, run_complete}

abbrev meta : String → String → Meta
meta id category = record {
  id = id;
  title = id;
  category = category;
  default_severity = "critical";
  ai_fix_eligible = true;
  source = "crawler";
}

abbrev issue : String → Issue
issue detail = record {
  url = "";
  product_title = "";
  detail = detail;
  evidence = "";
  external_code = "";
}

abbrev two_criticals : CheckResult
two_criticals = record {
  meta = meta "price" "content";
  status = fail;
  severity = "critical";
  issues = issue "a" ∷ issue "b" ∷ [];
}

abbrev all_well : CheckResult
all_well = record { meta = meta "tls" "infra"; status = pass; severity = "error"; issues = [] }

abbrev detected : AuditOutput
detected = record fresh_output { results = two_criticals ∷ all_well ∷ [] }

run_score_lem_example :
    ((run_score detected).score ≡ pos (100 - points detected.results))
    × (lookup "critical" (run_score detected).counts
        ≡ some (sum_of (counted "critical") detected.results))
    × (lookup "error" (run_score detected).counts
        ≡ some (sum_of (counted "error") detected.results))
    × (lookup "warning" (run_score detected).counts
        ≡ some (sum_of (counted "warning") detected.results))
    × (lookup "info" (run_score detected).counts ≡ some (sum_of (counted "info") detected.results))
    × ((run_score detected).risk_level ≡ (
        if leb (points detected.results) 20
        then "low"
        else if leb (points detected.results) 50
        then "medium"
        else "high"))
run_score_lem_example = run_score_lem detected

-- Two critical issues leave 80 points, the lowest score of a low risk.
two_criticals_score : (run_score detected).score ≡ pos 80
unfolding run_score tally_all tally_result tally_score weight_for end_stage ◌-ℤ◌
two_criticals_score = refl

abbrev store : AuditInput
store = record {
  tenant_id = 1;
  store_id = 2;
  store_url = "https://shop.example";
  store_name = "Shop";
  store_context = "";
}

-- A client that always fails, and a budget with one call left.
abbrev silent : AiClient
silent = record { fix_batch = λ n reqs. none; summarize = λ n req. none; error_text = "timeout" }

abbrev one_call : AiBudget
one_call = record { limit = 50; used = 49; made = 49 }

abbrev home : CheckContext
home = record {
  store_url = "https://shop.example";
  policy_pages = [];
  product_pages = [];
  collection_pages = [];
  gmc = none;
}

abbrev price_check : Check
price_check = record { meta = meta "price" "content"; run = λ cx. two_criticals }

abbrev services : Services
services = record {
  crawl = some (λ url. good home);
  gmc = none;
  ai = none;
  save = some (λ in_ out. none);
  checks = price_check ∷ [];
  budget = 0;
  batch_size = 0;
}

run_succeeds : (run services store).error ≡ none
unfolding run proceed run_validate crawl_run run_crawl close_crawl detect_run run_gmc_sync
    close_sync run_detect finish_run run_persist close_persist run_enrich run_summarize
run_succeeds = refl

run_complete_example :
    (stage_names (run services store).out ≡ "validate" ∷ "crawl" ∷ "gmc_sync" ∷ last_stages)
    × ((visited : CheckContext) × (crawl_result services.crawl store.store_url ≡ good visited)
        × IsScored
            (run_checks services.checks (checked_context services store visited))
            (run services store).out)
run_complete_example = run_complete services store run_succeeds
