-- ===== src/Audit/Pipeline.antt =====
-- `Run` and the stages 1 to 3 and 7 of internal/audit/pipeline.go. The crawler, the GMC client, the
-- checks and the persister are parameters. An error is its text.
use shopify_gmc.Base.{
  ℕ, String, Option, none, some, List, [], ◌∷◌, ◌==◌, string_eq, nat_eq, if◌then◌else◌, length, map,
  ◌||◌, default,
}
use mathlib.Core.Option
use shopify_gmc.Base.Int.{pos}
use shopify_gmc.Audit.{
  Meta, CheckResult, AuditInput, AuditOutput, no_summary, audit_failed, ok, skipped, text, crawled,
  skipped_after, synced, ran,
}
use shopify_gmc.Audit.Stage.{end_stage, fail_stage}
use shopify_gmc.Audit.Score.{run_score}
use shopify_gmc.Audit.Enrich.{AiBudget, AiClient, run_enrich, run_summarize}

-- A value, or the text of an error.
pub data Result (A : Type 0) : Type 0 where
  good : A → Result A
  bad : String → Result A

pub record Page : Type 0 where
  pub url : String
  pub html : String

pub record GmcContext : Type 0 where
  pub merchant_id : String
  -- The issues of the account, if there is one.
  pub account : Option (List String)
  pub products : List String
  pub feeds : List String

pub record CheckContext : Type 0 where
  pub store_url : String
  pub policy_pages : List (String × Page)
  pub product_pages : List Page
  pub collection_pages : List Page
  pub gmc : Option GmcContext

pub record Check : Type 0 where
  pub meta : Meta
  pub run : CheckContext → CheckResult

-- `checks` is what `All` returns; a sync of `none` is a store that is not connected.
pub record Services : Type 0 where
  pub crawl : Option (String → Result CheckContext)
  pub gmc : Option (AuditInput → Result (Option GmcContext))
  pub ai : Option AiClient
  pub save : Option (AuditInput → AuditOutput → Option String)
  pub checks : List Check
  pub budget : ℕ
  pub batch_size : ℕ

-- A required stage: its output, and its value or its error.
abbrev pub Staged : Type 0 → Type 0
Staged A = AuditOutput × Result A

abbrev failing : {A : Type 0} → String → String → AuditOutput → Staged A
failing name detail out = (fail_stage name detail out, bad detail)

abbrev empty_context : String → CheckContext
empty_context url = record {
  store_url = url;
  policy_pages = [];
  product_pages = [];
  collection_pages = [];
  gmc = none;
}

unfoldable pub run_validate : AuditInput → AuditOutput → Staged CheckContext
run_validate in_ out =
    if in_.store_url == ""
    then failing "validate" "store URL is empty" out
    else if in_.store_id == 0 || in_.tenant_id == 0
    then failing "validate" "missing IDs" out
    else (end_stage "validate" ok (text "") out, good (empty_context in_.store_url))

-- The result of the crawl, and then the end of its stage.
abbrev pub crawl_result : Option (String → Result CheckContext) → String → Result CheckContext
crawl_result none url = bad "no crawler configured"
crawl_result (some crawl) url = crawl url

unfoldable pub close_crawl : Result CheckContext → AuditOutput → Staged CheckContext
close_crawl (bad error) out = failing "crawl" error out
close_crawl (good cx) out = (
  end_stage "crawl" ok
      (crawled (length cx.product_pages) (length cx.collection_pages) (length cx.policy_pages)) out,
  good cx,
)

unfoldable pub run_crawl : Services → AuditInput → AuditOutput → Staged CheckContext
run_crawl p in_ out = close_crawl (crawl_result p.crawl in_.store_url) out

-- The end of the sync's stage; `none` where there is no sync.
unfoldable pub close_sync :
    Option (Result (Option GmcContext)) → CheckContext → AuditOutput → AuditOutput × CheckContext
close_sync none cx out = (end_stage "gmc_sync" skipped (text "no GMC sync configured") out, cx)
close_sync (some (bad error)) cx out = (end_stage "gmc_sync" ok (skipped_after error) out, cx)
close_sync (some (good none)) cx out =
    (end_stage "gmc_sync" skipped (text "store not connected to GMC") out, cx)
close_sync (some (good (some gx))) cx out = (
  end_stage "gmc_sync" ok
      (synced gx.merchant_id (length gx.products) (length gx.feeds)
        (length (default gx.account [])))
      out,
  record cx { gmc = some gx },
)

unfoldable pub run_gmc_sync :
    Services → AuditInput → CheckContext → AuditOutput → AuditOutput × CheckContext
run_gmc_sync p in_ cx out = close_sync (Option.map (λ sync. sync in_) p.gmc) cx out

abbrev pub run_checks : List Check → CheckContext → List CheckResult
run_checks checks cx = map (λ (c : Check). c.run cx) checks

unfoldable pub run_detect : List Check → CheckContext → AuditOutput → Staged Unit
run_detect [] cx out = failing "detect" "no checks registered" out
run_detect (c ∷ cs) cx out = (
  end_stage "detect" ok (ran (length (c ∷ cs))) (record out { results = run_checks (c ∷ cs) cx }),
  good tt,
)

-- What `Run` returns, and the outputs that it saved on the way.
pub record Ran : Type 0 where
  pub out : AuditOutput
  pub error : Option String
  pub saved : List AuditOutput

-- The end of the last stage; `saved` is what `Save` returned, where there is a persister.
unfoldable pub close_persist : Option (Option String) → AuditOutput → Ran
close_persist none out = record {
  out = end_stage "persist" skipped (text "no persister configured (in-memory)") out;
  error = none;
  saved = [];
}
close_persist (some (some error)) out = record {
  out = fail_stage "persist" error out;
  error = some error;
  saved = out ∷ [];
}
close_persist (some none) out = record {
  out = end_stage "persist" ok (text "") out;
  error = none;
  saved = out ∷ [];
}

unfoldable pub run_persist : Services → AuditInput → AuditOutput → Ran
run_persist p in_ out = close_persist (Option.map (λ save. save in_ out) p.save) out

-- `persistFailed`, whose own error is dropped, and the end of `Run`.
unfoldable pub persist_failed : Services → String → AuditOutput → Ran
persist_failed p error out = elim p.save [
  | none ↦ record { out = out; error = some error; saved = [] }
  | some save ↦
      let told = record out { summary = audit_failed error } in
      record { out = told; error = some error; saved = told ∷ [] }
]

abbrev pub fresh_output : AuditOutput
fresh_output = record {
  score = pos 0;
  risk_level = "";
  counts = [];
  categories = [];
  results = [];
  suggestions = [];
  summary = no_summary;
  next_steps = [];
  stages = [];
}

abbrev pub or_default : ℕ → ℕ → ℕ
or_default a fallback = if a == 0 then fallback else a

abbrev pub start_budget : Services → AiBudget
start_budget p = record { limit = or_default p.budget 50; used = 0; made = 0 }

-- The stages 4 to 7.
unfoldable pub finish_run : Services → AuditInput → AuditOutput → Ran
finish_run p in_ out =
    let (fixed, left) =
      run_enrich p.ai in_ (or_default p.batch_size 10) (start_budget p) (run_score out) in
    let (told, spent) = run_summarize p.ai in_ left fixed in run_persist p in_ told

-- What `Run` does after a required stage: it returns the error, or goes on.
unfoldable pub proceed : {A : Type 0} → Services → Staged A → (A → AuditOutput → Ran) → Ran
proceed p (out, bad error) next = persist_failed p error out
proceed p (out, good a) next = next a out

unfoldable pub detect_run : Services → AuditInput → CheckContext → AuditOutput → Ran
detect_run p in_ cx out =
    let (synced_out, full) = run_gmc_sync p in_ cx out in
    proceed p (run_detect p.checks full synced_out) (λ _ detected. finish_run p in_ detected)

unfoldable pub crawl_run : Services → AuditInput → AuditOutput → Ran
crawl_run p in_ out = proceed p (run_crawl p in_ out) (λ cx visited. detect_run p in_ cx visited)

-- `Pipeline.Run`.
unfoldable pub run : Services → AuditInput → Ran
run p in_ = proceed p (run_validate in_ fresh_output) (λ cx validated. crawl_run p in_ validated)
