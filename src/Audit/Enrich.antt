-- ===== src/Audit/Enrich.antt =====
-- Stages 5 and 6, `runEnrich` and `runSummarize` of internal/audit/pipeline.go, and the budget of
-- internal/ai/ai.go. The AI client is a parameter: it answers by the number of the requests that
-- it was sent before, `none` where it fails. A negative batch size, at which the source panics, is left out.
use shopify_gmc.Base.{
  ℕ, zero, suc, String, Bool, true, false, not, Option, none, some, List, [], ◌∷◌, ◌++◌, ◌==◌,
  string_eq, nat_eq, if◌then◌else◌, default, length, leb, ltb, take, drop, ◌||◌,
}
use shopify_gmc.Base.Int.{ℤ}
use shopify_gmc.Base.Table.{lookup}
use shopify_gmc.Base.Text.{append_text}
use shopify_gmc.Audit.{
  Status, fail, Issue, CheckResult, AuditInput, AuditOutput, Summary, written, critical_first,
  errors_first, warnings_only, no_blockers, ok, skipped, text, enriched, ai_error, tokens,
}
use shopify_gmc.Audit.Stage.{end_stage}

-- `ai.Budget`; `made` is no part of it, but counts the requests that the client was really sent.
pub record AiBudget : Type 0 where
  pub limit : ℕ
  pub used : ℕ
  pub made : ℕ

-- `Budget.Use`: `none` where the budget is empty.
unfoldable pub spend : AiBudget → Option AiBudget
spend b = if leb b.limit b.used then none else some (record b { used = suc b.used })

pub record FixRequest : Type 0 where
  pub issue_id : String × ℕ
  pub check_id : String
  pub severity : String
  pub title : String
  pub detail : String
  pub evidence : String
  pub product_title : String
  pub product_url : String
  pub store_context : String

-- What `GenerateSummary` is asked; the counts are those of the output.
pub record SummaryRequest : Type 0 where
  pub store_url : String
  pub store_name : String
  pub score : ℤ
  pub risk_level : String
  pub critical : ℕ
  pub error : ℕ
  pub warning : ℕ
  pub info : ℕ
  pub store_context : String
  pub top_issues : List (String × String × String × String)

pub record SummaryResponse : Type 0 where
  pub summary : String
  pub next_steps : List String
  pub tokens_in : ℕ
  pub tokens_out : ℕ

-- The suggestions for a batch, and the summary or an error.
pub record AiClient : Type 0 where
  pub fix_batch : ℕ → List FixRequest → Option (List String)
  pub summarize : ℕ → SummaryRequest → Option SummaryResponse
  pub error_text : String

-- The calls of the client: each counts what it sends.
abbrev pub sent_one : AiBudget → AiBudget
sent_one b = record b { made = suc b.made }

abbrev pub fix_batch_of : AiClient → List FixRequest → AiBudget → Option (List String) × AiBudget
fix_batch_of ai batch b = (ai.fix_batch b.made batch, sent_one b)

abbrev pub summary_of : AiClient → SummaryRequest → AiBudget → Option SummaryResponse × AiBudget
summary_of ai req b = (ai.summarize b.made req, sent_one b)

abbrev fix_request : AuditInput → CheckResult → ℕ → Issue → FixRequest
fix_request in_ r i issue = record {
  issue_id = (r.meta.id, i);
  check_id = r.meta.id;
  severity = r.severity;
  title = r.meta.title;
  detail = issue.detail;
  evidence = issue.evidence;
  product_title = issue.product_title;
  product_url = issue.url;
  store_context = in_.store_context;
}

abbrev issue_requests : AuditInput → CheckResult → ℕ → List Issue → List FixRequest
issue_requests in_ r i [] = []
issue_requests in_ r i (issue ∷ issues) =
    fix_request in_ r i issue ∷ issue_requests in_ r (suc i) issues

abbrev is_failed : Status → Bool
is_failed fail = true
is_failed _ = false

-- The issues that the AI may rewrite.
unfoldable pub eligible : AuditInput → List CheckResult → List FixRequest
eligible in_ [] = []
eligible in_ (r ∷ rs) =
    let rest = eligible in_ rs in
    if not (is_failed r.status) || not r.meta.ai_fix_eligible
    then rest
    else issue_requests in_ r 0 r.issues ++ rest

unfoldable pub fallback_fix : FixRequest → String
fallback_fix req = append_text "Apply the steps in the \"How to apply\" panel below to resolve " (
    append_text req.check_id (
      append_text " for "
        (append_text (if req.product_title == "" then "this item" else req.product_title) ".")))

-- What the loop over the batches changes.
pub record Enriching : Type 0 where
  pub budget : AiBudget
  pub suggestions : List ((String × ℕ) × String)
  pub calls : ℕ
  pub hits : ℕ
  pub fails : ℕ

abbrev pub is_unusable : String → Bool
is_unusable s = s == "" || s == "(no rewrite produced)"

unfoldable pub take_fallbacks : List FixRequest → Enriching → Enriching
take_fallbacks [] s = s
take_fallbacks (req ∷ batch) s =
    take_fallbacks batch
      (record s { suggestions = (req.issue_id, fallback_fix req) ∷ s.suggestions })

-- One response of a batch.
unfoldable pub take_response : FixRequest → String → Enriching → Enriching
take_response req suggested s =
    if is_unusable suggested
    then record s {
      suggestions = (req.issue_id, fallback_fix req) ∷ s.suggestions;
      fails = suc s.fails;
    }
    else record s { suggestions = (req.issue_id, suggested) ∷ s.suggestions; hits = suc s.hits }

-- The responses, as far as there are issues in the batch.
unfoldable pub take_responses : List String → List FixRequest → Enriching → Enriching
take_responses (r ∷ rs) (req ∷ batch) s = take_responses rs batch (take_response req r s)
take_responses _ _ s = s

unfoldable pub run_batch : AiClient → List FixRequest → Enriching → Enriching
run_batch ai batch s =
    let (answer, budget) = fix_batch_of ai batch s.budget in
    elim answer [
      | none ↦
          take_fallbacks batch
            (record s { budget = budget; calls = suc s.calls; fails = suc s.fails })
      | some responses ↦
          take_responses responses batch (record s { budget = budget; calls = suc s.calls })
    ]

-- The loop over the batches, on fuel: each round leaves fewer issues.
unfoldable pub batches : AiClient → ℕ → ℕ → List FixRequest → Enriching → Enriching
batches ai size zero todo s = s
batches ai size (suc fuel) [] s = s
batches ai size (suc fuel) (req ∷ todo) s = elim (spend s.budget) [
  | none ↦ s
  | some budget ↦
      batches ai size fuel (drop size (req ∷ todo))
        (run_batch ai (take size (req ∷ todo)) (record s { budget = budget }))
]

abbrev pub start_enriching : AiBudget → AuditOutput → Enriching
start_enriching budget out = record {
  budget = budget;
  suggestions = out.suggestions;
  calls = 0;
  hits = 0;
  fails = 0;
}

unfoldable pub enrich_all :
    AiClient → ℕ → List FixRequest → AiBudget → AuditOutput → AuditOutput × AiBudget
enrich_all ai size [] budget out =
    (end_stage "enrich" ok (text "no AI-eligible issues") out, budget)
enrich_all ai size (req ∷ todo) budget out =
    let s = batches ai size (length (req ∷ todo)) (req ∷ todo) (start_enriching budget out) in
    (
      end_stage "enrich" ok (enriched s.calls s.hits s.fails)
          (record out { suggestions = s.suggestions }),
      s.budget,
    )

unfoldable pub run_enrich :
    Option AiClient → AuditInput → ℕ → AiBudget → AuditOutput → AuditOutput × AiBudget
run_enrich none in_ size budget out =
    (end_stage "enrich" skipped (text "no AI client configured") out, budget)
run_enrich (some ai) in_ size budget out = enrich_all ai size (eligible in_ out.results) budget out

abbrev pub count_of : String → AuditOutput → ℕ
count_of severity out = default (lookup severity out.counts) 0

unfoldable pub fallback_summary : AuditOutput → Summary
fallback_summary out =
    let critical = count_of "critical" out in
    let error = count_of "error" out in
    let warning = count_of "warning" out in
    if ltb 0 critical
    then critical_first critical error warning out.risk_level
    else if ltb 0 error
    then errors_first error warning out.risk_level
    else if ltb 0 warning
    then warnings_only warning out.risk_level
    else no_blockers out.risk_level

abbrev top_of : CheckResult → List Issue → List (String × String × String × String)
top_of r [] = []
top_of r (issue ∷ issues) = (r.meta.id, r.severity, r.meta.title, issue.detail) ∷ top_of r issues

abbrev top_issues : List CheckResult → List (String × String × String × String)
top_issues [] = []
top_issues (r ∷ rs) =
    let rest = top_issues rs in if is_failed r.status then top_of r r.issues ++ rest else rest

-- The issues of the failed checks, up to `max`; the source stops when it has them.
unfoldable pub top_issues_for_summary : AuditOutput → ℕ → List (String × String × String × String)
top_issues_for_summary out max = take max (top_issues out.results)

abbrev pub summary_request : AuditInput → AuditOutput → SummaryRequest
summary_request in_ out = record {
  store_url = in_.store_url;
  store_name = in_.store_name;
  score = out.score;
  risk_level = out.risk_level;
  critical = count_of "critical" out;
  error = count_of "error" out;
  warning = count_of "warning" out;
  info = count_of "info" out;
  store_context = in_.store_context;
  top_issues = top_issues_for_summary out 8;
}

-- The end of the summary's stage, after the call of the AI.
unfoldable pub close_summary : String → Option SummaryResponse → AuditOutput → AuditOutput
close_summary error none out =
    end_stage "summarize" ok (ai_error error) (record out { summary = fallback_summary out })
close_summary error (some resp) out =
    end_stage "summarize" ok (tokens resp.tokens_in resp.tokens_out)
      (record out { summary = written resp.summary; next_steps = resp.next_steps })

unfoldable pub run_summarize :
    Option AiClient → AuditInput → AiBudget → AuditOutput → AuditOutput × AiBudget
run_summarize none in_ budget out = (
  end_stage "summarize" skipped (text "no AI client configured")
      (record out { summary = fallback_summary out }),
  budget,
)
run_summarize (some ai) in_ budget out = elim (spend budget) [
  | none ↦ (
    end_stage "summarize" ok (text "fallback (budget exhausted)")
        (record out { summary = fallback_summary out }),
    budget,
  )
  | some spent ↦
      let (answer, left) = summary_of ai (summary_request in_ out) spent in
      (close_summary ai.error_text answer out, left)
]
