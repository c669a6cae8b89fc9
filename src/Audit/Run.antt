-- ===== src/Audit/Run.antt =====
-- What a run of the pipeline does (internal/audit/pipeline.go, `Run`).
use shopify_gmc.Base.{
  ℕ, ◌≡◌, inl, inr, refl, sym, ap, ◌∙◌, String, Option, none, some, List, [], ◌∷◌, ◌++◌, string_eq,
  nat_eq, if◌then◌else◌, length, map, is_some, arith, Option-cases, ◌-◌,
}
use shopify_gmc.Base.Int.{pos}
use mathlib.Core.List.{map-append, append_assoc}
use mathlib.Core.Path.{subst}
use shopify_gmc.Audit.{
  CheckResult, AuditInput, AuditOutput, StageResult, StageStatus, ok, Detail, text,
}
use shopify_gmc.Audit.Stage.{end_stage}
use shopify_gmc.Audit.Score.{run_score}
use shopify_gmc.Audit.Tally.{points, run_score_lem}
use mathlib.Core.Option
use shopify_gmc.Audit.Enrich.{
  AiBudget, AiClient, FixRequest, SummaryResponse, spend, eligible, summary_request, run_enrich,
  enrich_all, close_summary, run_summarize,
}
use shopify_gmc.Audit.Pipeline.{
  Result, good, bad, GmcContext, crawl_result, close_crawl, close_sync, close_persist, run_checks,
  fresh_output, or_default, start_budget, CheckContext, Check, Services, Ran, run_validate,
  run_crawl, run_gmc_sync, run_detect, run_persist, persist_failed, Staged, proceed, finish_run,
  detect_run, crawl_run, run,
}

module _ (p : Services) (in_ : AuditInput) where
  abbrev once : ℕ
  once = if is_some p.save then 1 else 0

  persist_failed-saves :
      (error : String) (out : AuditOutput) → length (persist_failed p error out).saved ≡ once
  unfolding persist_failed
  persist_failed-saves error out = ground arith

  run_persist-saves : (out : AuditOutput) → length (run_persist p in_ out).saved ≡ once
  unfolding run_persist close_persist
  run_persist-saves out = ground arith

  proceed-saves :
      {A : Type 0} (r : Staged A) (next : A → AuditOutput → Ran)
      → ((a : A) (out : AuditOutput) → length (next a out).saved ≡ once)
      → length (proceed p r next).saved ≡ once
  unfolding proceed
  proceed-saves (out, bad error) next h = persist_failed-saves error out
  proceed-saves (out, good a) next h = h a out

  -- A run without an error has gone on.
  proceed-good :
      {A : Type 0} (r : Staged A) (next : A → AuditOutput → Ran)
      → (proceed p r next).error ≡ none
      → (a : A) × (r.1 ≡ good a) × (proceed p r next ≡ next a r.0)
  unfolding proceed persist_failed
  proceed-good (out, bad error) next h = absurd (elim (Option-cases p.save) [
    | inl unset ↦ failed_run unset h
    | inr (save, set) ↦ saved_run save set h
  ])
    where
      failed_run : p.save ≡ none → (persist_failed p error out).error ≡ none → ⊥
      failed_run unset h = ground arith

      saved_run :
          (save : AuditInput → AuditOutput → Option String)
          → p.save ≡ some save
          → (persist_failed p error out).error ≡ none
          → ⊥
      saved_run save set h = ground arith
  proceed-good (out, good a) next h = (a, refl, refl)

-- A run saves the audit exactly once if a persister is configured, whether the run fails or not.
pub run_saves_once :
    (p : Services) (in_ : AuditInput) → length (run p in_).saved ≡ (if is_some p.save then 1 else 0)
unfolding run crawl_run detect_run finish_run
run_saves_once p in_ = proceed-saves p in_ _ _ (λ cx out.
    proceed-saves p in_ _ _
      (λ cx out. proceed-saves p in_ _ _ (λ _ out. run_persist-saves p in_ _)))

abbrev pub stage_names : AuditOutput → List String
stage_names out = map (λ (s : StageResult). s.name) out.stages

-- What a stage that closes well leaves: its name is added, and score and results are as before.
record IsKept (name : String) (out next : AuditOutput) : Type 0 where
  its_names : stage_names next ≡ stage_names out ++ name ∷ []
  its_score : next.score ≡ out.score
  its_results : next.results ≡ out.results

ended :
    (name : String) (status : StageStatus) (detail : Detail) (out : AuditOutput)
    → IsKept name out (end_stage name status detail out)
unfolding end_stage
ended name status detail out = record {
  its_names = map-append (λ (s : StageResult). s.name) out.stages _;
  its_score = refl;
  its_results = refl;
}

-- The same of an output that differs from `out` in other fields.
ended_from :
    (name : String) (status : StageStatus) (detail : Detail) (out from : AuditOutput)
    → from.stages ≡ out.stages
    → from.score ≡ out.score
    → from.results ≡ out.results
    → IsKept name out (end_stage name status detail from)
ended_from name status detail out from stages score results =
    let kept = ended name status detail from in
    record {
      its_names =
          kept.its_names
          ∙ ap (λ (xs : List StageResult). map (λ (s : StageResult). s.name) xs ++ name ∷ [])
              stages;
      its_score = kept.its_score ∙ score;
      its_results = kept.its_results ∙ results;
    }

validate-IsKept :
    (in_ : AuditInput) (cx : CheckContext) (out : AuditOutput)
    → (run_validate in_ out).1 ≡ good cx
    → IsKept "validate" out (run_validate in_ out).0
unfolding run_validate
validate-IsKept in_ cx out h = ground (arith, ended "validate" ok (text "") out)

close_crawl-IsKept :
    (r : Result CheckContext) (cx : CheckContext) (out : AuditOutput)
    → (close_crawl r out).1 ≡ good cx
    → IsKept "crawl" out (close_crawl r out).0
unfolding close_crawl
close_crawl-IsKept (bad error) cx out h = absurd cc
close_crawl-IsKept (good _) cx out h = ended "crawl" ok _ out

close_sync-IsKept :
    (r : Option (Result (Option GmcContext))) (cx : CheckContext) (out : AuditOutput)
    → IsKept "gmc_sync" out (close_sync r cx out).0
unfolding close_sync
close_sync-IsKept none cx out = ended "gmc_sync" _ _ out
close_sync-IsKept (some (bad error)) cx out = ended "gmc_sync" _ _ out
close_sync-IsKept (some (good none)) cx out = ended "gmc_sync" _ _ out
close_sync-IsKept (some (good (some gx))) cx out = ended "gmc_sync" _ _ out

-- The checks' stage: its results are those of every check.
run_detect-results :
    (checks : List Check) (cx : CheckContext) (out : AuditOutput) (u : Unit)
    → (run_detect checks cx out).1 ≡ good u
    → (stage_names (run_detect checks cx out).0 ≡ stage_names out ++ "detect" ∷ [])
      × ((run_detect checks cx out).0.results ≡ run_checks checks cx)
unfolding run_detect end_stage
run_detect-results [] cx out u h = absurd cc
run_detect-results (c ∷ cs) cx out u h =
    (map-append (λ (s : StageResult). s.name) out.stages _, refl)

run_enrich-IsKept :
    (ai : Option AiClient) (in_ : AuditInput) (size : ℕ) (budget : AiBudget) (out : AuditOutput)
    → IsKept "enrich" out (run_enrich ai in_ size budget out).0
unfolding run_enrich
run_enrich-IsKept none in_ size budget out = ended "enrich" _ _ out
run_enrich-IsKept (some ai) in_ size budget out = all_kept (eligible in_ out.results)
  where
    all_kept : (todo : List FixRequest) → IsKept "enrich" out (enrich_all ai size todo budget out).0
    all_kept [] = unfold enrich_all in ended "enrich" _ _ out
    all_kept (req ∷ todo) = unfold enrich_all in ended_from "enrich" _ _ out _ refl refl refl

close_summary-IsKept :
    (error : String) (r : Option SummaryResponse) (out : AuditOutput)
    → IsKept "summarize" out (close_summary error r out)
unfolding close_summary
close_summary-IsKept error none out = ended_from "summarize" _ _ out _ refl refl refl
close_summary-IsKept error (some resp) out = ended_from "summarize" _ _ out _ refl refl refl

run_summarize-IsKept :
    (ai : Option AiClient) (in_ : AuditInput) (budget : AiBudget) (out : AuditOutput)
    → IsKept "summarize" out (run_summarize ai in_ budget out).0
unfolding run_summarize
run_summarize-IsKept none in_ budget out = ended_from "summarize" _ _ out _ refl refl refl
run_summarize-IsKept (some ai) in_ budget out = elim (Option-cases (spend budget)) [
  | inl empty ↦ rw (run_summarize, empty) (ended_from "summarize" _ _ out _ refl refl refl)
  | inr (spent, room) ↦
      rw (run_summarize, room)
        (close_summary-IsKept ai.error_text (ai.summarize spent.made (summary_request in_ out)) out)
]

close_persist-IsKept :
    (r : Option (Option String)) (out : AuditOutput)
    → (close_persist r out).error ≡ none
    → IsKept "persist" out (close_persist r out).out
unfolding close_persist
close_persist-IsKept none out h = ended "persist" _ _ out
close_persist-IsKept (some (some error)) out h = absurd cc
close_persist-IsKept (some none) out h = ended "persist" _ _ out

run_score-names :
    (out : AuditOutput) → stage_names (run_score out) ≡ stage_names out ++ "score" ∷ []
unfolding run_score end_stage
run_score-names out = map-append (λ (s : StageResult). s.name) out.stages _

run_score-results : (out : AuditOutput) → (run_score out).results ≡ out.results
unfolding run_score end_stage
run_score-results out = refl

-- The score of the results.
abbrev pub IsScored : List CheckResult → AuditOutput → Type 0
IsScored results out = (out.results ≡ results) × (out.score ≡ pos (100 - points results))

kept-IsScored :
    {name : String} {out next : AuditOutput} (results : List CheckResult)
    → IsKept name out next
    → IsScored results out
    → IsScored results next
kept-IsScored results kept is = (kept.its_results ∙ is.0, kept.its_score ∙ is.1)

finish_run_complete :
    (p : Services) (in_ : AuditInput) (out : AuditOutput)
    → (finish_run p in_ out).error ≡ none
    → (stage_names (finish_run p in_ out).out
        ≡ stage_names out ++ "score" ∷ "enrich" ∷ "summarize" ∷ "persist" ∷ [])
      × IsScored out.results (finish_run p in_ out).out
unfolding finish_run run_persist
finish_run_complete p in_ out h =
    let fixed =
      run_enrich-IsKept p.ai in_ (or_default p.batch_size 10) (start_budget p) (run_score out) in
    let told = run_summarize-IsKept p.ai in_ _ _ in
    let done = close_persist-IsKept (Option.map _ p.save) _ h in
    (
      done.its_names
          ∙ ap (λ xs. xs ++ "persist" ∷ [])
              (told.its_names
                ∙ ap (λ xs. xs ++ "summarize" ∷ [])
                    (fixed.its_names ∙ ap (λ xs. xs ++ "enrich" ∷ []) (run_score-names out)))
          ∙ four_more (stage_names out),
      kept-IsScored out.results done (
          kept-IsScored out.results told
            (kept-IsScored out.results fixed (run_score-results out, (run_score_lem out).0))),
    )
  where
    four_more :
        (xs : List String)
        → (((xs ++ "score" ∷ []) ++ "enrich" ∷ []) ++ "summarize" ∷ []) ++ "persist" ∷ []
          ≡ xs ++ "score" ∷ "enrich" ∷ "summarize" ∷ "persist" ∷ []
    four_more [] = refl
    four_more (x ∷ xs) = ap (λ ys. x ∷ ys) (four_more xs)

-- What the checks get: what the crawl found, and the data of the sync, if there is any.
abbrev data_of : Result (Option GmcContext) → Option GmcContext
data_of (bad error) = none
data_of (good gx) = gx

abbrev pub synced_data :
    Option (AuditInput → Result (Option GmcContext)) → AuditInput → Option GmcContext
synced_data none in_ = none
synced_data (some sync) in_ = data_of (sync in_)

abbrev pub with_data : Option GmcContext → CheckContext → CheckContext
with_data none cx = cx
with_data (some gx) cx = record {
  store_url = cx.store_url;
  policy_pages = cx.policy_pages;
  product_pages = cx.product_pages;
  collection_pages = cx.collection_pages;
  gmc = some gx;
}

abbrev pub checked_context : Services → AuditInput → CheckContext → CheckContext
checked_context p in_ visited = with_data (synced_data p.gmc in_) visited

answered-context :
    (r : Result (Option GmcContext)) (cx : CheckContext) (out : AuditOutput)
    → (close_sync (some r) cx out).1 ≡ with_data (data_of r) cx
unfolding close_sync
answered-context (bad error) cx out = refl
answered-context (good none) cx out = refl
answered-context (good (some gx)) cx out = refl

close_sync-context :
    (o : Option (AuditInput → Result (Option GmcContext))) (in_ : AuditInput) (cx : CheckContext)
    (out : AuditOutput)
    → (close_sync
        (Option.map (λ (sync : AuditInput → Result (Option GmcContext)). sync in_) o)
        cx
        out).1
      ≡ with_data (synced_data o in_) cx
close_sync-context none in_ cx out = unfold close_sync in refl
close_sync-context (some sync) in_ cx out = answered-context (sync in_) cx out

crawl_found :
    (r : Result CheckContext) (cx : CheckContext) (out : AuditOutput)
    → (close_crawl r out).1 ≡ good cx
    → r ≡ good cx
unfolding close_crawl
crawl_found (bad error) cx out h = absurd cc
crawl_found (good _) cx out h = h

abbrev pub last_stages : List String
last_stages = "detect" ∷ "score" ∷ "enrich" ∷ "summarize" ∷ "persist" ∷ []

detect_run_complete :
    (p : Services) (in_ : AuditInput) (cx : CheckContext) (out : AuditOutput)
    → (detect_run p in_ cx out).error ≡ none
    → (stage_names (detect_run p in_ cx out).out
        ≡ (stage_names out ++ "gmc_sync" ∷ []) ++ last_stages)
      × IsScored (run_checks p.checks (checked_context p in_ cx)) (detect_run p in_ cx out).out
unfolding detect_run run_gmc_sync
detect_run_complete p in_ cx out h =
    let r = Option.map (λ (sync : AuditInput → Result (Option GmcContext)). sync in_) p.gmc in
    let kept = close_sync-IsKept r cx out in
    let full = (close_sync r cx out).1 in
    let (u, found, runs) =
      proceed-good p in_ (run_detect p.checks full (close_sync r cx out).0)
        (λ _ detected. finish_run p in_ detected) h in
    let detected = run_detect-results p.checks full (close_sync r cx out).0 u found in
    let done =
      finish_run_complete p in_ (run_detect p.checks full (close_sync r cx out).0).0
        (sym (ap (λ (r : Ran). r.error) runs) ∙ h) in
    (
      ap (λ (r : Ran). stage_names r.out) runs
          ∙ done.0
          ∙ ap (λ xs. xs ++ "score" ∷ "enrich" ∷ "summarize" ∷ "persist" ∷ []) detected.0
          ∙ append_assoc (stage_names (close_sync r cx out).0) ("detect" ∷ [])
              ("score" ∷ "enrich" ∷ "summarize" ∷ "persist" ∷ [])
          ∙ ap (λ xs. xs ++ last_stages) kept.its_names,
      subst (λ (r : Ran). IsScored (run_checks p.checks (checked_context p in_ cx)) r.out)
          (sym runs)
          (subst
            (λ rs.
              IsScored rs
                (finish_run p in_ (run_detect p.checks full (close_sync r cx out).0).0).out)
            (detected.1 ∙ ap (run_checks p.checks) (close_sync-context p.gmc in_ cx out)) done.1),
    )

-- A run without an error has closed all eight stages in their order; the crawl had succeeded, the
-- results are those of every check on what the crawl found with the data of the sync, if there is
-- any, and the score is that of these results.
pub run_complete :
    (p : Services) (in_ : AuditInput)
    → (run p in_).error ≡ none
    → (stage_names (run p in_).out ≡ "validate" ∷ "crawl" ∷ "gmc_sync" ∷ last_stages)
      × ((visited : CheckContext) × (crawl_result p.crawl in_.store_url ≡ good visited)
          × IsScored (run_checks p.checks (checked_context p in_ visited)) (run p in_).out)
unfolding run crawl_run run_crawl
run_complete p in_ h =
    let (cx, valid, runs) =
      proceed-good p in_ (run_validate in_ fresh_output) (λ cx validated. crawl_run p in_ validated)
        h in
    let out = (run_validate in_ fresh_output).0 in
    let r = crawl_result p.crawl in_.store_url in
    let crawl_ok = sym (ap (λ (r : Ran). r.error) runs) ∙ h in
    let (visited, found, goes) =
      proceed-good p in_ (close_crawl r out) (λ cx visited. detect_run p in_ cx visited) crawl_ok in
    let done =
      detect_run_complete p in_ visited (close_crawl r out).0
        (sym (ap (λ (r : Ran). r.error) goes) ∙ crawl_ok) in
    let all = runs ∙ goes in
    (
      ap (λ (r : Ran). stage_names r.out) all
          ∙ done.0
          ∙ ap (λ xs. (xs ++ "gmc_sync" ∷ []) ++ last_stages)
              ((close_crawl-IsKept r visited out found).its_names
                ∙ ap (λ xs. xs ++ "crawl" ∷ [])
                    (validate-IsKept in_ cx fresh_output valid).its_names),
      (
        visited,
        crawl_found r visited out found,
        subst (λ (r : Ran). IsScored (run_checks p.checks (checked_context p in_ visited)) r.out)
            (sym all) done.1,
      ),
    )
