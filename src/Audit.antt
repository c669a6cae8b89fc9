-- ===== src/Audit.antt =====
-- The audit pipeline: internal/audit/audit.go, internal/audit/pipeline.go and the budget of
-- internal/ai/ai.go. Here the data. The times of stages and results are left out, and so are the
-- fields of a result that no stage reads.
pub mod Stage
pub mod Score
pub mod Tally
pub mod Categories
pub mod Enrich
pub mod Budget
pub mod Pipeline
pub mod Run
mod Tests
use shopify_gmc.Base.{ℕ, String, Bool, Option, List}
use shopify_gmc.Base.Int.{ℤ}
use shopify_gmc.Base.Table.{Table}

pub record Meta : Type 0 where
  pub id : String
  pub title : String
  pub category : String
  pub default_severity : String
  pub ai_fix_eligible : Bool
  pub source : String

pub data Status : Type 0 where
  pass fail info : Status

pub record Issue : Type 0 where
  pub url : String
  pub product_title : String
  pub detail : String
  pub evidence : String
  pub external_code : String

-- A severity is a text, as in the source.
pub record CheckResult : Type 0 where
  pub meta : Meta
  pub status : Status
  pub severity : String
  pub issues : List Issue

pub record CategorySummary : Type 0 where
  pub category : String
  pub passed : ℕ
  pub failed : ℕ
  pub worst_status : Status
  pub worst_severity : String

-- The detail of a stage: the numbers and the texts that `Sprintf` prints into it.
pub data Detail : Type 0 where
  text : String → Detail
  crawled : (products collections policies : ℕ) → Detail
  skipped_after : String → Detail
  synced : (merchant : String) (products feeds account_issues : ℕ) → Detail
  ran : (checks : ℕ) → Detail
  scored : (score : ℤ) (risk : String) → Detail
  enriched : (calls hits fallbacks : ℕ) → Detail
  ai_error : String → Detail
  tokens : (tokens_in tokens_out : ℕ) → Detail

pub data StageStatus : Type 0 where
  ok skipped failed_stage : StageStatus

pub record StageResult : Type 0 where
  pub name : String
  pub status : StageStatus
  pub detail : Detail

-- The summary: of the AI, of a failed run, or one of the four fallback texts with its numbers.
pub data Summary : Type 0 where
  no_summary : Summary
  written : String → Summary
  audit_failed : String → Summary
  critical_first : (critical error warning : ℕ) (risk : String) → Summary
  errors_first : (error warning : ℕ) (risk : String) → Summary
  warnings_only : (warning : ℕ) (risk : String) → Summary
  no_blockers : (risk : String) → Summary

-- A suggestion's key "id#n" is the pair of its parts.
pub record AuditOutput : Type 0 where
  pub score : ℤ
  pub risk_level : String
  pub counts : Table String ℕ
  pub categories : List CategorySummary
  pub results : List CheckResult
  pub suggestions : List ((String × ℕ) × String)
  pub summary : Summary
  pub next_steps : List String
  pub stages : List StageResult

pub record AuditInput : Type 0 where
  pub tenant_id : ℕ
  pub store_id : ℕ
  pub store_url : String
  pub store_name : String
  pub store_context : String
