-- ===== src/Audit/Stage.antt =====
-- Closing a stage, internal/audit/pipeline.go 552-588. The log and the live progress are left out.
use shopify_gmc.Base.{String, [], ◌∷◌, ◌++◌}
use shopify_gmc.Audit.{AuditOutput, StageStatus, failed_stage, Detail, text}

unfoldable pub end_stage : String → StageStatus → Detail → AuditOutput → AuditOutput
end_stage name status detail out = record out {
  stages = out.stages ++ record { name = name; status = status; detail = detail } ∷ [];
}

unfoldable pub fail_stage : String → String → AuditOutput → AuditOutput
fail_stage name detail out = record out {
  stages = out.stages ++ record { name = name; status = failed_stage; detail = text detail } ∷ [];
}
