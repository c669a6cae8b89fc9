-- ===== src/Jobs/Tests.antt =====
-- Runs of the queue, and its theorems at concrete queues.
use shopify_gmc.Base.{ℕ, ◌≡◌, refl, some, none, [], ◌∷◌, nat_eq, string_eq}
use shopify_gmc.Base.Table.{lookup, insert, modify, IsKeyed}
use shopify_gmc.Jobs.{Job, JobRow, Queue, failed, new_row, enqueue, claim, handle, backoff}
use shopify_gmc.Jobs.Claim.{ClaimSpec, claim_lem}
use shopify_gmc.Jobs.Handle.{IsHandled, handle_lem}
use shopify_gmc.Jobs.System.{
  Pool, Reach, here, next, claims, enqueues, idle, after_claim, IsSound, Reach-IsSound,
}

abbrev audit : Queue
audit = enqueue 7 none "audit_store" "" 100 []

audit_claimed :
    (claim 150 "w1" audit).1
    ≡ some (record {
      id = 7;
      tenant_id = none;
      kind = "audit_store";
      payload = "{}";
      attempts = 1;
      max_attempts = 5;
    })
unfolding claim enqueue insert
audit_claimed = refl

claim_lem_example : ClaimSpec 150 "w1" audit (claim 150 "w1" audit).0 (claim 150 "w1" audit).1
claim_lem_example = claim_lem 150 "w1" audit audit_keyed
  where
    audit_keyed : IsKeyed audit
    audit_keyed = unfold enqueue insert lookup in (refl, tt)

-- A job that has failed four times has a fifth attempt, after ten minutes, and dies after that.
abbrev tired : JobRow
tired = record (new_row none "audit_store" "{}" 100) { attempts = 4 }

abbrev fourth : Job
fourth = record {
  id = 7;
  tenant_id = none;
  kind = "audit_store";
  payload = "{}";
  attempts = 4;
  max_attempts = 5;
}

tired_retries :
    lookup 7 (handle 1000 ("audit_store" ∷ []) fourth (failed "timeout") ((7, tired) ∷ []))
    ≡ some (record tired { run_at = 1600; last_error = some "timeout" })
unfolding handle backoff lookup modify new_row
tired_retries = refl

tired_found : lookup {K = ℕ} 7 ((7, tired) ∷ []) ≡ some tired
unfolding lookup
tired_found = refl

handle_lem_example :
    IsHandled 1000
      ("audit_store" ∷ [])
      fourth
      (failed "timeout")
      tired
      ((7, tired) ∷ [])
      (handle 1000 ("audit_store" ∷ []) fourth (failed "timeout") ((7, tired) ∷ []))
handle_lem_example =
    handle_lem 1000 ("audit_store" ∷ []) fourth (failed "timeout") tired ((7, tired) ∷ [])
      tired_found

abbrev with_audit : Pool
with_audit = record idle { queue = audit }

one_claim : Reach idle (after_claim 150 "w1" with_audit)
unfolding lookup
one_claim =
    next (next here (enqueues 7 none "audit_store" "" 100 idle refl)) (claims 150 "w1" with_audit)

Reach-IsSound_example : IsSound (after_claim 150 "w1" with_audit)
Reach-IsSound_example = Reach-IsSound one_claim
