-- ===== src/Scheduler/Tests.antt =====
-- Runs of the scheduler, and its theorems at concrete tables.
use shopify_gmc.Base.{
  ℕ, ◌≡◌, refl, Bool, true, false, Option, none, some, [], ◌∷◌, nat_eq, length, All, min, arith,
  if◌then◌else◌,
}
use mathlib.Core.Option
use shopify_gmc.Base.Table.{lookup, IsKeyed}
use shopify_gmc.Scheduler.{
  StoreRow, Stores, State, due_rows, insert_due, sort_due, locked, claim_due, run_times, returned,
}
use shopify_gmc.Scheduler.Claim.{awaiting, moved_on, IsClaimOf, claims, claim_due_lem}
use shopify_gmc.Scheduler.Ticks.{run_times-clears}

abbrev store : Option ℕ → StoreRow
store next_at = record {
  tenant_id = 1;
  shop_domain = "shop";
  display_name = some "";
  monitor_enabled = true;
  monitor_frequency = 3600;
  next_audit_at = next_at;
  last_audit_at = none;
}

abbrev stores : Stores
stores =
    (10, store (some 50)) ∷ (11, store (some 500)) ∷ (12, store none) ∷ (13, store (some 40)) ∷ []

abbrev start : State
start = record { stores = stores; audits = []; jobs = []; free = 100 }

stores-IsKeyed : IsKeyed stores
stores-IsKeyed = unfold lookup in (refl, (refl, (refl, (refl, tt))))

claimed_first :
    (claim_due 100 2 stores).1
    ≡ returned 100 (12, store none) ∷ returned 100 (13, store (some 40)) ∷ []
unfolding claim_due locked sort_due insert_due
claimed_first = refl

claim_due_lem_example :
    (length (claim_due 100 2 stores).1 ≡ min 2 (length (awaiting 100 stores)))
    × All (IsClaimOf 100 stores) (claim_due 100 2 stores).1
    × (lookup 10 (claim_due 100 2 stores).0 ≡ (
        if claims 10 (claim_due 100 2 stores).1
        then Option.map (moved_on 100) (lookup 10 stores)
        else lookup 10 stores))
claim_due_lem_example = claim_due_lem 100 2 10 stores stores-IsKeyed

abbrev refuse_all : ℕ → Bool
refuse_all k = false

run_times-clears_example :
    due_rows 100
      (run_times
        (λ domain. domain)
        (λ p. p.store_url)
        2
        ((100, refuse_all) ∷ (7000, refuse_all) ∷ [])
        start).stores
    ≡ []
run_times-clears_example =
    run_times-clears (λ domain. domain) (λ p. p.store_url) 100 2
      ((100, refuse_all) ∷ (7000, refuse_all) ∷ []) start stores-IsKeyed
      (omega arith, (omega arith, (omega arith, (omega arith, tt))))
      (omega arith, (omega arith, tt)) (omega arith)
