-- ===== src/Plans/Gate.antt =====
-- What the gate of plan_limits.go lets through.
use shopify_gmc.Base.{ℕ, ◌<◌, ◌≡◌, String, false, none, some, arith, is_some, refl}
use shopify_gmc.Plans.{stores, quota_for, enforce_plan_limit, check_store_limit}
use shopify_gmc.Plans.Agreement.{plan_tables_agree}

stores-pos : (plan : String) → 0 < (quota_for plan).stores
unfolding quota_for
stores-pos plan = ground arith

-- The two gates on stores agree: for a count that was read, `CheckStoreLimit` reports the limit
-- exactly when `EnforcePlanLimit` refuses; where the count cannot be read, neither stops the request.
pub store_gates_agree :
    (plan : String) (n : ℕ)
    → ((check_store_limit plan (some n)).at_limit
        ≡ is_some (enforce_plan_limit plan stores (some n)))
      × ((check_store_limit plan none).at_limit ≡ false)
      × (is_some (enforce_plan_limit plan stores none) ≡ false)
unfolding check_store_limit enforce_plan_limit
store_gates_agree plan n =
    (ground (arith, (plan_tables_agree plan).0), refl, ground (arith, stores-pos plan))
