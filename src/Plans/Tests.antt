-- ===== src/Plans/Tests.antt =====
-- Runs of the plan tables and of the gate, and the theorems at concrete plans.
use shopify_gmc.Base.{some, none, is_some, ◌≡◌, refl, true, false}
use shopify_gmc.Base.Text.{lower_is}
use shopify_gmc.Plans.{
  stores, check_store_limit, enforce_plan_limit, quota_for, limit_for, monitoring_cadences, gmc_for,
  cadence_for, cadence_allowed,
}
use shopify_gmc.Plans.Agreement.{plan_tables_agree}
use shopify_gmc.Plans.Gate.{store_gates_agree}

mixed_case : (limit_for "Growth" ≡ 10) × (limit_for "nope" ≡ 1) × (cadence_for "AGENCY" ≡ 900)
unfolding limit_for cadence_for lower_is
mixed_case = (refl, refl, refl)

weekly_for_starter :
    (cadence_allowed "pro" "weekly" ≡ true) × (cadence_allowed "pro" "daily" ≡ false)
unfolding cadence_allowed lower_is
weekly_for_starter = (refl, refl)

plan_tables_agree_example :
    (limit_for "pro" ≡ (quota_for "pro").stores)
    × (monitoring_cadences "pro" ≡ (quota_for "pro").monitoring_cadences)
    × ((gmc_for "pro").max_connections ≡ (quota_for "pro").gmc_connections)
    × (cadence_for "pro" ≡ (gmc_for "pro").background_every)
    × ((gmc_for "pro").allowed ≡ false
        → ((quota_for "pro").gmc_connections ≡ 0) × (cadence_for "pro" ≡ 0))
plan_tables_agree_example = plan_tables_agree "pro"

store_gates_agree_example :
    ((check_store_limit "free" (some 1)).at_limit
      ≡ is_some (enforce_plan_limit "free" stores (some 1)))
    × ((check_store_limit "free" none).at_limit ≡ false)
    × (is_some (enforce_plan_limit "free" stores none) ≡ false)
store_gates_agree_example = store_gates_agree "free" 1
