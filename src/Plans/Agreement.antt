-- ===== src/Plans/Agreement.antt =====
-- The tables of plan_gate.go, and the scheduler's copy of one, say the same of every plan.
use shopify_gmc.Base.{
  ◌≡◌, ◌≢◌, String, true, false, arith, ==_iff, ==_comm, string_eq, Bool-cases, inl, inr,
}
use text.Mathlib.TextEquality.{eq_iff}
use shopify_gmc.Base.Text.{lower_is, lower_is_unique, codes, codes_beq}
use shopify_gmc.Plans.{
  limit_for, quota_for, monitoring_cadences, gmc_for, cadence_for, cadence_allowed,
  cadence_interval,
}

-- A plan that matches one label matches no other.
apart :
    (plan a b : String)
    → lower_is plan a ≡ true
    → codes_beq (codes a) (codes b) ≡ false
    → lower_is plan b ≡ false
apart plan a b h d = elim (Bool-cases (lower_is plan b)) [
  | inl k ↦ cc (lower_is_unique plan a b h k)
  | inr k ↦ k
]

-- For every plan name, known or not and in any case: the store limit, the list of cadences and the
-- number of Merchant Center connections are those of the quota table, and the cadence of the
-- scheduler is the background interval of the gate. A plan without Merchant Center access has no
-- connections and no background refresh.
pub plan_tables_agree :
    (plan : String)
    → (limit_for plan ≡ (quota_for plan).stores)
      × (monitoring_cadences plan ≡ (quota_for plan).monitoring_cadences)
      × ((gmc_for plan).max_connections ≡ (quota_for plan).gmc_connections)
      × (cadence_for plan ≡ (gmc_for plan).background_every)
      × ((gmc_for plan).allowed ≡ false
          → ((quota_for plan).gmc_connections ≡ 0) × (cadence_for plan ≡ 0))
unfolding limit_for quota_for monitoring_cadences gmc_for cadence_for
plan_tables_agree plan = (
  ground arith,
  ground arith,
  ground arith,
  ground (
    arith,
    apart plan "free" "growth",
    apart plan "free" "agency",
    apart plan "free" "enterprise",
    apart plan "starter" "growth",
    apart plan "starter" "agency",
    apart plan "starter" "enterprise",
    apart plan "pro" "growth",
    apart plan "pro" "agency",
    apart plan "pro" "enterprise",
  ),
  ground (
    arith,
    apart plan "free" "growth",
    apart plan "free" "agency",
    apart plan "free" "enterprise",
  ),
)

-- A cadence that a plan allows is "off" or has an interval for the database.
pub cadence_allowed-interval :
    (plan cadence : String)
    → cadence_allowed plan cadence ≡ true
    → cadence ≢ "off"
    → cadence_interval cadence ≢ ""
unfolding cadence_allowed cadence_interval
cadence_allowed-interval plan cadence h n = ground (
  arith,
  ==_iff "off" cadence,
  ==_iff "weekly" cadence,
  ==_iff "daily" cadence,
  ==_iff "monthly" cadence,
  ==_comm cadence "daily",
  ==_comm cadence "weekly",
  ==_comm cadence "monthly",
  eq_iff "1 day" "",
  eq_iff "7 days" "",
  eq_iff "30 days" "",
)
