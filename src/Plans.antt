-- ===== src/Plans.antt =====
-- What each plan grants: internal/web/plan_gate.go, the gate of internal/web/plan_limits.go, and the
-- copy of the refresh cadence in internal/scheduler/gmc_refresh.go. Durations are in seconds.
pub mod Agreement
pub mod Gate
mod Tests
use shopify_gmc.Base.{
  ℕ, zero, ◌*◌, String, Bool, true, false, ◌||◌, Option, none, some, List, [], ◌∷◌, ◌==◌, leb,
  if◌then◌else◌, default, length, string_eq,
}
use shopify_gmc.Base.Text.{lower_is}

-- The literal of `PlanLimits`, and its lookup by the lower case of a plan.
abbrev plan_limits : List (String × ℕ)
plan_limits =
    ("free", 1)
    ∷ ("starter", 3)
    ∷ ("pro", 3)
    ∷ ("growth", 10)
    ∷ ("agency", 50)
    ∷ ("enterprise", 500)
    ∷ []

limit_from : String → List (String × ℕ) → Option ℕ
limit_from plan [] = none
limit_from plan ((label, n) ∷ rest) = if lower_is plan label then some n else limit_from plan rest

-- `PlanLimits["free"]` is in the literal, so the fallback is its entry.
pub limit_for : String → ℕ
unfolding limit_from
limit_for plan = default (limit_from plan plan_limits) 1

pub record PlanQuota : Type 0 where
  pub stores : ℕ
  pub audits_per_month : ℕ
  pub members : ℕ
  pub gmc_connections : ℕ
  pub monitoring_cadences : List String
  pub white_label : Bool

abbrev off_only : List String
off_only = "off" ∷ []

abbrev all_cadences : List String
all_cadences = "off" ∷ "daily" ∷ "weekly" ∷ "monthly" ∷ []

abbrev quota : ℕ → ℕ → ℕ → ℕ → List String → Bool → PlanQuota
quota stores audits members connections cadences white = record {
  stores = stores;
  audits_per_month = audits;
  members = members;
  gmc_connections = connections;
  monitoring_cadences = cadences;
  white_label = white;
}

pub quota_for : String → PlanQuota
quota_for plan =
    if lower_is plan "free"
    then quota 1 1 3 0 off_only false
    else if lower_is plan "starter" || lower_is plan "pro"
    then quota 3 10 5 1 ("off" ∷ "weekly" ∷ []) false
    else if lower_is plan "growth"
    then quota 10 50 15 3 all_cadences false
    else if lower_is plan "agency"
    then quota 50 500 50 50 all_cadences true
    else if lower_is plan "enterprise"
    then quota 500 5000 500 500 all_cadences true
    else quota 1 1 3 0 off_only false

pub monitoring_cadences : String → List String
monitoring_cadences plan =
    if lower_is plan "free"
    then "off" ∷ []
    else if lower_is plan "starter" || lower_is plan "pro"
    then "off" ∷ "weekly" ∷ []
    else if lower_is plan "growth" || lower_is plan "agency" || lower_is plan "enterprise"
    then "off" ∷ "daily" ∷ "weekly" ∷ "monthly" ∷ []
    else "off" ∷ []

-- The loop of `CadenceAllowed`.
contains : String → List String → Bool
contains cadence [] = false
contains cadence (c ∷ rest) = if c == cadence then true else contains cadence rest

pub cadence_allowed : String → String → Bool
unfolding contains monitoring_cadences
cadence_allowed plan cadence = contains cadence (monitoring_cadences plan)

pub cadence_interval : String → String
cadence_interval cadence =
    if cadence == "daily"
    then "1 day"
    else if cadence == "weekly"
    then "7 days"
    else if cadence == "monthly"
    then "30 days"
    else ""

pub record GmcPlan : Type 0 where
  pub allowed : Bool
  pub max_connections : ℕ
  pub background_every : ℕ
  pub label : String

abbrev gmc_plan : Bool → ℕ → ℕ → String → GmcPlan
gmc_plan allowed connections every label = record {
  allowed = allowed;
  max_connections = connections;
  background_every = every;
  label = label;
}

abbrev minute : ℕ
minute = 60

pub gmc_for : String → GmcPlan
gmc_for plan =
    if lower_is plan "free"
    then gmc_plan false 0 0 "Free"
    else if lower_is plan "starter" || lower_is plan "pro"
    then gmc_plan true 1 0 "Starter"
    else if lower_is plan "growth"
    then gmc_plan true 3 (60 * minute) "Growth"
    else if lower_is plan "agency"
    then gmc_plan true 50 (15 * minute) "Agency"
    else if lower_is plan "enterprise"
    then gmc_plan true 500 (5 * minute) "Enterprise"
    else gmc_plan false 0 0 plan

-- `cadenceFor` of the scheduler.
unfoldable pub cadence_for : String → ℕ
cadence_for plan =
    if lower_is plan "growth"
    then 60 * minute
    else if lower_is plan "agency"
    then 15 * minute
    else if lower_is plan "enterprise"
    then 5 * minute
    else 0

-- `PlanResource` is a string type; `other` is any value that is no constant of it.
pub data PlanResource : Type 0 where
  stores audits_month members gmc_connections monitoring : PlanResource
  other : String → PlanResource

-- The message of the 402 page is left out.
pub record PlanLimitError : Type 0 where
  pub resource : PlanResource
  pub plan : String
  pub limit : ℕ
  pub current : ℕ

-- What the `switch` of `EnforcePlanLimit` assigns to `limit`.
pub quota_of : PlanQuota → PlanResource → ℕ
quota_of q stores = q.stores
quota_of q audits_month = q.audits_per_month
quota_of q members = q.members
quota_of q gmc_connections = q.gmc_connections
quota_of q monitoring = 0
quota_of q (other name) = 0

-- `counted` is the answer of the resource's query, `none` where the query fails or has no row: the
-- error is dropped and `current` keeps its 0.
gate_count : String → PlanResource → ℕ → ℕ → Option PlanLimitError
gate_count plan res limit current =
    if leb limit current
    then some (record { resource = res; plan = plan; limit = limit; current = current })
    else none

pub enforce_plan_limit : String → PlanResource → Option ℕ → Option PlanLimitError
unfolding gate_count quota_of quota_for
enforce_plan_limit plan monitoring counted =
    if leb (length (quota_for plan).monitoring_cadences) 1
    then some (record { resource = monitoring; plan = plan; limit = 0; current = 0 })
    else none
enforce_plan_limit plan (other name) counted = gate_count plan (other name) 0 0
enforce_plan_limit plan res counted =
    gate_count plan res (quota_of (quota_for plan) res) (default counted 0)

pub record StoreLimit : Type 0 where
  pub limit : ℕ
  pub current : ℕ
  pub at_limit : Bool
  pub failed : Bool

-- `CheckStoreLimit`; `failed` stands for the error that it returns.
pub check_store_limit : String → Option ℕ → StoreLimit
unfolding limit_for
check_store_limit plan none = record {
  limit = limit_for plan;
  current = 0;
  at_limit = false;
  failed = true;
}
check_store_limit plan (some n) = record {
  limit = limit_for plan;
  current = n;
  at_limit = leb (limit_for plan) n;
  failed = false;
}
