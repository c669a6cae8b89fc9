-- ===== src/Scheduler/Refresh.antt =====
-- The refresher of Merchant Center connections, internal/scheduler/gmc_refresh.go, with the statements
-- of internal/gmc/store.go that it runs, on the table store_gmc_connections. What Google answers for a
-- connection is a parameter; a time is a number in the unit of `cadence_for`. The cached access tokens are left out.
use shopify_gmc.Base.{
  ℕ, ◌+◌, ◌≡◌, refl, ap, String, Bool, true, false, not, Option, none, some, List, [], ◌∷◌, ◌==◌,
  nat_eq, string_eq, if◌then◌else◌, ltb, length, take, select, map, All, ◌&&◌, ◌∙◌, arith,
}
use shopify_gmc.Base.Table.{Table, lookup, modify}
use shopify_gmc.Plans.{cadence_for}
use shopify_gmc.Scheduler.{not_after}

pub record ConnectionRow : Type 0 where
  pub tenant_id : ℕ
  pub store_id : ℕ
  pub status : String
  pub created_at : ℕ
  pub last_sync_at : Option ℕ
  pub last_sync_status : Option String
  pub last_error_message : Option String
  pub refresh_token : Option (List ℕ)
  pub revoked_at : Option ℕ
  pub account_status : String
  pub warnings : ℕ
  pub suspensions : ℕ
  pub website_claimed : Bool

abbrev pub Connections : Type 0
Connections = Table ℕ ConnectionRow

-- `dueConnection`.
pub record DueConnection : Type 0 where
  pub id : ℕ
  pub tenant_id : ℕ
  pub store_id : ℕ
  pub plan : String

pub record AccountStatus : Type 0 where
  pub status : String
  pub severities : List String
  pub website_claimed : Bool

pub data ApiAnswer : Type 0 where
  unauthorized : ApiAnswer
  failed : String → ApiAnswer
  account : AccountStatus → ApiAnswer

-- WHERE c.status = 'active' AND (last_sync_at IS NULL OR last_sync_at < now() - 5 minutes), of a
-- connection whose tenant is there.
abbrev pub is_stale : ℕ → Table ℕ String → ConnectionRow → Bool
is_stale now plans r =
    r.status == "active"
    && elim r.last_sync_at [ none ↦ true | some t ↦ ltb (t + 300) now ]
    && elim (lookup r.tenant_id plans) [ none ↦ false | some plan ↦ true ]

pub insert_stale : ℕ × ConnectionRow → Connections → Connections
insert_stale e [] = e ∷ []
insert_stale e (f ∷ fs) =
    let rest = insert_stale e fs in
    if not_after e.1.last_sync_at f.1.last_sync_at then e ∷ f ∷ fs else f ∷ rest

pub sort_stale : Connections → Connections
unfolding insert_stale
sort_stale [] = []
sort_stale (e ∷ es) = insert_stale e (sort_stale es)

abbrev due_of : Table ℕ String → ℕ × ConnectionRow → DueConnection
due_of plans e = record {
  id = e.0;
  tenant_id = e.1.tenant_id;
  store_id = e.1.store_id;
  plan = elim (lookup e.1.tenant_id plans) [ none ↦ "" | some plan ↦ plan ];
}

-- `loadDue`: ORDER BY last_sync_at NULLS FIRST LIMIT 200.
unfoldable pub load_due : ℕ → Table ℕ String → Connections → List DueConnection
unfolding sort_stale
load_due now plans conns =
    map (due_of plans) (take 200 (sort_stale (select (λ e. is_stale now plans e.1) conns)))

-- `GetByStore`: the newest of a store that is not revoked.
abbrev newer_of : ℕ × ConnectionRow → Option (ℕ × ConnectionRow) → Option (ℕ × ConnectionRow)
newer_of e none = some e
newer_of e (some f) = if ltb e.1.created_at f.1.created_at then some f else some e

pub get_by_store : ℕ → ℕ → Connections → Option (ℕ × ConnectionRow)
get_by_store tenant store [] = none
get_by_store tenant store (e ∷ es) =
    let rest = get_by_store tenant store es in
    if e.1.tenant_id == tenant && e.1.store_id == store && not (e.1.status == "revoked")
    then newer_of e rest
    else rest

abbrev null_if_empty : String → Option String
null_if_empty s = if s == "" then none else some s

-- `Touch`.
pub touch : ℕ → ℕ → String → String → Connections → Connections
touch now id status message = modify id (λ r. record r {
  last_sync_at = some now;
  last_sync_status = some status;
  last_error_message = null_if_empty message;
})

-- `MarkRevoked`.
pub mark_revoked : ℕ → ℕ → String → Connections → Connections
mark_revoked now id reason = modify id (λ r. record r {
  status = "revoked";
  revoked_at = some now;
  refresh_token = none;
  last_error_message = null_if_empty reason;
})

abbrev of_severity : String → List String → ℕ
of_severity s severities = length (select (λ x. x == s) severities)

-- `UpdateAccountSummary`.
pub update_account_summary : ℕ → AccountStatus → Connections → Connections
update_account_summary id a = modify id (λ r. record r {
  account_status = a.status;
  warnings = of_severity "error" a.severities;
  suspensions = of_severity "critical" a.severities;
  website_claimed = a.website_claimed;
})

abbrev pub record_answer : ℕ → ℕ → ApiAnswer → Connections → Connections
record_answer now id unauthorized conns =
    mark_revoked now id "Google rejected our refresh token (401) during background refresh." conns
record_answer now id (failed message) conns = touch now id "error" message conns
record_answer now id (account a) conns = update_account_summary id a (touch now id "ok" "" conns)

module _ (google : ℕ → ApiAnswer) where
  abbrev call : ℕ → Option (ℕ × ConnectionRow) → Connections → Connections
  call now none conns = conns
  call now (some (id, r)) conns = record_answer now id (google id) conns

  -- Was the row synchronised within the cadence.
  abbrev pub is_recent : ℕ → ℕ → ConnectionRow → Bool
  is_recent now cadence r = elim r.last_sync_at [ none ↦ false | some t ↦ ltb now (t + cadence) ]

  abbrev refresh_row : ℕ → DueConnection → Option ConnectionRow → Connections → Connections
  refresh_row now d none conns = conns
  refresh_row now d (some r) conns =
      if is_recent now (cadence_for d.plan) r
      then conns
      else call now (get_by_store d.tenant_id d.store_id conns) conns

  unfoldable pub refresh_one : ℕ → DueConnection → Connections → Connections
  refresh_one now d conns =
      if cadence_for d.plan == 0 then conns else refresh_row now d (lookup d.id conns) conns

  unfoldable pub refresh_all : ℕ → List DueConnection → Connections → Connections
  refresh_all now [] conns = conns
  refresh_all now (d ∷ ds) conns = refresh_all now ds (refresh_one now d conns)

  -- `runOnce`, where the query is answered.
  unfoldable pub refresh : ℕ → Table ℕ String → Connections → Connections
  refresh now plans conns = refresh_all now (load_due now plans conns) conns

  refresh_all-idle :
      (now : ℕ) (ds : List DueConnection) (conns : Connections)
      → All (λ d. cadence_for d.plan ≡ 0) ds
      → refresh_all now ds conns ≡ conns
  unfolding refresh_all refresh_one
  refresh_all-idle now [] conns h = refl
  refresh_all-idle now (d ∷ ds) conns h = ground (arith, refresh_all-idle now ds conns h.1, h.0)

  -- Runs at several times.
  pub refresh_times : List ℕ → Table ℕ String → Connections → Connections
  refresh_times [] plans conns = conns
  refresh_times (now ∷ nows) plans conns = refresh_times nows plans (refresh now plans conns)

  -- Runs do nothing at all while each row that the query returns, which are 200 at most, belongs to a
  -- plan without a cadence: nobody else's turn comes.
  pub refresh_times-idle :
      (nows : List ℕ) (plans : Table ℕ String) (conns : Connections)
      → All (λ now. All (λ d. cadence_for d.plan ≡ 0) (load_due now plans conns)) nows
      → refresh_times nows plans conns ≡ conns
  unfolding refresh_times refresh
  refresh_times-idle [] plans conns h = refl
  refresh_times-idle (now ∷ nows) plans conns h =
      ap (refresh_times nows plans) (refresh_all-idle now (load_due now plans conns) conns h.0)
      ∙ refresh_times-idle nows plans conns h.1
