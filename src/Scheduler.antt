-- ===== src/Scheduler.antt =====
-- The scheduler of monitored stores, internal/scheduler/scheduler.go, on the tables stores, audits and
-- audit_jobs. A time is a number of seconds; a statement, which locks its rows, is one step. The
-- address of a store and the JSON of a payload are parameters, fresh identifiers are counted up.
pub mod Order
pub mod Oldest
pub mod Claim
pub mod Ticks
pub mod Refresh
mod Tests
use shopify_gmc.Base.{
  ◌≡◌, refl, ℕ, suc, ◌+◌, String, Bool, true, false, not, Option, none, some, List, [], ◌∷◌, ◌++◌,
  ◌==◌, nat_eq, string_eq, if◌then◌else◌, leb, length, take, select, map, ◌&&◌,
}
use shopify_gmc.Base.Table.{Table, modify}
use shopify_gmc.Jobs.{Queue, enqueue}

pub record StoreRow : Type 0 where
  pub tenant_id : ℕ
  pub shop_domain : String
  pub display_name : Option String
  pub monitor_enabled : Bool
  pub monitor_frequency : ℕ
  pub next_audit_at : Option ℕ
  pub last_audit_at : Option ℕ

abbrev pub Stores : Type 0
Stores = Table ℕ StoreRow

-- A row of audits as the scheduler inserts it: triggered by nobody, queued.
pub record AuditRow : Type 0 where
  pub tenant_id : ℕ
  pub store_id : ℕ
  pub trigger : String
  pub status : String

pub record Payload : Type 0 where
  pub audit_id : ℕ
  pub tenant_id : ℕ
  pub store_id : ℕ
  pub store_url : String
  pub store_name : String
  pub trigger : String

pub record State : Type 0 where
  pub stores : Stores
  pub audits : Table ℕ AuditRow
  pub jobs : Queue
  pub free : ℕ

-- A store that is claimed, with its new `next_audit_at`.
pub record ClaimedStore : Type 0 where
  pub store_id : ℕ
  pub tenant_id : ℕ
  pub shop_domain : String
  pub display_name : Option String
  pub next_run_at : ℕ

-- WHERE monitor_enabled AND (next_audit_at IS NULL OR next_audit_at <= now()).
abbrev pub is_due : ℕ → StoreRow → Bool
is_due now r = r.monitor_enabled && elim r.next_audit_at [ none ↦ true | some t ↦ leb t now ]

-- ORDER BY next_audit_at NULLS FIRST.
abbrev pub not_after : Option ℕ → Option ℕ → Bool
not_after none b = true
not_after (some s) none = false
not_after (some s) (some t) = leb s t

abbrev pub precedes : ℕ × StoreRow → ℕ × StoreRow → Bool
precedes a b = not_after a.1.next_audit_at b.1.next_audit_at

pub insert_due : ℕ × StoreRow → Stores → Stores
insert_due e [] = e ∷ []
insert_due e (f ∷ fs) = let rest = insert_due e fs in if precedes e f then e ∷ f ∷ fs else f ∷ rest

pub sort_due : Stores → Stores
unfolding insert_due
sort_due [] = []
sort_due (e ∷ es) = insert_due e (sort_due es)

abbrev pub due_rows : ℕ → Stores → Stores
due_rows now stores = select (λ e. is_due now e.1) stores

-- The rows that the query locks.
pub locked : ℕ → ℕ → Stores → Stores
unfolding sort_due
locked now batch stores = take batch (sort_due (due_rows now stores))

abbrev pub advance : ℕ → StoreRow → StoreRow
advance now r = record r {
  next_audit_at = some (now + r.monitor_frequency);
  last_audit_at = some now;
}

unfoldable pub advance_all : ℕ → Stores → Stores → Stores
advance_all now [] stores = stores
advance_all now (e ∷ es) stores = advance_all now es (modify e.0 (advance now) stores)

abbrev pub returned : ℕ → ℕ × StoreRow → ClaimedStore
returned now e = record {
  store_id = e.0;
  tenant_id = e.1.tenant_id;
  shop_domain = e.1.shop_domain;
  display_name = e.1.display_name;
  next_run_at = now + e.1.monitor_frequency;
}

-- `claimDue`.
unfoldable pub claim_due : ℕ → ℕ → Stores → Stores × List ClaimedStore
claim_due now batch stores =
    let rows = locked now batch stores in (advance_all now rows stores, map (returned now) rows)

abbrev store_name : ClaimedStore → String
store_name c = elim c.display_name [
  | none ↦ c.shop_domain
  | some name ↦ if name == "" then c.shop_domain else name
]

abbrev coalesce_str : String → String → String
coalesce_str a b = if a == "" then b else a

module _ (url_for : String → String) (render : Payload → String) where
  abbrev payload : ℕ → ClaimedStore → Payload
  payload audit_id c = record {
    audit_id = audit_id;
    tenant_id = c.tenant_id;
    store_id = c.store_id;
    store_url = url_for c.shop_domain;
    store_name = store_name c;
    trigger = "scheduled";
  }

  -- `enqueueAudit`: one transaction, which the database accepts or refuses as a whole.
  unfoldable pub enqueue_audit : ℕ → Bool → ClaimedStore → State → State
  enqueue_audit now accepted c st =
      if accepted
      then record st {
        audits =
            st.audits
            ++ (
              st.free,
              record {
                tenant_id = c.tenant_id;
                store_id = c.store_id;
                trigger = "scheduled";
                status = "queued";
              },
            )
              ∷ [];
        jobs =
            enqueue (suc st.free) (some c.tenant_id) "audit_store" (render (payload st.free c)) now
              st.jobs;
        free = suc (suc st.free);
      }
      else st

  -- `Force`, in the caller's transaction: the state, and the audit's identifier.
  unfoldable pub force : ℕ → ℕ → ℕ → String → String → State → State × ℕ
  force now tenant store domain display st = (
    record st {
      audits =
          st.audits
          ++ (
            st.free,
            record {
              tenant_id = tenant;
              store_id = store;
              trigger = "scheduled";
              status = "queued";
            },
          )
            ∷ [];
      jobs =
          enqueue (suc st.free) (some tenant) "audit_store"
            (render (record {
              audit_id = st.free;
              tenant_id = tenant;
              store_id = store;
              store_url = url_for domain;
              store_name = coalesce_str display domain;
              trigger = "scheduled";
            }))
            now st.jobs;
      free = suc (suc st.free);
    },
    st.free,
  )

  -- The button and the scheduler enqueue the same audit of a store.
  force-enqueue_audit :
      (now : ℕ) (c : ClaimedStore) (display : String) (st : State)
      → c.display_name ≡ some display
      → (force now c.tenant_id c.store_id c.shop_domain display st).0 ≡ enqueue_audit now true c st
  unfolding force enqueue_audit
  force-enqueue_audit now c display st named = rw named refl

  -- A store whose transaction is refused is only logged.
  unfoldable pub enqueue_all : ℕ → (ℕ → Bool) → List ClaimedStore → State → State
  enqueue_all now accepts [] st = st
  enqueue_all now accepts (c ∷ cs) st =
      enqueue_all now accepts cs (enqueue_audit now (accepts c.store_id) c st)

  -- `runOnce`, where the claim's query is answered.
  unfoldable pub run_once : ℕ → ℕ → (ℕ → Bool) → State → State
  run_once now batch accepts st =
      let (stores, claimed) = claim_due now batch st.stores in
      enqueue_all now accepts claimed (record st { stores = stores })

  -- Several runs, at times and with answers of the database that are given.
  unfoldable pub run_times : ℕ → List (ℕ × (ℕ → Bool)) → State → State
  run_times batch [] st = st
  run_times batch ((now, accepts) ∷ runs) st = run_times batch runs (run_once now batch accepts st)
