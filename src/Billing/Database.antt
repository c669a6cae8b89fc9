-- ===== src/Billing/Database.antt =====
-- The tables that the webhook writes, with the constraints of the schema (migrations/000002_enums,
-- 000004_tenants_and_membership, 000009_billing, 000021_gumroad_billing, 000022_plan_tier_enum), and
-- a transaction on them: after a statement that fails, every later one fails, and a commit rolls
-- back. Times are seconds; `updated_at` and what only the web pages read is left out.
use shopify_gmc.Base.{
  ℕ, String, Bool, true, false, Option, none, some, List, ◌==◌, nat_eq, string_eq, if◌then◌else◌,
  is_some, ◌||◌, ltb, ◌^◌,
}
use shopify_gmc.Base.Int.{ℤ, pos, negsuc}
use shopify_gmc.Base.Table.{Table, lookup}

pub record Tenant : Type 0 where
  pub plan : String
  pub plan_renews_at : Option ℕ
  pub pending_plan : Option String
  pub pending_plan_at : Option ℕ
  pub subscription_id : Option String

pub data PurchaseStatus : Type 0 where
  active refunded canceled : PurchaseStatus

pub record Purchase : Type 0 where
  pub tenant_id : Option ℕ
  pub license_key : Option String
  pub product_id : String
  pub plan : String
  pub amount_cents : ℤ
  pub currency : String
  pub status : PurchaseStatus
  pub purchased_at : ℕ
  pub refunded_at : Option ℕ

-- Why `Dispatch` fails.
pub data DispatchError : Type 0 where
  missing_tenant sql_failure : DispatchError

-- A row of gumroad_webhook_events.
pub record EventRow : Type 0 where
  pub event_type : String
  pub sale_id : Option String
  pub tenant_id : Option ℕ
  pub product_id : Option String
  pub processed_at : Option ℕ
  pub error_message : Option DispatchError
  pub signature_ok : Bool

-- `purchases` is keyed by gumroad_sale_id, the other tables by their id.
pub record Db : Type 0 where
  pub tenants : Table ℕ Tenant
  pub purchases : Table String Purchase
  pub events : Table ℕ EventRow

pub record Mail : Type 0 where
  pub to : String
  pub subject : String

-- An open transaction, and the mails that were handed to the mailer meanwhile.
pub record Tx : Type 0 where
  pub db : Db
  pub aborted : Bool
  pub sent : List Mail

-- NULLIF(s, '').
abbrev pub null_if_empty : String → Option String
null_if_empty s = if s == "" then none else some s

-- `nullableUUID`.
abbrev pub nullable : ℕ → Option ℕ
nullable id = if id == 0 then none else some id

-- The labels of the type plan_tier.
abbrev pub is_plan : String → Bool
is_plan s =
    s == "free"
    || s == "pro"
    || s == "agency"
    || s == "enterprise"
    || s == "starter"
    || s == "growth"

-- A foreign key to tenants.
abbrev pub has_tenant : Option ℕ → Db → Bool
has_tenant none db = true
has_tenant (some t) db = is_some (lookup t db.tenants)

-- Does a number fit a column of type integer. The client refuses one that does not before it sends the
-- statement, which leaves the transaction as it is.
unfoldable pub fits_int4 : ℤ → Bool
fits_int4 (pos n) = ltb n (2 ^ 31)
fits_int4 (negsuc n) = ltb n (2 ^ 31)

-- One statement: its new tables, or `none` where a constraint or a cast fails.
unfoldable pub exec : (Db → Option Db) → Tx → Tx × Bool
exec statement tx = if tx.aborted then (tx, false) else elim (statement tx.db) [
  | none ↦ (record tx { aborted = true }, false)
  | some db ↦ (record tx { db = db }, true)
]
