-- ===== src/Billing/Dispatcher.antt =====
-- Applying an event to the database, internal/billing/dispatcher.go. Each handler returns the
-- transaction and whether it succeeded. `now` is the time of the transaction, `add_month` is
-- `AddDate(0, 1, 0)`.
use shopify_gmc.Base.{
  ℕ, String, Bool, true, false, not, Option, none, some, [], ◌∷◌, ◌++◌, ◌==◌, nat_eq, string_eq,
  if◌then◌else◌, is_some, default, any, ◌&&◌, ◌||◌,
}
use shopify_gmc.Base.Table.{Table, lookup, insert, modify}
use shopify_gmc.Billing.Event.{Event}
use shopify_gmc.Billing.Products.{
  ProductKind, rescue, unknown, Product, Catalog, lookup_by_gumroad_id,
}
use shopify_gmc.Billing.Database.{
  Tenant, Purchase, active, refunded, DispatchError, missing_tenant, sql_failure, EventRow, Db, Tx,
  null_if_empty, nullable, is_plan, has_tenant, fits_int4, exec,
}

-- The mailer of the dispatcher: is there one, and the operator's address.
pub record Mailer : Type 0 where
  pub present : Bool
  pub operator_email : String

abbrev pub send : String → String → Tx → Tx
send to subject tx = record tx { sent = tx.sent ++ record { to = to; subject = subject } ∷ [] }

-- A mail that cannot be sent is only logged.
unfoldable pub notify : Mailer → Event → String → Tx → Tx
notify m e subject tx = if not m.present || e.email == "" then tx else send e.email subject tx

unfoldable pub notify_operator : Mailer → String → Tx → Tx
notify_operator m subject tx =
    if not m.present || m.operator_email == "" then tx else send m.operator_email subject tx

-- UPDATE tenants … WHERE id = tenant, with a plan that is cast to plan_tier.
abbrev pub update_tenant : ℕ → String → (Tenant → Tenant) → Db → Option Db
update_tenant tenant plan f db =
    if is_plan plan then some (record db { tenants = modify tenant f db.tenants }) else none

-- Has another purchase the license key.
abbrev pub license_taken : Option String → Table String Purchase → Bool
license_taken none ps = false
license_taken (some k) ps = any (λ p. elim p.1.license_key [ none ↦ false | some j ↦ j == k ]) ps

abbrev pub new_purchase : Event → String → Purchase
new_purchase e plan = record {
  tenant_id = nullable e.tenant_id;
  license_key = null_if_empty e.license_key;
  product_id = e.product_id;
  plan = plan;
  amount_cents = e.price_cents;
  currency = e.currency;
  status = active;
  purchased_at = e.purchased_at;
  refunded_at = none;
}

-- INSERT INTO purchases … ON CONFLICT (gumroad_sale_id) DO UPDATE.
unfoldable pub purchase_statement : Event → String → Db → Option Db
purchase_statement e plan db =
    if not (is_plan plan)
    then none
    else if is_some (lookup e.sale_id db.purchases)
    then some (record db {
      purchases =
          modify e.sale_id
            (λ p. record p {
              plan = plan;
              amount_cents = e.price_cents;
              currency = e.currency;
              status = active;
              refunded_at = none;
            })
            db.purchases;
    })
    else if not (has_tenant (nullable e.tenant_id) db)
        || license_taken (null_if_empty e.license_key) db.purchases
    then none
    else some (record db { purchases = insert e.sale_id (new_purchase e plan) db.purchases })

unfoldable pub upsert_purchase : Event → String → Tx → Tx × Bool
upsert_purchase e plan tx =
    if fits_int4 e.price_cents then exec (purchase_statement e plan) tx else (tx, false)

abbrev pub renewal : (ℕ → ℕ) → Event → ℕ
renewal add_month e = default e.ends_at (add_month e.purchased_at)

-- COALESCE(a, b).
abbrev pub coalesce : Option String → Option String → Option String
coalesce none b = b
coalesce (some a) b = some a

abbrev pub subscribe : (ℕ → ℕ) → Event → Product → Tenant → Tenant
subscribe add_month e prod t = record t {
  plan = prod.plan_tier;
  plan_renews_at = some (renewal add_month e);
  pending_plan = none;
  pending_plan_at = none;
  subscription_id = coalesce (null_if_empty e.subscription_id) t.subscription_id;
}

-- The `switch` of `handleSale`.
unfoldable pub apply_sale : (ℕ → ℕ) → Mailer → Event → Product → ProductKind → Tx → Tx × Bool
apply_sale add_month m e prod rescue tx =
    (notify_operator m "Rescue Audit purchase" (notify m e "Rescue Audit purchased" tx), true)
apply_sale add_month m e prod unknown tx =
    (notify_operator m "Gumroad sale for UNKNOWN product" tx, true)
apply_sale add_month m e prod tier tx =
    exec (update_tenant e.tenant_id prod.plan_tier (subscribe add_month e prod)) tx

unfoldable pub handle_sale : (ℕ → ℕ) → Mailer → Event → Product → Tx → Tx × Bool
handle_sale add_month m e prod tx =
    let (bought, ok) =
      upsert_purchase e (if prod.plan_tier == "" then "free" else prod.plan_tier) tx in
    if ok then apply_sale add_month m e prod prod.kind bought else (bought, false)

abbrev pub resubscribe : (ℕ → ℕ) → Event → Product → Tenant → Tenant
resubscribe add_month e prod t = record t {
  plan = prod.plan_tier;
  plan_renews_at = some (renewal add_month e);
  pending_plan = none;
  pending_plan_at = none;
}

-- The purchase of an update with a sale id; the error of `upsertPurchase` is dropped.
unfoldable pub keep_purchase : Event → Product → Tx → Tx × Bool
keep_purchase e prod tx =
    (if e.sale_id == "" then tx else (upsert_purchase e prod.plan_tier tx).0, true)

-- The plan of a recurring product, and then the purchase.
unfoldable pub renew_plan : (ℕ → ℕ) → Event → Product → Tx → Tx × Bool
renew_plan add_month e prod tx =
    let (updated, ok) =
      exec (update_tenant e.tenant_id prod.plan_tier (resubscribe add_month e prod)) tx in
    if ok then keep_purchase e prod updated else (updated, false)

unfoldable pub handle_subscription_updated : (ℕ → ℕ) → Event → Product → Tx → Tx × Bool
handle_subscription_updated add_month e prod tx =
    if prod.is_recurring && not (prod.plan_tier == "")
    then renew_plan add_month e prod tx
    else keep_purchase e prod tx

abbrev pub schedule_end : ℕ → Tenant → Tenant
schedule_end at_end t = record t {
  pending_plan = some "free";
  pending_plan_at = some at_end;
  plan_renews_at = some at_end;
}

unfoldable pub handle_subscription_cancelled : (ℕ → ℕ) → ℕ → Event → Tx → Tx × Bool
handle_subscription_cancelled add_month now e tx =
    exec (update_tenant e.tenant_id "free" (schedule_end (default e.ends_at (add_month now)))) tx

abbrev pub end_plan : Tenant → Tenant
end_plan t = record t {
  plan = "free";
  plan_renews_at = none;
  pending_plan = none;
  pending_plan_at = none;
}

unfoldable pub handle_subscription_ended : Event → Tx → Tx × Bool
handle_subscription_ended e tx = exec (update_tenant e.tenant_id "free" end_plan) tx

abbrev pub refund_row : ℕ → Event → Purchase → Purchase
refund_row now e p = record p { status = refunded; refunded_at = some (default e.refunded_at now) }

-- UPDATE purchases … RETURNING plan; no row is no error.
unfoldable pub mark_refunded : ℕ → Event → Tx → Tx × Bool
mark_refunded now e tx =
    exec (λ db. some (record db { purchases = modify e.sale_id (refund_row now e) db.purchases }))
      tx

unfoldable pub handle_refund : ℕ → Event → Tx → Tx × Bool
handle_refund now e tx =
    let (marked, ok) = mark_refunded now e tx in
    if not ok then (marked, false) else elim (lookup e.sale_id tx.db.purchases) [
      | none ↦ (marked, true)
      | some p ↦
          if p.plan == "" || p.plan == "free"
          then (marked, true)
          else handle_subscription_ended e marked
    ]

-- `markErr`: the error of its own statement is dropped.
unfoldable pub mark_err : ℕ → ℕ → DispatchError → Tx → Tx
mark_err now row err tx =
    (exec
      (λ db. some (record db {
        events =
            modify row (λ r. record r { error_message = some err; processed_at = some now })
              db.events;
      }))
      tx).0

-- The `switch` of `Dispatch`; "ping" and an unknown type change nothing.
unfoldable pub apply_event : (ℕ → ℕ) → ℕ → Mailer → Event → Product → Tx → Tx × Bool
apply_event add_month now m e prod tx =
    if e.type == "sale"
    then handle_sale add_month m e prod tx
    else if e.type == "subscription_updated"
    then handle_subscription_updated add_month e prod tx
    else if e.type == "subscription_cancelled"
    then handle_subscription_cancelled add_month now e tx
    else if e.type == "subscription_ended"
    then handle_subscription_ended e tx
    else if e.type == "refund"
    then handle_refund now e tx
    else (tx, true)

-- Has another event row the type and the sale.
abbrev pub event_taken : ℕ → String → Option String → Table ℕ EventRow → Bool
event_taken row type none es = false
event_taken row type (some s) es =
    any
      (λ r.
        not (r.0 == row)
        && r.1.event_type == type
        && elim r.1.sale_id [ none ↦ false | some t ↦ t == s ])
      es

-- The UPDATE of the event row at the end of `Dispatch`.
unfoldable pub finish_statement : ℕ → ℕ → Event → Db → Option Db
finish_statement now row e db =
    if not (has_tenant (nullable e.tenant_id) db)
      || event_taken row e.type (null_if_empty e.sale_id) db.events
    then none
    else some (record db {
      events =
          modify row
            (λ r. record r {
              processed_at = some now;
              tenant_id = nullable e.tenant_id;
              product_id = null_if_empty e.product_id;
              sale_id = null_if_empty e.sale_id;
              signature_ok = true;
            })
            db.events;
    })

-- `none` is success.
unfoldable pub dispatch :
    (ℕ → ℕ) → ℕ → Mailer → Catalog → ℕ → Event → Tx → Tx × Option DispatchError
dispatch add_month now m c row e tx =
    if e.tenant_id == 0 && not (e.type == "ping")
    then (
      mark_err now row missing_tenant (notify_operator m "Gumroad sale without tenant_id" tx),
      some missing_tenant,
    )
    else let (applied, ok) =
        apply_event add_month now m e (lookup_by_gumroad_id c e.product_id) tx in
      if not ok
      then (mark_err now row sql_failure applied, some sql_failure)
      else let (finished, recorded) = exec (finish_statement now row e) applied in
        (finished, if recorded then none else some sql_failure)
