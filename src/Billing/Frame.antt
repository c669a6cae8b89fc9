-- ===== src/Billing/Frame.antt =====
-- What a dispatch leaves alone, and what its failures leave behind (internal/billing/dispatcher.go).
use shopify_gmc.Base.{
  ℕ, ◌≡◌, ◌≢◌, inl, inr, refl, ◌∙◌, String, true, false, Option, some, ◌==◌, nat_eq, string_eq,
  ==_iff, if◌then◌else◌, arith, Option-cases, Bool-cases,
}
use shopify_gmc.Base.Table.{Table, lookup, modify, lookup-modify}
use shopify_gmc.Billing.Event.{Event}
use shopify_gmc.Billing.Products.{
  ProductKind, rescue, unknown, Product, Catalog, lookup_by_gumroad_id,
}
use shopify_gmc.Billing.Database.{
  Purchase, EventRow, Tenant, DispatchError, missing_tenant, sql_failure, Db, Tx, exec, fits_int4,
}
use shopify_gmc.Billing.Dispatcher

-- A statement that fails aborts the transaction.
pub exec-aborted :
    (f : Db → Option Db) (tx : Tx) → (exec f tx).1 ≡ false → (exec f tx).0.aborted ≡ true
unfolding exec
exec-aborted f tx h = ground arith

-- An aborted transaction stays as it is.
pub exec_of_aborted : (f : Db → Option Db) (tx : Tx) → tx.aborted ≡ true → exec f tx ≡ (tx, false)
unfolding exec
exec_of_aborted f tx h = rw (h, exec) refl

-- A view of the tables that an update of the event's tenant and a write of purchases leave alone.
pub record IsApart {ℓ} {V : Type ℓ} (e : Event) (view : Db → V) : Type ℓ where
  pub off_tenant :
      (f : Tenant → Tenant) (db : Db)
      → view (record db { tenants = modify e.tenant_id f db.tenants }) ≡ view db
  pub off_purchases :
      (ps : Table String Purchase) (db : Db) → view (record db { purchases = ps }) ≡ view db

module _ {ℓ} {V : Type ℓ} (view : Db → V) where
  pub exec-view :
      (f : Db → Option Db) (tx : Tx)
      → ((db : Db) → f tx.db ≡ some db → view db ≡ view tx.db)
      → view (exec f tx).0.db ≡ view tx.db
  unfolding exec
  exec-view f tx h = elim (Option-cases (f tx.db)) [
    | inl failed ↦ ground arith
    | inr (db, done) ↦ ground (arith, h db done)
  ]

-- Such a view through each handler.
module _ {ℓ} {V : Type ℓ} (view : Db → V) (add_month : ℕ → ℕ) (now : ℕ) (m : Dispatcher.Mailer)
    (e : Event) (apart : IsApart e view) where
  update_tenant-view :
      (plan : String) (f : Tenant → Tenant) (tx : Tx)
      → view (exec (Dispatcher.update_tenant e.tenant_id plan f) tx).0.db ≡ view tx.db
  update_tenant-view plan f tx =
      exec-view view (Dispatcher.update_tenant e.tenant_id plan f) tx (λ db h. go db h)
    where
      go :
          (db : Db)
          → Dispatcher.update_tenant e.tenant_id plan f tx.db ≡ some db
          → view db ≡ view tx.db
      go db h = ground (arith, apart.off_tenant f tx.db)

  upsert_purchase-view :
      (plan : String) (tx : Tx) → view (Dispatcher.upsert_purchase e plan tx).0.db ≡ view tx.db
  unfolding Dispatcher.upsert_purchase Dispatcher.purchase_statement
  upsert_purchase-view plan tx = elim (Bool-cases (fits_int4 e.price_cents)) [
    | inl fits ↦
        rw (Dispatcher.upsert_purchase, fits)
          (exec-view view (Dispatcher.purchase_statement e plan) tx go)
    | inr large ↦ rw (Dispatcher.upsert_purchase, large) refl
  ]
    where
      go : (db : Db) → Dispatcher.purchase_statement e plan tx.db ≡ some db → view db ≡ view tx.db
      go db h = ground (arith, apart.off_purchases db.purchases tx.db)

  pub notify-view :
      (subject : String) (tx : Tx) → view (Dispatcher.notify m e subject tx).db ≡ view tx.db
  unfolding Dispatcher.notify
  notify-view subject tx = ground arith

  pub notify_operator-view :
      (subject : String) (tx : Tx) → view (Dispatcher.notify_operator m subject tx).db ≡ view tx.db
  unfolding Dispatcher.notify_operator
  notify_operator-view subject tx = ground arith

  apply_sale-view :
      (prod : Product) (kind : ProductKind) (tx : Tx)
      → view (Dispatcher.apply_sale add_month m e prod kind tx).0.db ≡ view tx.db
  unfolding Dispatcher.apply_sale
  apply_sale-view prod rescue tx =
      notify_operator-view "Rescue Audit purchase"
        (Dispatcher.notify m e "Rescue Audit purchased" tx)
      ∙ notify-view "Rescue Audit purchased" tx
  apply_sale-view prod unknown tx = notify_operator-view "Gumroad sale for UNKNOWN product" tx
  apply_sale-view prod _ tx =
      update_tenant-view prod.plan_tier (Dispatcher.subscribe add_month e prod) tx

  handle_sale-view :
      (prod : Product) (tx : Tx)
      → view (Dispatcher.handle_sale add_month m e prod tx).0.db ≡ view tx.db
  unfolding Dispatcher.handle_sale
  handle_sale-view prod tx =
      let plan = if prod.plan_tier == "" then "free" else prod.plan_tier in
      ground (
        arith,
        upsert_purchase-view plan tx,
        apply_sale-view prod prod.kind (Dispatcher.upsert_purchase e plan tx).0,
      )

  keep_purchase-view :
      (prod : Product) (tx : Tx) → view (Dispatcher.keep_purchase e prod tx).0.db ≡ view tx.db
  unfolding Dispatcher.keep_purchase
  keep_purchase-view prod tx = ground (arith, upsert_purchase-view prod.plan_tier tx)

  updated-view :
      (prod : Product) (tx : Tx)
      → view (Dispatcher.handle_subscription_updated add_month e prod tx).0.db ≡ view tx.db
  unfolding Dispatcher.handle_subscription_updated Dispatcher.renew_plan
  updated-view prod tx =
      let renew =
        Dispatcher.update_tenant e.tenant_id prod.plan_tier
          (Dispatcher.resubscribe add_month e prod) in
      ground (
        arith,
        keep_purchase-view prod tx,
        keep_purchase-view prod (exec renew tx).0,
        update_tenant-view prod.plan_tier (Dispatcher.resubscribe add_month e prod) tx,
      )

  cancelled-view :
      (tx : Tx)
      → view (Dispatcher.handle_subscription_cancelled add_month now e tx).0.db ≡ view tx.db
  unfolding Dispatcher.handle_subscription_cancelled
  cancelled-view tx = update_tenant-view "free" _ tx

  ended-view : (tx : Tx) → view (Dispatcher.handle_subscription_ended e tx).0.db ≡ view tx.db
  unfolding Dispatcher.handle_subscription_ended
  ended-view tx = update_tenant-view "free" Dispatcher.end_plan tx

  marked-view : (tx : Tx) → view (Dispatcher.mark_refunded now e tx).0.db ≡ view tx.db
  unfolding Dispatcher.mark_refunded
  marked-view tx =
      exec-view view _ tx (λ db h. ground (arith, apart.off_purchases db.purchases tx.db))

  refund-view : (tx : Tx) → view (Dispatcher.handle_refund now e tx).0.db ≡ view tx.db
  unfolding Dispatcher.handle_refund
  refund-view tx = ground (arith, marked-view tx, ended-view (Dispatcher.mark_refunded now e tx).0)

  pub apply_event-view :
      (prod : Product) (tx : Tx)
      → view (Dispatcher.apply_event add_month now m e prod tx).0.db ≡ view tx.db
  unfolding Dispatcher.apply_event
  apply_event-view prod tx = ground (
    arith,
    handle_sale-view prod tx,
    updated-view prod tx,
    cancelled-view tx,
    ended-view tx,
    refund-view tx,
  )

-- A view of the tables without the events, through the statements on the event row.
module _ {ℓ} {V : Type ℓ} (view : Db → V)
    (off_events : (rows : Table ℕ EventRow) (db : Db)
      → view (record db { events = rows }) ≡ view db)
    (now row : ℕ) where
  pub mark_err-view :
      (err : DispatchError) (tx : Tx) → view (Dispatcher.mark_err now row err tx).db ≡ view tx.db
  unfolding Dispatcher.mark_err
  mark_err-view err tx = exec-view view _ tx (λ db h. ground (arith, off_events db.events tx.db))

  pub finish-view :
      (e : Event) (tx : Tx)
      → view (exec (Dispatcher.finish_statement now row e) tx).0.db ≡ view tx.db
  unfolding Dispatcher.finish_statement
  finish-view e tx = exec-view view _ tx (λ db h. ground (arith, off_events db.events tx.db))

tenant-IsApart : (e : Event) (t : ℕ) → t ≢ e.tenant_id → IsApart e (λ db. lookup t db.tenants)
tenant-IsApart e t ne = record {
  off_tenant =
      λ f db. ground (arith, lookup-modify e.tenant_id t f db.tenants, ==_iff e.tenant_id t);
  off_purchases = λ ps db. refl;
}

-- Whatever the event, and whether or not it can be applied, `Dispatch` changes no tenant but the one
-- that the event names.
pub dispatch_frame :
    (add_month : ℕ → ℕ) (now : ℕ) (m : Dispatcher.Mailer) (c : Catalog) (row : ℕ) (e : Event)
    (tx : Tx) (t : ℕ)
    → t ≢ e.tenant_id
    → lookup t (Dispatcher.dispatch add_month now m c row e tx).0.db.tenants
      ≡ lookup t tx.db.tenants
unfolding Dispatcher.dispatch
dispatch_frame add_month now m c row e tx t ne =
    let view : Db → Option Tenant = λ db. lookup t db.tenants in
    let apart = tenant-IsApart e t ne in
    let prod = lookup_by_gumroad_id c e.product_id in
    let applied = (Dispatcher.apply_event add_month now m e prod tx).0 in
    let told = Dispatcher.notify_operator m "Gumroad sale without tenant_id" tx in
    ground (
      arith,
      apply_event-view view add_month now m e apart prod tx,
      mark_err-view view (λ rows db. refl) now row sql_failure applied,
      mark_err-view view (λ rows db. refl) now row missing_tenant told,
      notify_operator-view view add_month now m e apart "Gumroad sale without tenant_id" tx,
      finish-view view (λ rows db. refl) now row e applied,
    )
