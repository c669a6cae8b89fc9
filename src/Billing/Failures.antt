-- ===== src/Billing/Failures.antt =====
-- What a dispatch that fails leaves behind (internal/billing/dispatcher.go and the webhook handler of
-- internal/web/handlers_billing.go).
use shopify_gmc.Base.{
  ℕ, ◌≡◌, ◌≢◌, ◌⊎◌, inl, inr, refl, ap, ◌∙◌, String, Bool, true, false, Option, none, some, ◌==◌,
  nat_eq, string_eq, ==_iff, if◌then◌else◌, arith, default, [],
}
use shopify_gmc.Base.Table.{Table}
use shopify_gmc.Billing.Event.{Event}
use shopify_gmc.Billing.Products.{
  ProductKind, rescue, unknown, Product, Catalog, lookup_by_gumroad_id,
}
use shopify_gmc.Billing.Database.{
  DispatchError, EventRow, missing_tenant, sql_failure, Db, Tx, exec, null_if_empty, fits_int4,
}
use shopify_gmc.Billing.Dispatcher
use shopify_gmc.Billing.Frame.{exec-aborted, exec_of_aborted, mark_err-view}
use shopify_gmc.Billing.Cases.{conclude, dispatch-conclude, apply_updated}
use shopify_gmc.Billing.Webhook.{event_seen, receive_event, begin, commit, answer}

module _ (add_month : ℕ → ℕ) (now : ℕ) (m : Dispatcher.Mailer) (e : Event) (prod : Product) where
  apply_sale-aborted :
      (kind : ProductKind) (tx : Tx)
      → (Dispatcher.apply_sale add_month m e prod kind tx).1 ≡ false
      → (Dispatcher.apply_sale add_month m e prod kind tx).0.aborted ≡ true
  unfolding Dispatcher.apply_sale
  apply_sale-aborted rescue tx h = cc
  apply_sale-aborted unknown tx h = cc
  apply_sale-aborted _ tx h = exec-aborted _ tx h

  handle_sale-aborted :
      (tx : Tx)
      → fits_int4 e.price_cents ≡ true
      → (Dispatcher.handle_sale add_month m e prod tx).1 ≡ false
      → (Dispatcher.handle_sale add_month m e prod tx).0.aborted ≡ true
  unfolding Dispatcher.handle_sale Dispatcher.upsert_purchase
  handle_sale-aborted tx fits h =
      let plan = if prod.plan_tier == "" then "free" else prod.plan_tier in
      let buy = Dispatcher.purchase_statement e plan in
      ground (arith, exec-aborted buy tx, apply_sale-aborted prod.kind (exec buy tx).0)

  updated-aborted :
      (tx : Tx)
      → (Dispatcher.handle_subscription_updated add_month e prod tx).1 ≡ false
      → (Dispatcher.handle_subscription_updated add_month e prod tx).0.aborted ≡ true
  unfolding Dispatcher.handle_subscription_updated Dispatcher.renew_plan Dispatcher.keep_purchase
  updated-aborted tx h =
      let renew =
        Dispatcher.update_tenant e.tenant_id prod.plan_tier
          (Dispatcher.resubscribe add_month e prod) in
      ground (arith, exec-aborted renew tx)

  marked-aborted :
      (tx : Tx)
      → (Dispatcher.mark_refunded now e tx).1 ≡ false
      → (Dispatcher.mark_refunded now e tx).0.aborted ≡ true
  unfolding Dispatcher.mark_refunded
  marked-aborted tx h = exec-aborted _ tx h

  ended-aborted :
      (tx : Tx)
      → (Dispatcher.handle_subscription_ended e tx).1 ≡ false
      → (Dispatcher.handle_subscription_ended e tx).0.aborted ≡ true
  unfolding Dispatcher.handle_subscription_ended
  ended-aborted tx h = exec-aborted _ tx h

  refund-aborted :
      (tx : Tx)
      → (Dispatcher.handle_refund now e tx).1 ≡ false
      → (Dispatcher.handle_refund now e tx).0.aborted ≡ true
  unfolding Dispatcher.handle_refund
  refund-aborted tx h =
      ground (arith, marked-aborted tx, ended-aborted (Dispatcher.mark_refunded now e tx).0)

  apply_event-aborted :
      (tx : Tx)
      → fits_int4 e.price_cents ≡ true
      → (Dispatcher.apply_event add_month now m e prod tx).1 ≡ false
      → (Dispatcher.apply_event add_month now m e prod tx).0.aborted ≡ true
  unfolding Dispatcher.apply_event Dispatcher.handle_subscription_cancelled
      Dispatcher.handle_subscription_ended
  apply_event-aborted tx fits h = ground (
    arith,
    handle_sale-aborted tx fits,
    updated-aborted tx,
    refund-aborted tx,
    exec-aborted
        (Dispatcher.update_tenant e.tenant_id "free"
          (Dispatcher.schedule_end (default e.ends_at (add_month now))))
        tx,
    exec-aborted (Dispatcher.update_tenant e.tenant_id "free" Dispatcher.end_plan) tx,
  )

mark_err_of_aborted :
    (now row : ℕ) (err : DispatchError) (tx : Tx)
    → tx.aborted ≡ true
    → Dispatcher.mark_err now row err tx ≡ tx
unfolding Dispatcher.mark_err
mark_err_of_aborted now row err tx h = ap (λ (r : Tx × Bool). r.0) (exec_of_aborted _ tx h)

pub notify_operator-db :
    (m : Dispatcher.Mailer) (subject : String) (tx : Tx)
    → (Dispatcher.notify_operator m subject tx).db ≡ tx.db
unfolding Dispatcher.notify_operator
notify_operator-db m subject tx = ground arith

answer_failed :
    (db : Db) (d : Tx × Option DispatchError) (err : DispatchError)
    → d.1 ≡ some err
    → answer db d ≡ record { db = commit db d.0; code = 200; sent = d.0.sent }
answer_failed db (tx, some err') err h = refl
answer_failed db (tx, none) err h = cc

module _ (add_month : ℕ → ℕ) (now : ℕ) (m : Dispatcher.Mailer) (c : Catalog) (row : ℕ)
    (e : Event) where
  pub receive_event-new :
      (db : Db)
      → event_seen e.type (null_if_empty e.sale_id) db.events ≡ false
      → receive_event add_month now m c row e db
        ≡ answer db (Dispatcher.dispatch add_month now m c row e (begin db row e))
  unfolding receive_event
  receive_event-new db new = rw new refl

  -- The two ways to fail.
  dispatch_fails :
      (tx : Tx) (err : DispatchError)
      → fits_int4 e.price_cents ≡ true
      → (Dispatcher.dispatch add_month now m c row e tx).1 ≡ some err
      → ((err ≡ sql_failure) × ((Dispatcher.dispatch add_month now m c row e tx).0.aborted ≡ true))
        ⊎ ((err ≡ missing_tenant)
            × (Dispatcher.dispatch add_month now m c row e tx).0
              ≡ Dispatcher.mark_err now row missing_tenant
                  (Dispatcher.notify_operator m "Gumroad sale without tenant_id" tx))
  unfolding Dispatcher.dispatch
  dispatch_fails tx err fits h =
      let prod = lookup_by_gumroad_id c e.product_id in
      let applied = (Dispatcher.apply_event add_month now m e prod tx).0 in
      ground (
        arith,
        apply_event-aborted add_month now m e prod tx fits,
        mark_err_of_aborted now row sql_failure applied,
        exec-aborted (Dispatcher.finish_statement now row e) applied,
      )

  -- An event that is new, whose price fits its column, and whose dispatch fails is answered with 200 and changes no tenant and no
  -- purchase. Either it had no tenant, or the commit rolls everything back: nothing of the event is
  -- kept, its row and its error message neither.
  pub failed_event_lost :
      (db : Db) (err : DispatchError)
      → event_seen e.type (null_if_empty e.sale_id) db.events ≡ false
      → fits_int4 e.price_cents ≡ true
      → (Dispatcher.dispatch add_month now m c row e (begin db row e)).1 ≡ some err
      → let r = receive_event add_month now m c row e db in
        (r.code ≡ 200)
        × (r.db.tenants ≡ db.tenants)
        × (r.db.purchases ≡ db.purchases)
        × ((err ≡ missing_tenant) ⊎ (r.db ≡ db))
  failed_event_lost db err new fits h =
      rw
        (
          receive_event-new db new,
          answer_failed db (Dispatcher.dispatch add_month now m c row e (begin db row e)) err h,
        )
        (elim (dispatch_fails (begin db row e) err fits h) [
          | inl (sql, aborted) ↦ rw aborted (refl, refl, refl, inr refl)
          | inr (missing, left) ↦ rw left (
            refl,
            commit_kept (λ db. db.tenants) (λ rows db. refl),
            commit_kept (λ db. db.purchases) (λ rows db. refl),
            inl missing,
          )
        ])
    where
      commit_kept :
          {V : Type 0} (view : Db → V)
          → ((rows : Table ℕ EventRow) (db : Db) → view (record db { events = rows }) ≡ view db)
          → view (
              commit db (
                Dispatcher.mark_err now row missing_tenant
                  (Dispatcher.notify_operator m "Gumroad sale without tenant_id" (begin db row e))))
            ≡ view db
      commit_kept view off =
          let told =
            Dispatcher.notify_operator m "Gumroad sale without tenant_id" (begin db row e) in
          ground (
            arith,
            mark_err-view view off now row missing_tenant told,
            notify_operator-db m "Gumroad sale without tenant_id" (begin db row e),
            off (begin db row e).db.events db,
          )

module _ (add_month : ℕ → ℕ) (now : ℕ) (m : Dispatcher.Mailer) (c : Catalog) (row : ℕ)
    (e : Event) where
  upsert_without_plan :
      (tx : Tx)
      → tx.aborted ≡ false
      → fits_int4 e.price_cents ≡ true
      → (Dispatcher.upsert_purchase e "" tx).0 ≡ record tx { aborted = true }
  unfolding Dispatcher.upsert_purchase Dispatcher.purchase_statement exec
  upsert_without_plan tx h fits = rw (fits, h, exec) refl

  updated_without_plan :
      (prod : Product) (tx : Tx)
      → tx.aborted ≡ false
      → fits_int4 e.price_cents ≡ true
      → prod.plan_tier ≡ ""
      → e.sale_id ≢ ""
      → Dispatcher.handle_subscription_updated add_month e prod tx
        ≡ (record tx { aborted = true }, true)
  unfolding Dispatcher.handle_subscription_updated Dispatcher.keep_purchase
  updated_without_plan prod tx h fits free sale =
      ground (arith, upsert_without_plan tx h fits, ==_iff e.sale_id "", ==_iff prod.plan_tier "")

  updated_dispatch :
      (tx : Tx)
      → tx.aborted ≡ false
      → fits_int4 e.price_cents ≡ true
      → e.type ≡ "subscription_updated"
      → e.tenant_id ≢ 0
      → e.sale_id ≢ ""
      → (lookup_by_gumroad_id c e.product_id).plan_tier ≡ ""
      → Dispatcher.dispatch add_month now m c row e tx
        ≡ (record tx { aborted = true }, some sql_failure)
  updated_dispatch tx h fits type tenant sale free =
      let prod = lookup_by_gumroad_id c e.product_id in
      dispatch-conclude add_month now m c row e tx tenant
      ∙ ap (conclude now row e) (
          apply_updated add_month now m e prod tx type
          ∙ updated_without_plan prod tx h fits free sale)
      ∙ conclude_aborted (record tx { aborted = true }) refl
    where
      conclude_aborted :
          (t : Tx) → t.aborted ≡ true → conclude now row e (t, true) ≡ (t, some sql_failure)
      conclude_aborted t a = rw (exec_of_aborted (Dispatcher.finish_statement now row e) t a) refl

-- A `subscription_updated` of a tenant for a product without a plan, with a sale id and a price that
-- fits its column, is lost: the purchase is written with the empty plan, which is no plan_tier, and the error is dropped, but the
-- transaction is aborted. The reply is 200, no table changes, the event is not recorded, and no mail
-- is sent.
pub updated_without_plan_lost :
    (add_month : ℕ → ℕ) (now : ℕ) (m : Dispatcher.Mailer) (c : Catalog) (row : ℕ) (e : Event)
    (db : Db)
    → e.type ≡ "subscription_updated"
    → e.tenant_id ≢ 0
    → e.sale_id ≢ ""
    → fits_int4 e.price_cents ≡ true
    → (lookup_by_gumroad_id c e.product_id).plan_tier ≡ ""
    → event_seen e.type (null_if_empty e.sale_id) db.events ≡ false
    → receive_event add_month now m c row e db ≡ record { db = db; code = 200; sent = [] }
updated_without_plan_lost add_month now m c row e db type tenant sale fits free new =
    rw
      (
        receive_event-new add_month now m c row e db new,
        updated_dispatch add_month now m c row e (begin db row e) refl fits type tenant sale free,
      )
      refl
