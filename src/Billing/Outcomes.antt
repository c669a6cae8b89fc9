-- ===== src/Billing/Outcomes.antt =====
-- What an event that is applied does to its tenant (internal/billing/dispatcher.go).
use shopify_gmc.Base.{
  ℕ, ◌≡◌, ◌≢◌, refl, sym, ap, ◌∙◌, String, Bool, true, false, not, Option, none, some, ◌==◌, nat_eq,
  string_eq, ==_refl, if◌then◌else◌, arith, ◌&&◌, ◌||◌, default, Bool-cases, inl, inr,
}
use mathlib.Core.Option
use shopify_gmc.Base.Table.{Table, lookup, lookup-modify}
use shopify_gmc.Billing.Event.{Event}
use shopify_gmc.Billing.Products.{
  ProductKind, rescue, unknown, Product, Catalog, lookup_by_gumroad_id, recurs,
}
use shopify_gmc.Billing.Database.{Tenant, Purchase, DispatchError, Tx, exec, fits_int4}
use shopify_gmc.Billing.Dispatcher
use shopify_gmc.Billing.Frame.{exec-view, finish-view}
use shopify_gmc.Billing.Cases.{
  conclude, dispatch-conclude, apply_sale_event, apply_updated, apply_cancelled, apply_ended,
  apply_refund, apply_other,
}

abbrev pub tenant_of : ℕ → Tx → Option Tenant
tenant_of k tx = lookup k tx.db.tenants

-- Is the purchase of a plan, and not a one-time charge.
abbrev pub of_plan : Option Purchase → Bool
of_plan none = false
of_plan (some p) = not (p.plan == "" || p.plan == "free")

-- The row of a tenant with the plan of a product until `ends`, without a pending change.
abbrev pub on_plan : String → ℕ → Tenant → Tenant
on_plan plan ends t = record {
  plan = plan;
  plan_renews_at = some ends;
  pending_plan = none;
  pending_plan_at = none;
  subscription_id = t.subscription_id;
}

-- The same with the identifier of the subscription, where the event has one.
abbrev pub on_subscription : String → ℕ → String → Tenant → Tenant
on_subscription plan ends id t = record {
  plan = plan;
  plan_renews_at = some ends;
  pending_plan = none;
  pending_plan_at = none;
  subscription_id = if id == "" then t.subscription_id else some id;
}

-- The row of a tenant whose plan is kept until `ends`, and is then the free one.
abbrev pub until_free : ℕ → Tenant → Tenant
until_free ends t = record {
  plan = t.plan;
  plan_renews_at = some ends;
  pending_plan = some "free";
  pending_plan_at = some ends;
  subscription_id = t.subscription_id;
}

-- The row of a tenant on the free plan.
abbrev pub on_free : Tenant → Tenant
on_free t = record {
  plan = "free";
  plan_renews_at = none;
  pending_plan = none;
  pending_plan_at = none;
  subscription_id = t.subscription_id;
}

-- When the period of an event ends: as it says, or a month after the purchase.
abbrev pub period_end : (ℕ → ℕ) → Event → ℕ
period_end add_month e = default e.ends_at (add_month e.purchased_at)

map-same :
    (f g : Tenant → Tenant) (o : Option Tenant)
    → ((t : Tenant) → f t ≡ g t)
    → Option.map f o ≡ Option.map g o
map-same f g none same = refl
map-same f g (some t) same = ap some (same t)

subscribe-on_subscription :
    (add_month : ℕ → ℕ) (e : Event) (prod : Product) (t : Tenant)
    → Dispatcher.subscribe add_month e prod t
      ≡ on_subscription prod.plan_tier (period_end add_month e) e.subscription_id t
subscribe-on_subscription add_month e prod t = elim (Bool-cases (e.subscription_id == "")) [
  | inl empty ↦ rw empty refl
  | inr given ↦ rw given refl
]

-- A successful update of a tenant.
updated-tenant :
    (k : ℕ) (plan : String) (f : Tenant → Tenant) (tx : Tx)
    → (exec (Dispatcher.update_tenant k plan f) tx).1 ≡ true
    → tenant_of k (exec (Dispatcher.update_tenant k plan f) tx).0 ≡ Option.map f (tenant_of k tx)
unfolding exec
updated-tenant k plan f tx h = ground (arith, lookup-modify k k f tx.db.tenants, ==_refl k)

module _ (add_month : ℕ → ℕ) (now : ℕ) (m : Dispatcher.Mailer) (e : Event) (prod : Product) where
  bought-tenants :
      (plan : String) (tx : Tx)
      → (Dispatcher.upsert_purchase e plan tx).0.db.tenants ≡ tx.db.tenants
  unfolding Dispatcher.upsert_purchase Dispatcher.purchase_statement
  bought-tenants plan tx = elim (Bool-cases (fits_int4 e.price_cents)) [
    | inl fits ↦
        rw (Dispatcher.upsert_purchase, fits)
          (exec-view (λ db. db.tenants) (Dispatcher.purchase_statement e plan) tx
            (λ db h. ground arith))
    | inr large ↦ rw (Dispatcher.upsert_purchase, large) refl
  ]

  sold-tenant :
      (kind : ProductKind) (tx : Tx)
      → (Dispatcher.apply_sale add_month m e prod kind tx).1 ≡ true
      → tenant_of e.tenant_id (Dispatcher.apply_sale add_month m e prod kind tx).0 ≡ (
          if recurs kind
          then Option.map (Dispatcher.subscribe add_month e prod) (tenant_of e.tenant_id tx)
          else tenant_of e.tenant_id tx)
  unfolding Dispatcher.apply_sale Dispatcher.notify Dispatcher.notify_operator
  sold-tenant rescue tx h = ground arith
  sold-tenant unknown tx h = ground arith
  sold-tenant _ tx h = updated-tenant e.tenant_id prod.plan_tier _ tx h

  sale-tenant :
      (tx : Tx)
      → (Dispatcher.handle_sale add_month m e prod tx).1 ≡ true
      → tenant_of e.tenant_id (Dispatcher.handle_sale add_month m e prod tx).0 ≡ (
          if recurs prod.kind
          then Option.map
              (on_subscription prod.plan_tier (period_end add_month e) e.subscription_id)
              (tenant_of e.tenant_id tx)
          else tenant_of e.tenant_id tx)
  unfolding Dispatcher.handle_sale
  sale-tenant tx h =
      let plan = if prod.plan_tier == "" then "free" else prod.plan_tier in
      ground (
        arith,
        bought-tenants plan tx,
        sold-tenant prod.kind (Dispatcher.upsert_purchase e plan tx).0,
        map-same (Dispatcher.subscribe add_month e prod)
            (on_subscription prod.plan_tier (period_end add_month e) e.subscription_id)
            (tenant_of e.tenant_id tx) (subscribe-on_subscription add_month e prod),
      )

  kept-tenants : (tx : Tx) → (Dispatcher.keep_purchase e prod tx).0.db.tenants ≡ tx.db.tenants
  unfolding Dispatcher.keep_purchase
  kept-tenants tx = ground (arith, bought-tenants prod.plan_tier tx)

  update-tenant :
      (tx : Tx)
      → (Dispatcher.handle_subscription_updated add_month e prod tx).1 ≡ true
      → tenant_of e.tenant_id (Dispatcher.handle_subscription_updated add_month e prod tx).0 ≡ (
          if prod.is_recurring && not (prod.plan_tier == "")
          then Option.map (Dispatcher.resubscribe add_month e prod) (tenant_of e.tenant_id tx)
          else tenant_of e.tenant_id tx)
  unfolding Dispatcher.handle_subscription_updated Dispatcher.renew_plan
  update-tenant tx h =
      let f = Dispatcher.resubscribe add_month e prod in
      let renew = Dispatcher.update_tenant e.tenant_id prod.plan_tier f in
      ground (
        arith,
        kept-tenants tx,
        kept-tenants (exec renew tx).0,
        updated-tenant e.tenant_id prod.plan_tier f tx,
      )

  marked-tenants : (tx : Tx) → (Dispatcher.mark_refunded now e tx).0.db.tenants ≡ tx.db.tenants
  unfolding Dispatcher.mark_refunded
  marked-tenants tx = exec-view (λ db. db.tenants) _ tx (λ db h. ground arith)

  ended-tenant :
      (tx : Tx)
      → (Dispatcher.handle_subscription_ended e tx).1 ≡ true
      → tenant_of e.tenant_id (Dispatcher.handle_subscription_ended e tx).0
        ≡ Option.map Dispatcher.end_plan (tenant_of e.tenant_id tx)
  unfolding Dispatcher.handle_subscription_ended
  ended-tenant tx h = updated-tenant e.tenant_id "free" Dispatcher.end_plan tx h

  refund-tenant :
      (tx : Tx)
      → (Dispatcher.handle_refund now e tx).1 ≡ true
      → tenant_of e.tenant_id (Dispatcher.handle_refund now e tx).0 ≡ (
          if of_plan (lookup e.sale_id tx.db.purchases)
          then Option.map Dispatcher.end_plan (tenant_of e.tenant_id tx)
          else tenant_of e.tenant_id tx)
  unfolding Dispatcher.handle_refund
  refund-tenant tx h =
      ground (arith, marked-tenants tx, ended-tenant (Dispatcher.mark_refunded now e tx).0)

-- The tenant of an event before and after, by the type of the event.
pub record IsApplied (add_month : ℕ → ℕ) (now : ℕ) (e : Event) (prod : Product)
    (bought : Option Purchase) (before after : Option Tenant) : Type 0 where
  pub sale :
      e.type ≡ "sale"
      → after ≡ (
          if recurs prod.kind
          then Option.map
              (on_subscription prod.plan_tier (period_end add_month e) e.subscription_id)
              before
          else before)
  pub updated :
      e.type ≡ "subscription_updated"
      → after ≡ (
          if prod.is_recurring && not (prod.plan_tier == "")
          then Option.map (on_plan prod.plan_tier (period_end add_month e)) before
          else before)
  pub cancelled :
      e.type ≡ "subscription_cancelled"
      → after ≡ Option.map (until_free (default e.ends_at (add_month now))) before
  pub ended : e.type ≡ "subscription_ended" → after ≡ Option.map on_free before
  pub refund :
      e.type ≡ "refund" → after ≡ (if of_plan bought then Option.map on_free before else before)
  pub other :
      e.type ≢ "sale"
      → e.type ≢ "subscription_updated"
      → e.type ≢ "subscription_cancelled"
      → e.type ≢ "subscription_ended"
      → e.type ≢ "refund"
      → after ≡ before

-- After a successful end the handler had succeeded, and the tenants are as it left them.
concluded :
    (now row : ℕ) (e : Event) (r : Tx × Bool)
    → (conclude now row e r).1 ≡ none
    → (r.1 ≡ true) × ((conclude now row e r).0.db.tenants ≡ r.0.db.tenants)
concluded now row e (tx, false) h = cc
concluded now row e (tx, true) h =
    (refl, finish-view (λ db. db.tenants) (λ rows db. refl) now row e tx)

-- After an event of a tenant that `Dispatch` applies: the sale of a subscription gives the tenant
-- the plan of the product until the end of the period, without a pending change; any other sale
-- leaves the tenant as it is. An update of a recurring product does the same, and any other update
-- nothing. A cancellation keeps the plan and schedules the free one; an end drops to the free plan.
-- A refund drops to it exactly when the refunded purchase is of a plan: the refund of a one-time
-- charge or of an unknown sale leaves the tenant as it is, and so does any other type of event.
pub dispatch_applies :
    (add_month : ℕ → ℕ) (now : ℕ) (m : Dispatcher.Mailer) (c : Catalog) (row : ℕ) (e : Event)
    (tx : Tx)
    → e.tenant_id ≢ 0
    → (Dispatcher.dispatch add_month now m c row e tx).1 ≡ none
    → IsApplied add_month now e
        (lookup_by_gumroad_id c e.product_id)
        (lookup e.sale_id tx.db.purchases)
        (tenant_of e.tenant_id tx)
        (tenant_of e.tenant_id (Dispatcher.dispatch add_month now m c row e tx).0)
dispatch_applies add_month now m c row e tx tenant h =
    let eq = dispatch-conclude add_month now m c row e tx tenant in
    let done =
      concluded now row e (Dispatcher.apply_event add_month now m e prod tx)
        (sym (ap (λ (r : Tx × Option DispatchError). r.1) eq) ∙ h) in
    let look : tenant_of e.tenant_id (Dispatcher.dispatch add_month now m c row e tx).0
        ≡ tenant_of e.tenant_id (Dispatcher.apply_event add_month now m e prod tx).0 =
      ap (λ (r : Tx × Option DispatchError). tenant_of e.tenant_id r.0) eq
      ∙ ap (λ (ts : Table ℕ Tenant). lookup e.tenant_id ts) done.1 in
    record {
      sale = λ t.
          look
          ∙ on (apply_sale_event add_month now m e prod tx t) done.0
              (sale-tenant add_month now m e prod tx);
      updated = λ t.
          look
          ∙ on (apply_updated add_month now m e prod tx t) done.0
              (update-tenant add_month now m e prod tx);
      cancelled =
          λ t. look ∙ on (apply_cancelled add_month now m e prod tx t) done.0 cancelled-tenant;
      ended = λ t.
          look
          ∙ on (apply_ended add_month now m e prod tx t) done.0
              (ended-tenant add_month now m e prod tx);
      refund = λ t.
          look
          ∙ on (apply_refund add_month now m e prod tx t) done.0
              (refund-tenant add_month now m e prod tx);
      other = λ s u x y r.
          look ∙ on (apply_other add_month now m e prod tx s u x y r) done.0 (λ ok. refl);
    }
  where
    prod : Product
    prod = lookup_by_gumroad_id c e.product_id

    on :
        {r : Tx × Bool} {t : Option Tenant}
        → Dispatcher.apply_event add_month now m e prod tx ≡ r
        → (Dispatcher.apply_event add_month now m e prod tx).1 ≡ true
        → (r.1 ≡ true → tenant_of e.tenant_id r.0 ≡ t)
        → tenant_of e.tenant_id (Dispatcher.apply_event add_month now m e prod tx).0 ≡ t
    on eq ok f =
        ap (λ (r : Tx × Bool). tenant_of e.tenant_id r.0) eq
        ∙ f (sym (ap (λ (r : Tx × Bool). r.1) eq) ∙ ok)

    cancelled-tenant :
        (Dispatcher.handle_subscription_cancelled add_month now e tx).1 ≡ true
        → tenant_of e.tenant_id (Dispatcher.handle_subscription_cancelled add_month now e tx).0
          ≡ Option.map
              (Dispatcher.schedule_end (default e.ends_at (add_month now)))
              (tenant_of e.tenant_id tx)
    cancelled-tenant ok =
        unfold Dispatcher.handle_subscription_cancelled in updated-tenant e.tenant_id "free" _ tx ok
