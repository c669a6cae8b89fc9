-- ===== src/Billing/Tests.antt =====
-- Events on a small database, and the theorems of billing at them.
use shopify_gmc.Base.{
  ℕ, ◌≡◌, ◌≢◌, ◌↔◌, ◌⊎◌, refl, String, true, false, none, some, List, [], ◌∷◌, ◌==◌, ==_iff, arith,
  nat_eq, string_eq, if◌then◌else◌, ◌+◌, ◌^◌,
}
use shopify_gmc.Base.Int.{pos}
use shopify_gmc.Base.Table.{lookup, insert, modify}
use shopify_gmc.Billing.Products.{Catalog, starter, lookup_by_gumroad_id}
use shopify_gmc.Billing.Signature.{hex_decode, verify_signature, verify_signature_iff}
use shopify_gmc.Billing.Event.{Event}
use shopify_gmc.Billing.Database.{Tenant, Db, Tx, exec, missing_tenant, fits_int4}
use shopify_gmc.Billing.Dispatcher
use shopify_gmc.Billing.Replay.{redelivery_ignored}
use shopify_gmc.Billing.Webhook.{refuse, event_seen, receive_event, begin}
use shopify_gmc.Billing.Frame.{dispatch_frame}
use shopify_gmc.Billing.Outcomes.{IsApplied, tenant_of, dispatch_applies}
use shopify_gmc.Billing.Failures.{failed_event_lost, updated_without_plan_lost}

abbrev shop_env : String → String
shop_env k =
    if k == "GUMROAD_PRODUCT_STARTER"
    then "strt"
    else if k == "GUMROAD_PRODUCT_RESCUE"
    then "resc"
    else ""

-- A hash for the tests: the secret and then the body.
abbrev toy_hmac : List ℕ → List ℕ → List ℕ
toy_hmac [] body = body
toy_hmac (b ∷ bs) body = b ∷ toy_hmac bs body

-- The secret, and the signature in upper case.
abbrev secret : List ℕ
secret = 10 ∷ []

abbrev upper : List ℕ
upper = b'0' ∷ b'A' ∷ []

verify_signature_iff_example :
    (verify_signature toy_hmac secret [] upper ≡ true)
    ↔ ((secret ≢ []) × (upper ≢ []) × (hex_decode upper ≡ some secret))
verify_signature_iff_example = verify_signature_iff toy_hmac secret [] upper

abbrev shop : Catalog
shop = record {
  by_kind = [];
  by_gumroad_id =
      (
        "strt",
        record {
          kind = starter;
          gumroad_id = "strt";
          title = "Starter";
          plan_tier = "pro";
          is_recurring = true;
          price_cents = 1200;
          overlay_url = "";
        },
      )
      ∷ [];
}

abbrev free_tenant : Tenant
free_tenant = record {
  plan = "free";
  plan_renews_at = none;
  pending_plan = none;
  pending_plan_at = none;
  subscription_id = none;
}

abbrev two_tenants : Db
two_tenants = record {
  tenants = (1, free_tenant) ∷ (2, free_tenant) ∷ [];
  purchases = [];
  events = [];
}

abbrev event : String → String → ℕ → Event
event type product tenant = record {
  type = type;
  sale_id = "sale-1";
  product_id = product;
  license_key = "key-1";
  email = "";
  price_cents = pos 1200;
  currency = "usd";
  subscription_id = "sub-1";
  tenant_id = tenant;
  user_email = "";
  is_subscription = true;
  recurrence = "monthly";
  ends_at = none;
  refunded = false;
  refunded_at = none;
  purchased_at = 100;
}

abbrev a_month : ℕ → ℕ
a_month t = t + 2592000

abbrev no_mailer : Dispatcher.Mailer
no_mailer = record { present = false; operator_email = "" }

abbrev opened : Event → Tx
opened e = begin two_tenants 9 e

sale_subscribes :
    tenant_of 1
      (Dispatcher.dispatch a_month 100 no_mailer shop 9
        (event "sale" "strt" 1)
        (opened (event "sale" "strt" 1))).0
    ≡ some (record {
      plan = "pro";
      plan_renews_at = some 2592100;
      pending_plan = none;
      pending_plan_at = none;
      subscription_id = some "sub-1";
    })
unfolding Dispatcher.dispatch Dispatcher.apply_event Dispatcher.handle_sale
    Dispatcher.upsert_purchase Dispatcher.apply_sale Dispatcher.purchase_statement
    Dispatcher.finish_statement exec lookup insert modify lookup_by_gumroad_id fits_int4
sale_subscribes = refl

sale_applies :
    (Dispatcher.dispatch a_month 100 no_mailer shop 9
      (event "sale" "strt" 1)
      (opened (event "sale" "strt" 1))).1
    ≡ none
unfolding Dispatcher.dispatch Dispatcher.apply_event Dispatcher.handle_sale
    Dispatcher.upsert_purchase Dispatcher.apply_sale Dispatcher.purchase_statement
    Dispatcher.finish_statement exec lookup insert modify lookup_by_gumroad_id fits_int4
sale_applies = refl

dispatch_applies_example :
    IsApplied a_month 100
      (event "sale" "strt" 1)
      (lookup_by_gumroad_id shop "strt")
      (lookup {K = String} "sale-1" [])
      (tenant_of 1 (opened (event "sale" "strt" 1)))
      (tenant_of 1
        (Dispatcher.dispatch a_month 100 no_mailer shop 9
          (event "sale" "strt" 1)
          (opened (event "sale" "strt" 1))).0)
dispatch_applies_example =
    dispatch_applies a_month 100 no_mailer shop 9 (event "sale" "strt" 1)
      (opened (event "sale" "strt" 1)) (λ e. omega arith) sale_applies

dispatch_frame_example :
    lookup 2
      (Dispatcher.dispatch a_month 100 no_mailer shop 9
        (event "sale" "strt" 1)
        (opened (event "sale" "strt" 1))).0.db.tenants
    ≡ lookup {K = ℕ} 2 ((1, free_tenant) ∷ (2, free_tenant) ∷ [])
dispatch_frame_example =
    dispatch_frame a_month 100 no_mailer shop 9 (event "sale" "strt" 1)
      (opened (event "sale" "strt" 1)) 2 (λ e. omega arith)

no_tenant_fails :
    (Dispatcher.dispatch a_month 100 no_mailer shop 9
      (event "sale" "strt" 0)
      (opened (event "sale" "strt" 0))).1
    ≡ some missing_tenant
unfolding Dispatcher.dispatch
no_tenant_fails = refl

never_seen : (type : String) → event_seen type (some "sale-1") [] ≡ false
unfolding event_seen
never_seen type = refl

small :
    (type product : String) (tenant : ℕ) → fits_int4 (event type product tenant).price_cents ≡ true
unfolding fits_int4
small type product tenant = refl

-- A price that does not fit fails the sale, and leaves the transaction open.
large_price :
    let e = record (event "sale" "strt" 1) { price_cents = pos (2 ^ 31) } in
    Dispatcher.handle_sale a_month no_mailer e (lookup_by_gumroad_id shop "strt") (opened e)
    ≡ (opened e, false)
unfolding Dispatcher.handle_sale Dispatcher.upsert_purchase fits_int4
large_price = refl

failed_event_lost_example :
    let r = receive_event a_month 100 no_mailer shop 9 (event "sale" "strt" 0) two_tenants in
    (r.code ≡ 200)
    × (r.db.tenants ≡ two_tenants.tenants)
    × (r.db.purchases ≡ two_tenants.purchases)
    × ((missing_tenant ≡ missing_tenant) ⊎ (r.db ≡ two_tenants))
failed_event_lost_example =
    failed_event_lost a_month 100 no_mailer shop 9 (event "sale" "strt" 0) two_tenants
      missing_tenant (never_seen "sale") (small "sale" "strt" 0) no_tenant_fails

one_time : (lookup_by_gumroad_id shop "resc").plan_tier ≡ ""
unfolding lookup_by_gumroad_id lookup
one_time = refl

abbrev sale_1 : String
sale_1 = "sale-1"

named : sale_1 ≢ ""
named e = true_ne_false ((==_iff "sale-1" "").1 e)
  where
    true_ne_false : false ≡ true → ⊥
    true_ne_false h = cc

updated_without_plan_lost_example :
    receive_event a_month 100 no_mailer shop 9 (event "subscription_updated" "resc" 1) two_tenants
    ≡ record { db = two_tenants; code = 200; sent = [] }
updated_without_plan_lost_example =
    updated_without_plan_lost a_month 100 no_mailer shop 9 (event "subscription_updated" "resc" 1)
      two_tenants refl (λ e. omega arith) named (small "subscription_updated" "resc" 1) one_time
      (never_seen "subscription_updated")

sale_kept :
    (Dispatcher.dispatch a_month 100 no_mailer shop 9
      (event "sale" "strt" 1)
      (opened (event "sale" "strt" 1))).0.aborted
    ≡ false
unfolding Dispatcher.dispatch Dispatcher.apply_event Dispatcher.handle_sale
    Dispatcher.upsert_purchase Dispatcher.apply_sale Dispatcher.purchase_statement
    Dispatcher.finish_statement exec lookup insert modify lookup_by_gumroad_id fits_int4
sale_kept = refl

redelivery_ignored_example :
    let r = receive_event a_month 100 no_mailer shop 9 (event "sale" "strt" 1) two_tenants in
    receive_event a_month 700 no_mailer shop 10 (event "sale" "strt" 1) r.db ≡ refuse r.db 200
redelivery_ignored_example =
    redelivery_ignored a_month 100 700 no_mailer shop 9 10 (event "sale" "strt" 1) two_tenants named
      sale_kept
