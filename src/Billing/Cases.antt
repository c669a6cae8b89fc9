-- ===== src/Billing/Cases.antt =====
-- Which handler an event reaches, by its type (internal/billing/dispatcher.go).
use shopify_gmc.Base.{
  ℕ, ◌≡◌, ◌≢◌, refl, String, Bool, true, false, Option, none, some, ◌==◌, nat_eq, string_eq, ==_iff,
  if◌then◌else◌, arith,
}
use shopify_gmc.Billing.Event.{Event}
use shopify_gmc.Billing.Products.{Product, Catalog, lookup_by_gumroad_id}
use shopify_gmc.Billing.Database.{DispatchError, sql_failure, Tx, exec}
use shopify_gmc.Billing.Dispatcher

-- The tests of the `switch` at a type that is known.
type_tests :
    (s a : String)
    → s ≡ a
    → ((s == "sale") ≡ (a == "sale"))
      × ((s == "subscription_updated") ≡ (a == "subscription_updated"))
      × ((s == "subscription_cancelled") ≡ (a == "subscription_cancelled"))
      × ((s == "subscription_ended") ≡ (a == "subscription_ended"))
      × ((s == "refund") ≡ (a == "refund"))
type_tests s a e = rw e (refl, refl, refl, refl, refl)

module _ (add_month : ℕ → ℕ) (now : ℕ) (m : Dispatcher.Mailer) (e : Event) (prod : Product)
    (tx : Tx) where
  pub apply_sale_event :
      e.type ≡ "sale"
      → Dispatcher.apply_event add_month now m e prod tx
        ≡ Dispatcher.handle_sale add_month m e prod tx
  unfolding Dispatcher.apply_event
  apply_sale_event h = ground (arith, type_tests e.type "sale" h)

  pub apply_updated :
      e.type ≡ "subscription_updated"
      → Dispatcher.apply_event add_month now m e prod tx
        ≡ Dispatcher.handle_subscription_updated add_month e prod tx
  unfolding Dispatcher.apply_event
  apply_updated h = ground (arith, type_tests e.type "subscription_updated" h)

  pub apply_cancelled :
      e.type ≡ "subscription_cancelled"
      → Dispatcher.apply_event add_month now m e prod tx
        ≡ Dispatcher.handle_subscription_cancelled add_month now e tx
  unfolding Dispatcher.apply_event
  apply_cancelled h = ground (arith, type_tests e.type "subscription_cancelled" h)

  pub apply_ended :
      e.type ≡ "subscription_ended"
      → Dispatcher.apply_event add_month now m e prod tx ≡ Dispatcher.handle_subscription_ended e tx
  unfolding Dispatcher.apply_event
  apply_ended h = ground (arith, type_tests e.type "subscription_ended" h)

  pub apply_refund :
      e.type ≡ "refund"
      → Dispatcher.apply_event add_month now m e prod tx ≡ Dispatcher.handle_refund now e tx
  unfolding Dispatcher.apply_event
  apply_refund h = ground (arith, type_tests e.type "refund" h)

  -- A type that is none of these, "ping" among them.
  pub apply_other :
      e.type ≢ "sale"
      → e.type ≢ "subscription_updated"
      → e.type ≢ "subscription_cancelled"
      → e.type ≢ "subscription_ended"
      → e.type ≢ "refund"
      → Dispatcher.apply_event add_month now m e prod tx ≡ (tx, true)
  unfolding Dispatcher.apply_event
  apply_other a b c d f = ground (
    arith,
    ==_iff e.type "sale",
    ==_iff e.type "subscription_updated",
    ==_iff e.type "subscription_cancelled",
    ==_iff e.type "subscription_ended",
    ==_iff e.type "refund",
  )

-- The end of `Dispatch`, after the handler.
abbrev pub conclude : ℕ → ℕ → Event → Tx × Bool → Tx × Option DispatchError
conclude now row e (tx, false) = (Dispatcher.mark_err now row sql_failure tx, some sql_failure)
conclude now row e (tx, true) =
    let (finished, recorded) = exec (Dispatcher.finish_statement now row e) tx in
    (finished, if recorded then none else some sql_failure)

pub dispatch-conclude :
    (add_month : ℕ → ℕ) (now : ℕ) (m : Dispatcher.Mailer) (c : Catalog) (row : ℕ) (e : Event)
    (tx : Tx)
    → e.tenant_id ≢ 0
    → Dispatcher.dispatch add_month now m c row e tx
      ≡ conclude now row e
          (Dispatcher.apply_event add_month now m e (lookup_by_gumroad_id c e.product_id) tx)
unfolding Dispatcher.dispatch
dispatch-conclude add_month now m c row e tx tenant =
    concludes (Dispatcher.apply_event add_month now m e (lookup_by_gumroad_id c e.product_id) tx)
      refl
  where
    concludes :
        (r : Tx × Bool)
        → Dispatcher.apply_event add_month now m e (lookup_by_gumroad_id c e.product_id) tx ≡ r
        → Dispatcher.dispatch add_month now m c row e tx ≡ conclude now row e r
    concludes (t, false) h = ground (arith, ==_iff e.tenant_id 0)
    concludes (t, true) h = ground (arith, ==_iff e.tenant_id 0)
