-- ===== src/Billing/Replay.antt =====
-- Deliveries of one event again (internal/web/handlers_billing.go): Gumroad retries webhooks.
use shopify_gmc.Base.{
  ℕ, ◌≡◌, ◌≢◌, refl, ◌∙◌, Bool, true, false, Option, none, some, [], ◌∷◌, ◌==◌, nat_eq, string_eq,
  ==_iff, ==_refl, Option-cases, any, arith, ◌&&◌, Bool-cases, inl, inr,
}
use shopify_gmc.Base.Table.{Table, insert, modify}
use shopify_gmc.Billing.Event.{Event}
use shopify_gmc.Billing.Products.{Catalog, lookup_by_gumroad_id}
use shopify_gmc.Billing.Database.{
  EventRow, Db, Tx, DispatchError, missing_tenant, sql_failure, exec, null_if_empty, nullable,
}
use shopify_gmc.Billing.Dispatcher
use shopify_gmc.Billing.Frame.{apply_event-view}
use shopify_gmc.Billing.Failures.{receive_event-new, notify_operator-db}
use shopify_gmc.Billing.Webhook.{
  event_seen, receive_event, begin, commit, answer, refuse, new_event_row,
}

module _ {ℓ} {V : Type ℓ} (p : V → Bool) where
  any-insert : (k : ℕ) (v : V) (m : Table ℕ V) → p v ≡ true → any (λ r. p r.1) (insert k v m) ≡ true
  unfolding insert
  any-insert k v [] h = ground arith
  any-insert k v ((j, w) ∷ m) h = ground (arith, any-insert k v m h)

  any-modify :
      (k : ℕ) (f : V → V) (m : Table ℕ V)
      → ((v : V) → p v ≡ true → p (f v) ≡ true)
      → any (λ r. p r.1) m ≡ true
      → any (λ r. p r.1) (modify k f m) ≡ true
  unfolding modify
  any-modify k f [] keep h = cc
  any-modify k f ((j, w) ∷ m) keep h = ground (arith, keep w, any-modify k f m keep)

-- Is a row for the event.
abbrev is_row : Event → EventRow → Bool
is_row e r = r.event_type == e.type && elim r.sale_id [ none ↦ false | some s ↦ s == e.sale_id ]

module _ (e : Event) (sale : e.sale_id ≢ "") where
  seen-any :
      (rows : Table ℕ EventRow)
      → event_seen e.type (null_if_empty e.sale_id) rows ≡ any (λ r. is_row e r.1) rows
  unfolding event_seen
  seen-any rows = ground (arith, ==_iff e.sale_id "")

  begun : (db : Db) (row : ℕ) → any (λ r. is_row e r.1) (begin db row e).db.events ≡ true
  begun db row =
      any-insert (is_row e) row (new_event_row e) db.events
        (ground (arith, ==_iff e.sale_id "", ==_refl e.type, ==_refl e.sale_id))

  -- The statements on the event row keep it a row for the event.
  exec-keeps :
      (f : Db → Option Db) (tx : Tx)
      → ((db : Db) → f tx.db ≡ some db → any (λ r. is_row e r.1) db.events ≡ true)
      → any (λ r. is_row e r.1) tx.db.events ≡ true
      → any (λ r. is_row e r.1) (exec f tx).0.db.events ≡ true
  exec-keeps f tx keep h = elim (Option-cases (f tx.db)) [
    | inl fails ↦ failing fails
    | inr (db, runs) ↦ running db runs (keep db runs)
  ]
    where
      failing : f tx.db ≡ none → any (λ r. is_row e r.1) (exec f tx).0.db.events ≡ true
      failing fails = unfold exec in ground arith

      running :
          (db : Db)
          → f tx.db ≡ some db
          → any (λ r. is_row e r.1) db.events ≡ true
          → any (λ r. is_row e r.1) (exec f tx).0.db.events ≡ true
      running db runs k = unfold exec in ground arith

  some_events :
      (a b : Db)
      → some a ≡ some b
      → any (λ r. is_row e r.1) a.events ≡ true
      → any (λ r. is_row e r.1) b.events ≡ true
  some_events a b eq h = cc

  mark_err-keeps :
      (now row : ℕ) (err : DispatchError) (tx : Tx)
      → any (λ r. is_row e r.1) tx.db.events ≡ true
      → any (λ r. is_row e r.1) (Dispatcher.mark_err now row err tx).db.events ≡ true
  unfolding Dispatcher.mark_err
  mark_err-keeps now row err tx h =
      exec-keeps _ tx
        (λ db runs. some_events _ db runs (
          any-modify (is_row e) row
            (λ r. record r { error_message = some err; processed_at = some now }) tx.db.events
            (λ r k. k) h))
        h

  finished_row : ℕ → EventRow → EventRow
  finished_row now r = record r {
    processed_at = some now;
    tenant_id = nullable e.tenant_id;
    product_id = null_if_empty e.product_id;
    sale_id = null_if_empty e.sale_id;
    signature_ok = true;
  }

  finished_row-is_row :
      (now : ℕ) (r : EventRow) → is_row e r ≡ true → is_row e (finished_row now r) ≡ true
  unfolding finished_row
  finished_row-is_row now r k = ground (arith, ==_iff e.sale_id "", ==_refl e.sale_id)

  finish-keeps :
      (now row : ℕ) (tx : Tx)
      → any (λ r. is_row e r.1) tx.db.events ≡ true
      → any (λ r. is_row e r.1) (exec (Dispatcher.finish_statement now row e) tx).0.db.events ≡ true
  unfolding Dispatcher.finish_statement finished_row
  finish-keeps now row tx h =
      let kept =
        any-modify (is_row e) row (finished_row now) tx.db.events (finished_row-is_row now) h in
      exec-keeps (Dispatcher.finish_statement now row e) tx (λ db runs. ground (arith, kept)) h

  dispatch-keeps :
      (add_month : ℕ → ℕ) (now : ℕ) (m : Dispatcher.Mailer) (c : Catalog) (row : ℕ) (tx : Tx)
      → any (λ r. is_row e r.1) tx.db.events ≡ true
      → any (λ r. is_row e r.1) (Dispatcher.dispatch add_month now m c row e tx).0.db.events ≡ true
  unfolding Dispatcher.dispatch
  dispatch-keeps add_month now m c row tx h =
      let prod = lookup_by_gumroad_id c e.product_id in
      let applied = (Dispatcher.apply_event add_month now m e prod tx).0 in
      let told = Dispatcher.notify_operator m "Gumroad sale without tenant_id" tx in
      let same =
        apply_event-view (λ db. db.events) add_month now m e
          (record { off_tenant = λ f db. refl; off_purchases = λ ps db. refl }) prod tx in
      ground (
        arith,
        same,
        notify_operator-db m "Gumroad sale without tenant_id" tx,
        mark_err-keeps now row sql_failure applied,
        mark_err-keeps now row missing_tenant told,
        finish-keeps now row applied,
      )

receive_event-seen :
    (add_month : ℕ → ℕ) (now : ℕ) (m : Dispatcher.Mailer) (c : Catalog) (row : ℕ) (e : Event)
    (db : Db)
    → event_seen e.type (null_if_empty e.sale_id) db.events ≡ true
    → receive_event add_month now m c row e db ≡ refuse db 200
unfolding receive_event
receive_event-seen add_month now m c row e db h = rw h refl

answer-db : (db : Db) (d : Tx × Option DispatchError) → (answer db d).db ≡ commit db d.0
answer-db db (tx, some err) = refl
answer-db db (tx, none) = refl

-- An event with a sale id that is delivered again changes nothing, whatever became of it at the first
-- delivery, as long as no statement aborted the transaction then: the second reply is 200, with the
-- tables as the first left them and no mail, at any later time.
pub redelivery_ignored :
    (add_month : ℕ → ℕ) (now later : ℕ) (m : Dispatcher.Mailer) (c : Catalog) (row next_row : ℕ)
    (e : Event) (db : Db)
    → e.sale_id ≢ ""
    → (Dispatcher.dispatch add_month now m c row e (begin db row e)).0.aborted ≡ false
    → let r = receive_event add_month now m c row e db in
      receive_event add_month later m c next_row e r.db ≡ refuse r.db 200
redelivery_ignored add_month now later m c row next_row e db sale kept =
    receive_event-seen add_month later m c next_row e (receive_event add_month now m c row e db).db
      (elim (Bool-cases (event_seen e.type (null_if_empty e.sale_id) db.events)) [
        | inl old ↦ rw (receive_event-seen add_month now m c row e db old) old
        | inr new ↦
            rw
              (
                receive_event-new add_month now m c row e db new,
                answer-db db (Dispatcher.dispatch add_month now m c row e (begin db row e)),
                kept,
              )
              (seen-any e sale
                  (Dispatcher.dispatch add_month now m c row e (begin db row e)).0.db.events
                ∙ dispatch-keeps e sale add_month now m c row (begin db row e)
                    (begun e sale db row))
      ])
