-- ===== src/Billing/Webhook.antt =====
-- The webhook handler `GumroadWebhook`, internal/web/handlers_billing.go. The database is reached and
-- answers: its own errors (500) are left out, but for those of the statements' constraints.
use shopify_gmc.Base.{
  ℕ, String, Bool, true, false, not, Option, none, some, List, [], ◌==◌, nat_eq, string_eq,
  if◌then◌else◌, any, ◌&&◌,
}
use shopify_gmc.Base.Table.{Table, insert}
use shopify_gmc.Billing.Event.{Event, Parsers, parse_form}
use shopify_gmc.Billing.Products.{Catalog}
use shopify_gmc.Billing.Database.{EventRow, Db, Mail, Tx, DispatchError, null_if_empty}
use shopify_gmc.Billing.Dispatcher.{Mailer, dispatch}
use shopify_gmc.Billing.Signature.{verify_signature}

-- Is there a row for the type and the sale: the conflict of the partial unique index.
unfoldable pub event_seen : String → Option String → Table ℕ EventRow → Bool
event_seen type none rows = false
event_seen type (some sale) rows =
    any (λ r. r.1.event_type == type && elim r.1.sale_id [ none ↦ false | some s ↦ s == sale ]) rows

abbrev pub new_event_row : Event → EventRow
new_event_row e = record {
  event_type = e.type;
  sale_id = null_if_empty e.sale_id;
  tenant_id = none;
  product_id = none;
  processed_at = none;
  error_message = none;
  signature_ok = true;
}

-- The tables after the commit of a transaction that began with `db`.
abbrev pub commit : Db → Tx → Db
commit db tx = if tx.aborted then db else tx.db

pub record Reply : Type 0 where
  pub db : Db
  pub code : ℕ
  pub sent : List Mail

abbrev pub refuse : Db → ℕ → Reply
refuse db code = record { db = db; code = code; sent = [] }

-- `row` is the identifier that the database draws for the event row.
abbrev pub begin : Db → ℕ → Event → Tx
begin db row e = record {
  db = record db { events = insert row (new_event_row e) db.events };
  aborted = false;
  sent = [];
}

-- The reply to a dispatched event: 200 also where the dispatch failed.
abbrev pub answer : Db → Tx × Option DispatchError → Reply
answer db (tx, some error) = record { db = commit db tx; code = 200; sent = tx.sent }
answer db (tx, none) = record {
  db = commit db tx;
  code = if tx.aborted then 500 else 200;
  sent = tx.sent;
}

module _ (add_month : ℕ → ℕ) (now : ℕ) (m : Mailer) (c : Catalog) (row : ℕ) where
  unfoldable pub receive_event : Event → Db → Reply
  receive_event e db =
      if event_seen e.type (null_if_empty e.sale_id) db.events
      then refuse db 200
      else answer db (dispatch add_month now m c row e (begin db row e))

  -- `body` is `none` where it is too large, `parse_query` is `url.ParseQuery`.
  unfoldable pub gumroad_webhook :
      (List ℕ → List ℕ → List ℕ)
      → Parsers
      → (List ℕ → Option (String → String))
      → List ℕ
      → Option (List ℕ)
      → List ℕ
      → Db
      → Reply
  gumroad_webhook hmac parsers parse_query secret none signature db = refuse db 400
  gumroad_webhook hmac parsers parse_query secret (some body) signature db =
      if not (verify_signature hmac secret body signature)
      then refuse db 401
      else elim (parse_query body) [
        | none ↦ refuse db 400
        | some form ↦ receive_event (parse_form parsers now form) db
      ]
