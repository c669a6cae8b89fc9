-- ===== src/Alerts/Tests.antt =====
-- The alerts of a failed audit, and the theorems of the alerts at it.
use shopify_gmc.Base.{
  ◌≡◌, refl, true, false, not, none, some, [], ◌∷◌, ◌++◌, All, string_eq, nat_eq, ◌==◌,
  if◌then◌else◌, select, arith,
}
use shopify_gmc.Tokens.{
  Hmac, Json, Uuids, UnsubPayload, Unsubscription, unsub_payload, sign_unsubscribe,
}
use shopify_gmc.Alerts.Unsubscribe.{
  is_of, is_alert_of, is_mail_of, unsubscribe_page, unsubscribe_page_stops,
}
use shopify_gmc.Base.Int.{pos}
use shopify_gmc.Alerts.{
  AuditResult, Subscription, Alert, AlertState, dispatch_alerts, fired, load_subscriptions,
  alert_all, alert_triggers, alert_one, subscribes_to, send_alert,
}
use shopify_gmc.Alerts.Laws.{is_wanted, dispatch_alerts_wanted, send_alert_again}

abbrev failed_audit : AuditResult
failed_audit = record { audit_id = 3; tenant_id = 1; store_id = 2; status = "failed" }

abbrev subscription : Subscription
subscription = record {
  id = 8;
  tenant_id = 1;
  store_id = none;
  enabled = true;
  channel = "email";
  user_id = 5;
  user_email = "user@shop.example";
  target = "";
  on_new_critical = true;
  on_score_drop = true;
  on_audit_failed = true;
  on_gmc_change = false;
  score_drop_threshold = pos 5;
}

abbrev nothing_sent : AlertState
nothing_sent = record { rows = []; mails = [] }

failed_audit_alerts :
    (dispatch_alerts 100 failed_audit none (subscription ∷ []) nothing_sent).mails
    ≡ record {
      to = "user@shop.example";
      trigger = "audit_failed";
      subscription_id = 8;
      user_id = 5;
    }
      ∷ []
unfolding dispatch_alerts fired load_subscriptions alert_all alert_triggers alert_one subscribes_to
    send_alert
failed_audit_alerts = refl

dispatch_alerts_wanted_example :
    All
      (λ a. is_wanted failed_audit (subscription ∷ []) a ≡ true)
      (dispatch_alerts 100 failed_audit none (subscription ∷ []) nothing_sent).mails
dispatch_alerts_wanted_example =
    dispatch_alerts_wanted 100 failed_audit none (subscription ∷ []) nothing_sent tt

abbrev mail : Alert
mail = record { to = ""; trigger = "audit_failed"; subscription_id = 8; user_id = 5 }

send_alert_again_example :
    let once = send_alert 100 failed_audit subscription "audit_failed" nothing_sent in
    let twice = send_alert 160 failed_audit subscription "audit_failed" once in
    (twice.rows ≡ once.rows) × (twice.mails ≡ [] ++ mail ∷ mail ∷ [])
send_alert_again_example =
    send_alert_again 100 160 failed_audit subscription "audit_failed" nothing_sent

-- The link to unsubscribe of the subscription above, with JSON and identifiers for it alone.
abbrev toy_hmac : Hmac
toy_hmac [] body = body
toy_hmac (b ∷ secret) body = b ∷ toy_hmac secret body

abbrev unsubscription : Unsubscription
unsubscription = record { subscription_id = 8; user_id = 5; trigger = "audit_failed" }

abbrev uuids : Uuids
uuids = record {
  print = λ n. if n == 8 then "eight" else "five";
  parse = λ s. if s == "eight" then some 8 else some 5;
}

abbrev unsub_json : Json UnsubPayload
unsub_json = record {
  marshal = λ p. 200 ∷ [];
  unmarshal = λ bytes. some (unsub_payload uuids unsubscription);
}

unsubscribe_page_stops_example :
    let reply =
      unsubscribe_page toy_hmac unsub_json uuids
        (9 ∷ [])
        (sign_unsubscribe toy_hmac unsub_json uuids (9 ∷ []) unsubscription)
        (subscription ∷ []) in
    (reply.code ≡ 200)
    × (select (λ s. not (is_of unsubscription s)) reply.table
        ≡ select (λ s. not (is_of unsubscription s)) (subscription ∷ []))
    × (select
          (is_mail_of unsubscription)
          (dispatch_alerts 100 failed_audit none reply.table nothing_sent).mails
        ≡ select (is_mail_of unsubscription) [])
    × (select
          (is_alert_of unsubscription)
          (dispatch_alerts 100 failed_audit none reply.table nothing_sent).rows
        ≡ select (is_alert_of unsubscription) [])
unsubscribe_page_stops_example =
    unsubscribe_page_stops toy_hmac unsub_json uuids (9 ∷ []) unsubscription (subscription ∷ []) 100
      failed_audit none nothing_sent (omega arith, tt) refl refl refl refl
