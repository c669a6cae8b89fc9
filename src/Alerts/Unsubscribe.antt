-- ===== src/Alerts/Unsubscribe.antt =====
-- The link of an alert that unsubscribes: `ApplyUnsubscribe` of internal/monitoring/dispatcher.go and
-- the page of internal/web/handlers_alerts.go. The database answers.
use shopify_gmc.Base.{
  ℕ, ◌≡◌, ◌⊎◌, inl, inr, refl, ap, ◌∙◌, String, Bool, true, false, not, Option, none, some, List,
  [], ◌∷◌, ◌++◌, ◌==◌, nat_eq, string_eq, ==_iff, if◌then◌else◌, All, select, select-append, arith,
  Bool-cases, ◌&&◌, ◌||◌,
}
use mathlib.Core.List.{append-nil}
use shopify_gmc.Base.Bytes.{AreBytes}
use shopify_gmc.Differ.{Diff}
use shopify_gmc.Tokens.{
  Hmac, TokenError, Json, Uuids, UnsubPayload, Unsubscription, unsub_payload, sign_unsubscribe,
  verify_unsubscribe, seal,
}
use shopify_gmc.Base.Base64
use shopify_gmc.Tokens.Laws.{verify_unsubscribe-sign_unsubscribe}
use shopify_gmc.Alerts.{
  AuditResult, Subscription, DispatchRow, AlertState, fired, subscribes_to, load_subscriptions,
  is_for, send_alert, Alert, alert_mail, dispatch_row, alert_one, alert_triggers, alert_all,
  dispatch_alerts,
}

abbrev pub is_of : Unsubscription → Subscription → Bool
is_of u s = s.id == u.subscription_id && s.user_id == u.user_id

-- The column of the trigger is cleared; no other trigger has one.
unfoldable pub clear_flag : String → Subscription → Option Subscription
clear_flag trigger s =
    if trigger == "new_critical"
    then some (record s { on_new_critical = false })
    else if trigger == "score_drop"
    then some (record s { on_score_drop = false })
    else if trigger == "audit_failed"
    then some (record s { on_audit_failed = false })
    else if trigger == "gmc_account_change"
    then some (record s { on_gmc_change = false })
    else none

abbrev pub has_column : String → Bool
has_column trigger =
    trigger == "new_critical"
    || trigger == "score_drop"
    || trigger == "audit_failed"
    || trigger == "gmc_account_change"

abbrev cleared : String → Subscription → Subscription
cleared trigger s = elim (clear_flag trigger s) [ none ↦ s | some t ↦ t ]

unfoldable pub update_rows : Unsubscription → List Subscription → List Subscription
update_rows u [] = []
update_rows u (s ∷ table) = (if is_of u s then cleared u.trigger s else s) ∷ update_rows u table

unfoldable pub apply_unsubscribe : Unsubscription → List Subscription → Option (List Subscription)
apply_unsubscribe u table = if has_column u.trigger then some (update_rows u table) else none

abbrev is_empty : List ℕ → Bool
is_empty [] = true
is_empty (c ∷ token) = false

is_empty-middle : (xs : List ℕ) (y : ℕ) (ys : List ℕ) → is_empty (xs ++ y ∷ ys) ≡ false
is_empty-middle [] y ys = refl
is_empty-middle (x ∷ xs) y ys = refl

pub record PageReply : Type 0 where
  pub code : ℕ
  pub table : List Subscription

abbrev answer_update : Option (List Subscription) → List Subscription → PageReply
answer_update none table = record { code = 400; table = table }
answer_update (some updated) table = record { code = 200; table = updated }

abbrev answer_token : TokenError ⊎ Unsubscription → List Subscription → PageReply
answer_token (inl error) table = record { code = 400; table = table }
answer_token (inr u) table = answer_update (apply_unsubscribe u table) table

unfoldable pub unsubscribe_page :
    Hmac → Json UnsubPayload → Uuids → List ℕ → List ℕ → List Subscription → PageReply
unsubscribe_page hmac json uuids secret token table =
    if is_empty token
    then record { code = 404; table = table }
    else answer_token (verify_unsubscribe hmac json uuids secret token) table

-- Gets the subscription no alert of the trigger.
abbrev Silent : Unsubscription → Subscription → Type 0
Silent u s = (is_of u s && subscribes_to s u.trigger) ≡ false

cleared-Silent :
    (u : Unsubscription) (s : Subscription)
    → has_column u.trigger ≡ true
    → is_of u s ≡ true
    → Silent u (cleared u.trigger s)
unfolding clear_flag subscribes_to
cleared-Silent u s column its = ground (
  arith,
  ==_iff u.trigger "new_critical",
  ==_iff u.trigger "score_drop",
  ==_iff u.trigger "audit_failed",
  ==_iff u.trigger "gmc_account_change",
)

update_rows-Silent :
    (u : Unsubscription) (table : List Subscription)
    → has_column u.trigger ≡ true
    → All (Silent u) (update_rows u table)
unfolding update_rows
update_rows-Silent u [] column = tt
update_rows-Silent u (s ∷ table) column = elim (Bool-cases (is_of u s)) [
  | inl its ↦
      rw (update_rows, its) (cleared-Silent u s column its, update_rows-Silent u table column)
  | inr other ↦ rw (update_rows, other) (rw other refl, update_rows-Silent u table column)
]

update_rows-others :
    (u : Unsubscription) (table : List Subscription)
    → select (λ s. not (is_of u s)) (update_rows u table) ≡ select (λ s. not (is_of u s)) table
unfolding update_rows clear_flag
update_rows-others u [] = refl
update_rows-others u (s ∷ table) = ground (arith, update_rows-others u table)

load-Silent :
    (u : Unsubscription) (tenant store : ℕ) (table : List Subscription)
    → All (Silent u) table
    → All (Silent u) (load_subscriptions tenant store table)
unfolding load_subscriptions subscribes_to
load-Silent u tenant store [] h = tt
load-Silent u tenant store (s ∷ table) h = elim (Bool-cases (is_for tenant store s)) [
  | inl its ↦ rw (load_subscriptions, its) (h.0, load-Silent u tenant store table h.1)
  | inr other ↦ rw (load_subscriptions, other) (load-Silent u tenant store table h.1)
]

-- Is a row of the log an alert of the subscription for the trigger.
abbrev pub is_alert_of : Unsubscription → DispatchRow → Bool
is_alert_of u r =
    r.subscription_id == u.subscription_id && r.user_id == u.user_id && r.trigger == u.trigger

-- Is a mail one that a link for the same subscription and trigger stands in.
abbrev pub is_mail_of : Unsubscription → Alert → Bool
is_mail_of u a =
    a.subscription_id == u.subscription_id && a.user_id == u.user_id && a.trigger == u.trigger

module _ (u : Unsubscription) (now : ℕ) (res : AuditResult) (diff : Option Diff) where
  -- The alerts of the subscription for the trigger, mailed and logged, are those of before.
  abbrev IsQuiet : AlertState → AlertState → Type 0
  IsQuiet before after =
      (select (is_mail_of u) after.mails ≡ select (is_mail_of u) before.mails)
      × (select (is_alert_of u) after.rows ≡ select (is_alert_of u) before.rows)

  alert_one-IsQuiet :
      (s : Subscription) (t : String) (st : AlertState)
      → Silent u s
      → IsQuiet st (alert_one now res diff s t st)
  unfolding alert_one send_alert
  alert_one-IsQuiet s t st silent = ground (
    arith,
    select-append (is_mail_of u) st.mails (alert_mail s t ∷ []),
    select-append (is_alert_of u) st.rows (dispatch_row now res s t ∷ []),
    append-nil (select (is_mail_of u) st.mails),
    append-nil (select (is_alert_of u) st.rows),
    ==_iff t u.trigger,
  )

  alert_triggers-IsQuiet :
      (s : Subscription) (ts : List String) (st : AlertState)
      → Silent u s
      → IsQuiet st (alert_triggers now res diff s ts st)
  unfolding alert_triggers
  alert_triggers-IsQuiet s [] st silent = (refl, refl)
  alert_triggers-IsQuiet s (t ∷ ts) st silent =
      let one = alert_one-IsQuiet s t st silent in
      let rest = alert_triggers-IsQuiet s ts (alert_one now res diff s t st) silent in
      (rest.0 ∙ one.0, rest.1 ∙ one.1)

  alert_all-IsQuiet :
      (ts : List String) (ss : List Subscription) (st : AlertState)
      → All (Silent u) ss
      → IsQuiet st (alert_all now res diff ts ss st)
  unfolding alert_all
  alert_all-IsQuiet ts [] st silent = (refl, refl)
  alert_all-IsQuiet ts (s ∷ ss) st silent =
      let one = alert_triggers-IsQuiet s ts st silent.0 in
      let rest = alert_all-IsQuiet ts ss (alert_triggers now res diff s ts st) silent.1 in
      (rest.0 ∙ one.0, rest.1 ∙ one.1)

-- The link of an alert works: the page answers 200 to the token that was signed for a subscription
-- and a known trigger, leaves every other subscription as it is, and with that table no audit sends
-- the subscription an alert of the trigger: the mails and the rows of the log that are for it and the
-- trigger are, one by one, those of before.
pub unsubscribe_page_stops :
    (hmac : Hmac) (json : Json UnsubPayload) (uuids : Uuids) (secret : List ℕ) (u : Unsubscription)
    (table : List Subscription) (now : ℕ) (res : AuditResult) (diff : Option Diff) (st : AlertState)
    → AreBytes (json.marshal (unsub_payload uuids u))
    → json.unmarshal (json.marshal (unsub_payload uuids u)) ≡ some (unsub_payload uuids u)
    → uuids.parse (uuids.print u.subscription_id) ≡ some u.subscription_id
    → uuids.parse (uuids.print u.user_id) ≡ some u.user_id
    → has_column u.trigger ≡ true
    → let reply =
        unsubscribe_page hmac json uuids secret (sign_unsubscribe hmac json uuids secret u) table in
      (reply.code ≡ 200)
      × (select (λ s. not (is_of u s)) reply.table ≡ select (λ s. not (is_of u s)) table)
      × (select (is_mail_of u) (dispatch_alerts now res diff reply.table st).mails
          ≡ select (is_mail_of u) st.mails)
      × (select (is_alert_of u) (dispatch_alerts now res diff reply.table st).rows
          ≡ select (is_alert_of u) st.rows)
unsubscribe_page_stops hmac json uuids secret u table now res diff st bytes back sub user column =
    rw reply_updates (refl, update_rows-others u table, quiet.0, quiet.1)
  where
    quiet : IsQuiet u now res diff st (dispatch_alerts now res diff (update_rows u table) st)
    quiet =
        unfold dispatch_alerts in
        alert_all-IsQuiet u now res diff (fired res diff)
          (load_subscriptions res.tenant_id res.store_id (update_rows u table)) st
          (load-Silent u res.tenant_id res.store_id (update_rows u table)
            (update_rows-Silent u table column))

    token_not_empty : is_empty (sign_unsubscribe hmac json uuids secret u) ≡ false
    token_not_empty = unfold sign_unsubscribe seal in is_empty-middle (Base64.encode _) _ _

    reply_updates :
        unsubscribe_page hmac json uuids secret (sign_unsubscribe hmac json uuids secret u) table
        ≡ record { code = 200; table = update_rows u table }
    reply_updates =
        unfold unsubscribe_page in
        (rw token_not_empty refl)
        ∙ ap (λ r. answer_token r table)
            (verify_unsubscribe-sign_unsubscribe hmac json uuids secret u bytes back sub user)
        ∙ unfold apply_unsubscribe in rw column refl
