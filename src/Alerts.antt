-- ===== src/Alerts.antt =====
-- The alerts after an audit, internal/monitoring/dispatcher.go, on the tables
-- store_alert_subscriptions and alert_dispatches. A time is a number of seconds. The mailer and the
-- database answer; of a mail the address, the trigger and the link to unsubscribe are kept.
pub mod Laws
pub mod Unsubscribe
mod Tests
use shopify_gmc.Base.{
  ℕ, ◌+◌, String, Bool, true, false, not, Option, none, some, List, [], ◌∷◌, ◌++◌, ◌==◌, string_eq,
  nat_eq, if◌then◌else◌, is_some, any, ltb, ◌&&◌, ◌||◌,
}
use shopify_gmc.Base.Int.{ℤ, pos, negsuc, neg_ℤ, ltb_ℤ}
use shopify_gmc.Differ.{Diff}

pub record AuditResult : Type 0 where
  pub audit_id : ℕ
  pub tenant_id : ℕ
  pub store_id : ℕ
  pub status : String

-- A row of store_alert_subscriptions with its user's address.
pub record Subscription : Type 0 where
  pub id : ℕ
  pub tenant_id : ℕ
  pub store_id : Option ℕ
  pub enabled : Bool
  pub channel : String
  pub user_id : ℕ
  pub user_email : String
  pub target : String
  pub on_new_critical : Bool
  pub on_score_drop : Bool
  pub on_audit_failed : Bool
  pub on_gmc_change : Bool
  pub score_drop_threshold : ℤ

-- A row of alert_dispatches.
pub record DispatchRow : Type 0 where
  pub tenant_id : ℕ
  pub user_id : ℕ
  pub store_id : ℕ
  pub audit_id : ℕ
  pub subscription_id : ℕ
  pub trigger : String
  pub target : String
  pub sent_at : ℕ

-- A mail, with what its link to unsubscribe is signed for: the subscription, its user and the trigger.
pub record Alert : Type 0 where
  pub to : String
  pub trigger : String
  pub subscription_id : ℕ
  pub user_id : ℕ

pub record AlertState : Type 0 where
  pub rows : List DispatchRow
  pub mails : List Alert

abbrev pub always_send : String → Bool
always_send trigger = trigger == "new_critical" || trigger == "audit_failed"

abbrev diff_triggers : Option Diff → List String
diff_triggers none = []
diff_triggers (some diff) =
    (if ltb 0 diff.new_critical_count then "new_critical" ∷ [] else [])
    ++ (if is_some diff.prev_score && ltb_ℤ diff.score_delta (pos 0) then "score_drop" ∷ [] else [])

unfoldable pub fired : AuditResult → Option Diff → List String
fired res diff = if res.status == "failed" then "audit_failed" ∷ [] else diff_triggers diff

unfoldable pub subscribes_to : Subscription → String → Bool
subscribes_to s trigger =
    if trigger == "new_critical"
    then s.on_new_critical
    else if trigger == "score_drop"
    then s.on_score_drop
    else if trigger == "audit_failed"
    then s.on_audit_failed
    else if trigger == "gmc_account_change"
    then s.on_gmc_change
    else false

abbrev pub is_for : ℕ → ℕ → Subscription → Bool
is_for tenant store s =
    s.tenant_id == tenant
    && elim s.store_id [ none ↦ true | some t ↦ t == store ]
    && s.enabled
    && s.channel == "email"

abbrev pub with_target : Subscription → Subscription
with_target s = record s { target = if s.target == "" then s.user_email else s.target }

unfoldable pub load_subscriptions : ℕ → ℕ → List Subscription → List Subscription
load_subscriptions tenant store [] = []
load_subscriptions tenant store (s ∷ ss) =
    let rest = load_subscriptions tenant store ss in
    if is_for tenant store s then with_target s ∷ rest else rest

unfoldable pub recently_alerted : ℕ → ℕ → ℕ → List DispatchRow → Bool
recently_alerted now user store rows =
    any
      (λ r.
        r.user_id == user
        && r.store_id == store
        && not (always_send r.trigger)
        && ltb now (r.sent_at + 86400))
      rows

-- The conflict on (audit_id, user_id, trigger).
abbrev pub is_dispatched : AuditResult → Subscription → String → List DispatchRow → Bool
is_dispatched res s trigger rows =
    any (λ r. r.audit_id == res.audit_id && r.user_id == s.user_id && r.trigger == trigger) rows

abbrev pub dispatch_row : ℕ → AuditResult → Subscription → String → DispatchRow
dispatch_row now res s trigger = record {
  tenant_id = res.tenant_id;
  user_id = s.user_id;
  store_id = res.store_id;
  audit_id = res.audit_id;
  subscription_id = s.id;
  trigger = trigger;
  target = s.target;
  sent_at = now;
}

abbrev pub alert_mail : Subscription → String → Alert
alert_mail s trigger = record {
  to = s.target;
  trigger = trigger;
  subscription_id = s.id;
  user_id = s.user_id;
}

-- The row is inserted unless it conflicts, and then the mail is sent.
unfoldable pub send_alert : ℕ → AuditResult → Subscription → String → AlertState → AlertState
send_alert now res s trigger st = record {
  rows =
      if is_dispatched res s trigger st.rows
      then st.rows
      else st.rows ++ dispatch_row now res s trigger ∷ [];
  mails = st.mails ++ alert_mail s trigger ∷ [];
}

-- Is the drop too small for the subscription.
abbrev pub drop_too_small : Option Diff → Subscription → Bool
drop_too_small none s = false
drop_too_small (some diff) s = ltb_ℤ (neg_ℤ s.score_drop_threshold) diff.score_delta

-- One round of the inner loop.
unfoldable pub alert_one :
    ℕ → AuditResult → Option Diff → Subscription → String → AlertState → AlertState
alert_one now res diff s trigger st =
    if not (subscribes_to s trigger)
    then st
    else if not (always_send trigger) && recently_alerted now s.user_id res.store_id st.rows
    then st
    else if trigger == "score_drop" && drop_too_small diff s
    then st
    else send_alert now res s trigger st

unfoldable pub alert_triggers :
    ℕ → AuditResult → Option Diff → Subscription → List String → AlertState → AlertState
alert_triggers now res diff s [] st = st
alert_triggers now res diff s (t ∷ ts) st =
    alert_triggers now res diff s ts (alert_one now res diff s t st)

unfoldable pub alert_all :
    ℕ → AuditResult → Option Diff → List String → List Subscription → AlertState → AlertState
alert_all now res diff triggers [] st = st
alert_all now res diff triggers (s ∷ ss) st =
    alert_all now res diff triggers ss (alert_triggers now res diff s triggers st)

-- `Dispatch`.
unfoldable pub dispatch_alerts :
    ℕ → AuditResult → Option Diff → List Subscription → AlertState → AlertState
dispatch_alerts now res diff table st =
    alert_all now res diff (fired res diff) (load_subscriptions res.tenant_id res.store_id table) st
