-- ===== src/Alerts/Laws.antt =====
-- Who gets an alert (internal/monitoring/dispatcher.go).
use shopify_gmc.Base.{
  ℕ, ◌≡◌, ◌⊎◌, inl, inr, refl, String, Bool, true, Option, List, [], ◌∷◌, ◌++◌, ◌==◌, string_eq,
  nat_eq, ==_refl, if◌then◌else◌, any, any-append, All, All-append, arith, Bool-cases, ◌&&◌, ◌||◌,
}
use shopify_gmc.Differ.{Diff}
use shopify_gmc.Alerts.{
  AuditResult, Subscription, DispatchRow, Alert, AlertState, fired, subscribes_to,
  load_subscriptions, is_for, is_dispatched, dispatch_row, send_alert, with_target, alert_mail,
  alert_one, alert_triggers, alert_all, dispatch_alerts,
}
use mathlib.Core.List.{append_assoc}

-- Is an alert one that a subscription of the table wants.
abbrev pub is_wanted : AuditResult → List Subscription → Alert → Bool
is_wanted res table a =
    any
      (λ s.
        is_for res.tenant_id res.store_id s
        && (if s.target == "" then s.user_email else s.target) == a.to
        && subscribes_to s a.trigger)
      table

module _ (P : Alert → Type 0) (now : ℕ) (res : AuditResult) (diff : Option Diff) where
  alert_one-cases :
      (s : Subscription) (t : String) (st : AlertState)
      → ((alert_one now res diff s t st).mails ≡ st.mails)
        ⊎ ((subscribes_to s t ≡ true)
            × ((alert_one now res diff s t st).mails ≡ st.mails ++ alert_mail s t ∷ []))
  unfolding alert_one send_alert
  alert_one-cases s t st = ground arith

  alert_one-All :
      (s : Subscription) (t : String) (st : AlertState)
      → (subscribes_to s t ≡ true → P (alert_mail s t))
      → All P st.mails
      → All P (alert_one now res diff s t st).mails
  alert_one-All s t st justified h = elim (alert_one-cases s t st) [
    | inl kept ↦ rw kept h
    | inr (wants, sent) ↦ rw sent (All-append P st.mails _ h (justified wants, tt))
  ]

  alert_triggers-All :
      (s : Subscription) (ts : List String) (st : AlertState)
      → ((t : String) → subscribes_to s t ≡ true → P (alert_mail s t))
      → All P st.mails
      → All P (alert_triggers now res diff s ts st).mails
  unfolding alert_triggers
  alert_triggers-All s [] st justified h = h
  alert_triggers-All s (t ∷ ts) st justified h =
      alert_triggers-All s ts (alert_one now res diff s t st) justified
        (alert_one-All s t st (justified t) h)

  alert_all-All :
      (ts : List String) (ss : List Subscription) (st : AlertState)
      → All (λ s. (t : String) → subscribes_to s t ≡ true → P (alert_mail s t)) ss
      → All P st.mails
      → All P (alert_all now res diff ts ss st).mails
  unfolding alert_all
  alert_all-All ts [] st justified h = h
  alert_all-All ts (s ∷ ss) st justified h =
      alert_all-All ts ss (alert_triggers now res diff s ts st) justified.1
        (alert_triggers-All s ts st justified.0 h)

abbrev Wants : AuditResult → List Subscription → Subscription → Type 0
Wants res table s =
    (t : String) → subscribes_to s t ≡ true → is_wanted res table (alert_mail s t) ≡ true

Wants-cons :
    (res : AuditResult) (s : Subscription) (table ss : List Subscription)
    → All (Wants res table) ss
    → All (Wants res (s ∷ table)) ss
Wants-cons res s table [] h = tt
Wants-cons res s table (x ∷ ss) h = (λ t w. or_true _ _ (h.0 t w), Wants-cons res s table ss h.1)
  where
    or_true : (a b : Bool) → b ≡ true → (a || b) ≡ true
    or_true a b e = ground arith

load_subscriptions-Wants :
    (res : AuditResult) (table : List Subscription)
    → All (Wants res table) (load_subscriptions res.tenant_id res.store_id table)
unfolding load_subscriptions
load_subscriptions-Wants res [] = tt
load_subscriptions-Wants res (s ∷ table) = elim (Bool-cases (is_for res.tenant_id res.store_id s)) [
  | inl its ↦
      rw (load_subscriptions, its)
        (λ t w. its_own t its w, Wants-cons res s table _ (load_subscriptions-Wants res table))
  | inr other ↦
      rw (load_subscriptions, other) (Wants-cons res s table _ (load_subscriptions-Wants res table))
]
  where
    its_own :
        (t : String)
        → is_for res.tenant_id res.store_id s ≡ true
        → subscribes_to (with_target s) t ≡ true
        → is_wanted res (s ∷ table) (alert_mail (with_target s) t) ≡ true
    its_own t its w =
        unfold subscribes_to in
        ground (arith, ==_refl (if s.target == "" then s.user_email else s.target))

-- If every mail so far was wanted, every mail is after the alerts of an audit: it goes to the address
-- of an enabled subscription by email, of the audit's tenant, to its store or to all stores, that is
-- subscribed to the mail's trigger.
pub dispatch_alerts_wanted :
    (now : ℕ) (res : AuditResult) (diff : Option Diff) (table : List Subscription) (st : AlertState)
    → All (λ a. is_wanted res table a ≡ true) st.mails
    → All (λ a. is_wanted res table a ≡ true) (dispatch_alerts now res diff table st).mails
unfolding dispatch_alerts
dispatch_alerts_wanted now res diff table st h =
    alert_all-All (λ a. is_wanted res table a ≡ true) now res diff (fired res diff)
      (load_subscriptions res.tenant_id res.store_id table) st (load_subscriptions-Wants res table)
      h

-- Sending again for an audit, a user and a trigger adds no row, but the mail goes out again.
pub send_alert_again :
    (now later : ℕ) (res : AuditResult) (s : Subscription) (trigger : String) (st : AlertState)
    → let once = send_alert now res s trigger st in
      let twice = send_alert later res s trigger once in
      (twice.rows ≡ once.rows)
      × (twice.mails ≡ st.mails ++ alert_mail s trigger ∷ alert_mail s trigger ∷ [])
unfolding send_alert
send_alert_again now later res s trigger st =
    (rows_again _ refl, append_assoc st.mails (alert_mail s trigger ∷ []) _)
  where
    rows_again :
        (b : Bool)
        → is_dispatched res s trigger st.rows ≡ b
        → (send_alert later res s trigger (send_alert now res s trigger st)).rows
          ≡ (send_alert now res s trigger st).rows
    rows_again b e =
        unfold send_alert in
        ground (
          arith,
          any-append
              (λ (r : DispatchRow).
                r.audit_id == res.audit_id && r.user_id == s.user_id && r.trigger == trigger)
              st.rows (dispatch_row now res s trigger ∷ []),
          ==_refl res.audit_id,
          ==_refl s.user_id,
          ==_refl trigger,
        )
