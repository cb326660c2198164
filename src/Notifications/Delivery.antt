-- ===== src/Notifications/Delivery.antt =====
-- services/notifications/src/notifications_service/service.py: `_send` and `deliver`.
use soomsuite_agent.Prelude.{
  ℕ, zero, suc, ◌+◌, ◌*◌, String, Bool, true, false, not, ◌||◌, Option, none, some, List, [], ◌∷◌,
  str_eq, str_take, join, non_empty, or_empty, leb, is_empty, if◌then◌else◌, find, ◌=?◌,
}
use soomsuite_agent.Schemas.Notification.{
  notification_status_enum, scheduled, sending, sent, failed, cancelled,
}
use soomsuite_agent.Store.{update_first}
use soomsuite_agent.Notifications.{
  Notification, Queue, ContactDelivery, Attempt, worked, raised, NotificationExternals,
}
use soomsuite_agent.Notifications.Templates.{customer, security, MessageTemplate, template_named}
use soomsuite_agent.Notifications.Service.{has_id}

-- How `_send` ends: with the provider's reference, with `_Skip`, with an exception that `deliver`
-- catches, or with the `KeyError` of a template that is not known, which it does not catch.
pub data Sending : Type 0 where
  accepted_as : (ref : String) → Sending
  skipped : (reason : String) → Sending
  failing : (class_name : String) → Sending
  crashed : Sending

module _ (ext : NotificationExternals) where
  abbrev of_attempt : Attempt String → Sending
  of_attempt (worked ref) = accepted_as ref
  of_attempt (raised e) = failing e

  abbrev cons : Attempt String → Attempt (List String) → Attempt (List String)
  cons (raised e) rest = raised e
  cons (worked r) (raised e) = raised e
  cons (worked r) (worked rs) = worked (r ∷ rs)

  -- One message per recipient.
  abbrev send_all : List String → Notification → Attempt (List String)
  send_all [] n = worked []
  send_all (r ∷ rs) n = cons (ext.send_email r n) (send_all rs n)

  abbrev joined : Attempt (List String) → Sending
  joined (worked refs) = accepted_as (str_take 500 (join "," refs))
  joined (raised e) = failing e

  abbrev slack_sent : Attempt (Unit {0}) → Sending
  slack_sent (worked _) = accepted_as "slack"
  slack_sent (raised e) = failing e

  abbrev send_security : Attempt (Unit {0}) → Notification → Sending
  send_security (raised e) n = failing e
  send_security (worked _) n =
      if str_eq n.channel "slack"
      then (if not ext.has_slack
          then skipped "slack not configured"
          else slack_sent (ext.post_slack n))
      else if is_empty (ext.security_recipients n)
      then skipped "no security recipients"
      else joined (send_all (ext.security_recipients n) n)

  abbrev pub is_refused : Option Bool → Bool
  is_refused (some false) = true
  is_refused _ = false

  abbrev pub is_granted : Option Bool → Bool
  is_granted (some true) = true
  is_granted _ = false

  abbrev pub by_email : ContactDelivery → Notification → Sending
  by_email c n =
      if not (non_empty (or_empty c.email))
      then skipped "contact has no email"
      else if is_refused c.email_consent
      then skipped "no email consent"
      else of_attempt (ext.send_email (or_empty c.email) n)

  abbrev pub by_whatsapp : ContactDelivery → Notification → Sending
  by_whatsapp c n =
      if not (is_granted c.whatsapp_consent)
      then skipped "no whatsapp consent"
      else if not (non_empty (or_empty c.phone)) || not ext.has_whatsapp
      then skipped "contact has no whatsapp number"
      else of_attempt (ext.send_whatsapp (or_empty c.phone) n)

  abbrev pub by_channel : ContactDelivery → Notification → Sending
  by_channel c n =
      if str_eq n.channel "email"
      then by_email c n
      else if str_eq n.channel "whatsapp"
      then by_whatsapp c n
      else skipped "unsupported channel"

  abbrev send_customer : Attempt ContactDelivery → Attempt (Unit {0}) → Notification → Sending
  send_customer (raised e) built n = failing e
  send_customer (worked c) (raised e) n = failing e
  send_customer (worked c) (worked _) n = by_channel c n

  abbrev send_template : Option MessageTemplate → Notification → Sending
  send_template none n = crashed
  send_template (some t) n = elim t.category [
    | security ↦ send_security (ext.build_variables n) n
    | customer ↦ send_customer (ext.contact n) (ext.build_variables n) n
  ]

  -- `_send`
  unfoldable pub send : Notification → Sending
  unfolding template_named
  send n = send_template (template_named n.template) n

  abbrev pow2 : ℕ → ℕ
  pow2 zero = 1
  pow2 (suc n) = 2 * pow2 n

  abbrev pub sent_row : ℕ → String → Notification → Notification
  sent_row now ref n = record n {
    provider_message_id = some ref;
    status = sent;
    sent_at = some now;
    last_error = none;
  }

  abbrev pub skipped_row : String → Notification → Notification
  skipped_row reason n = record n { status = cancelled; last_error = some reason }

  abbrev pub failed_row : String → Notification → Notification
  failed_row e n = record n { status = failed; last_error = some e }

  -- The retry waits for thirty seconds, doubled with every attempt.
  abbrev pub retried_row : ℕ → String → Notification → Notification
  retried_row now e n = record n {
    status = scheduled;
    last_error = some e;
    scheduled_for = now + 30 * pow2 n.attempts;
  }

  -- What `deliver` makes of the row; a crash rolls its transaction back.
  unfoldable pub settled : (max_attempts now : ℕ) → Sending → Notification → Notification
  settled max_attempts now (accepted_as ref) n = sent_row now ref n
  settled max_attempts now (skipped reason) n = skipped_row reason n
  settled max_attempts now (failing e) n =
      if leb max_attempts n.attempts then failed_row e n else retried_row now e n
  settled max_attempts now crashed n = n

  unfoldable pub deliver_found : (max_attempts now : ℕ) → Option Notification → Queue → Queue
  unfolding send settled
  deliver_found max_attempts now none q = q
  deliver_found max_attempts now (some n) q =
      if not (n.status =? sending)
      then q
      else update_first (has_id n.tenant_id n.id) (λ _. settled max_attempts now (send n) n) q

  -- `deliver`, in the session of the tenant
  unfoldable pub deliver : (max_attempts now tenant id : ℕ) → Queue → Queue
  unfolding deliver_found
  deliver max_attempts now tenant id q =
      deliver_found max_attempts now (find (has_id tenant id) q) q
