-- ===== src/Notifications/Service.antt =====
-- services/notifications/src/notifications_service/service.py: `NotificationService`, and the
-- database's claim of due notifications. Metrics are left out; the texts of a message, and the
-- accounts that are the security team, are parameters.
use soomsuite_agent.Prelude.{
  ℕ, ◌+◌, min, max, String, Bool, true, false, not, ◌&&◌, ◌||◌, Option, none, some, List, [], ◌∷◌,
  ◌++◌, str_eq, ltb, leb, ◌==◌, opt_eq, is_some, is_empty, if◌then◌else◌, any, keep, find, map,
  take, length, ◌=?◌,
}
use soomsuite_agent.Errors.{Result, ok, err, validation_failed}
use soomsuite_agent.Schemas.Notification.{notification_status_enum, scheduled, sending, cancelled}
use soomsuite_agent.Store.{Action, update_all}
use soomsuite_agent.Notifications.{Variables, Notification, Queue}
use soomsuite_agent.Notifications.Templates.{
  Category, customer, security, MessageTemplate, template_for,
}

-- `NotificationIn`
pub record NotificationIn : Type 0 where
  pub template : String
  pub channel : String
  pub contact_id : Option ℕ
  pub recipient_user_id : Option ℕ
  pub security_team : Bool
  pub variables : Variables
  pub scheduled_for : Option ℕ
  pub idempotency_key : String
  pub related_type : Option String
  pub related_id : Option ℕ

abbrev has_variable : Variables → String → Bool
has_variable vs k = any (λ (v : String × String). str_eq v.0 k) vs

-- `[k for k in tpl.required if k not in body.variables]`
abbrev missing : MessageTemplate → Variables → List String
missing t vs = keep (λ k. not (has_variable vs k)) t.required

abbrev is_customer : Category → Bool
is_customer customer = true
is_customer security = false

-- The checks of `enqueue`, in their order.
abbrev pub accepted : NotificationIn → Result MessageTemplate → Result (Unit {0})
accepted body (err e) = err e
accepted body (ok t) =
    if is_customer t.category && not (is_some body.contact_id)
    then err (validation_failed "customer notifications require a contact")
    else if not (is_customer t.category)
        && not (is_some body.recipient_user_id || body.security_team)
    then err (validation_failed "security notifications require internal recipients")
    else if not (is_empty (missing t body.variables))
    then err (validation_failed "missing template variables")
    else ok tt

abbrev pub due_time : ℕ → Option ℕ → ℕ
due_time now none = now
due_time now (some t) = t

-- The row of `enqueue`: one whose time has passed by more than five minutes is cancelled at once.
abbrev pub new_row : (tenant uuid now : ℕ) → NotificationIn → String → Notification
new_row tenant uuid now body caller =
    let late = ltb (due_time now body.scheduled_for + 300) now in
    record {
      id = uuid;
      tenant_id = tenant;
      channel = body.channel;
      template = body.template;
      contact_id = body.contact_id;
      recipient_user_id = body.recipient_user_id;
      variables = body.variables;
      security_team = body.security_team;
      status = if late then cancelled else scheduled;
      scheduled_for = due_time now body.scheduled_for;
      sent_at = none;
      attempts = 0;
      last_error = if late then some "scheduled time already passed" else none;
      provider_message_id = none;
      idempotency_key = body.idempotency_key;
      related_type = body.related_type;
      related_id = body.related_id;
      requested_by = caller;
    }

abbrev pub has_key : ℕ → String → Notification → Bool
has_key tenant key n = n.tenant_id == tenant && str_eq n.idempotency_key key

abbrev pub has_id : ℕ → ℕ → Notification → Bool
has_id tenant id n = n.tenant_id == tenant && n.id == id

abbrev pub enqueue_unless :
    (tenant uuid now : ℕ) → NotificationIn → String → Option Notification → Queue → Result ℕ × Queue
enqueue_unless tenant uuid now body caller (some existing) q = (ok existing.id, q)
enqueue_unless tenant uuid now body caller none q =
    (ok uuid, q ++ (new_row tenant uuid now body caller ∷ []))

abbrev pub enqueue_accepted :
    (tenant uuid now : ℕ) → NotificationIn → String → Result (Unit {0}) → Queue → Result ℕ × Queue
enqueue_accepted tenant uuid now body caller (err e) q = (err e, q)
enqueue_accepted tenant uuid now body caller (ok _) q =
    enqueue_unless tenant uuid now body caller (find (has_key tenant body.idempotency_key) q) q

unfoldable pub enqueue : (tenant uuid now : ℕ) → NotificationIn → String → Action Queue ℕ
unfolding template_for
enqueue tenant uuid now body caller q =
    enqueue_accepted tenant uuid now body caller (accepted body (template_for body.template caller))
      q

abbrev pub same_text : Option String → String → Bool
same_text none s = false
same_text (some t) s = str_eq t s

abbrev pub is_related : (tenant now : ℕ) → String → ℕ → Notification → Bool
is_related tenant now related_type related_id n =
    n.tenant_id == tenant
    && same_text n.related_type related_type
    && opt_eq n.related_id (some related_id)
    && (n.status =? scheduled)
    && ltb now n.scheduled_for

abbrev pub cancelled_row : Notification → Notification
cancelled_row n = record n { status = cancelled }

-- `cancel_related`, with the number of rows that it changed
unfoldable pub cancel_related : (tenant now : ℕ) → String → ℕ → Action Queue ℕ
cancel_related tenant now related_type related_id q = (
  ok (length (keep (is_related tenant now related_type related_id) q)),
  update_all (is_related tenant now related_type related_id) cancelled_row q,
)

abbrev is_due : ℕ → Notification → Bool
is_due now n = (n.status =? scheduled) && leb n.scheduled_for now

-- `ORDER BY scheduled_for`
abbrev by_time : Notification → List Notification → List Notification
by_time n [] = n ∷ []
by_time n (m ∷ ms) = if leb n.scheduled_for m.scheduled_for then n ∷ m ∷ ms else m ∷ by_time n ms

unfoldable pub in_order : List Notification → List Notification
in_order [] = []
in_order (n ∷ ns) = by_time n (in_order ns)

abbrev pub is_same : Notification → Notification → Bool
is_same n m = n.tenant_id == m.tenant_id && n.id == m.id

-- The rows that a claim of at most `limit` picks.
unfoldable pub picked : (now limit : ℕ) → Queue → List Notification
unfolding in_order
picked now limit q = take (min (max limit 1) 500) (in_order (keep (is_due now) q))

-- `status = 'SCHEDULED'` still holds of a picked row, which is locked until the update.
unfoldable pub is_claimed : (now limit : ℕ) → Queue → Notification → Bool
unfolding picked
is_claimed now limit q n = (n.status =? scheduled) && any (is_same n) (picked now limit q)

abbrev pub claimed_row : Notification → Notification
claimed_row n = record n { status = sending; attempts = n.attempts + 1 }

-- `app_claim_due_notifications`, and `claim`, which answers the tenants and identifiers
unfoldable pub claim : (now limit : ℕ) → Queue → List (ℕ × ℕ) × Queue
unfolding is_claimed
claim now limit q = (
  map (λ (n : Notification). (n.tenant_id, n.id)) (keep (is_claimed now limit q) q),
  update_all (is_claimed now limit q) claimed_row q,
)
