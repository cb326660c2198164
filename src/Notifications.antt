-- ===== src/Notifications.antt =====
-- services/notifications/src/notifications_service: the queue of notifications, its rows and the
-- code outside the service that it calls. The rows are those of all tenants, as the claim of due
-- notifications reads them.
pub mod Templates
pub mod Service
pub mod Delivery
pub mod Consent
pub mod Queueing
pub mod Stuck
pub mod Repeat
use soomsuite_agent.Prelude.{ℕ, String, Bool, Option, List}
use soomsuite_agent.Schemas.Notification.{NotificationStatus}

-- A variable of a template, with its text.
abbrev pub Variables : Type 0
Variables = List (String × String)

pub record Notification : Type 0 where
  pub id : ℕ
  pub tenant_id : ℕ
  pub channel : String
  pub template : String
  pub contact_id : Option ℕ
  pub recipient_user_id : Option ℕ
  pub variables : Variables
  pub security_team : Bool
  pub status : NotificationStatus
  pub scheduled_for : ℕ
  pub sent_at : Option ℕ
  pub attempts : ℕ
  pub last_error : Option String
  pub provider_message_id : Option String
  pub idempotency_key : String
  pub related_type : Option String
  pub related_id : Option ℕ
  pub requested_by : String

abbrev pub Queue : Type 0
Queue = List Notification

-- What the CRM answers on the delivery of a contact: each consent may be missing.
pub record ContactDelivery : Type 0 where
  pub email : Option String
  pub phone : Option String
  pub email_consent : Option Bool
  pub whatsapp_consent : Option Bool

-- A call that may raise a domain error or an `OSError`, of which the queue keeps the class.
pub data Attempt (A : Type 0) : Type 0 where
  worked : A → Attempt A
  raised : (class_name : String) → Attempt A

-- Calls of other services and of the senders, and the rendering of templates.
pub record NotificationExternals : Type 0 where
  pub has_slack : Bool
  pub has_whatsapp : Bool
  pub build_variables : Notification → Attempt (Unit {0})
  pub contact : Notification → Attempt ContactDelivery
  pub security_recipients : Notification → List String
  pub post_slack : Notification → Attempt (Unit {0})
  pub send_email : String → Notification → Attempt String
  pub send_whatsapp : String → Notification → Attempt String
