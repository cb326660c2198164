-- ===== src/Examples/Notifications.antt =====
-- A reminder to a contact who reads e-mail, and an alert to the security team.
use soomsuite_agent.Prelude.{◌≡◌, refl, true, false, none, some, List, [], ◌∷◌, arith, All, find}
use soomsuite_agent.Errors.{ok}
use soomsuite_agent.Schemas.Notification.{sending}
use soomsuite_agent.Notifications.{
  Notification, ContactDelivery, worked, raised, NotificationExternals,
}
use soomsuite_agent.Notifications.Templates.{
  customer, MessageTemplate, templates, template_named, template_for, usable, may_use,
}
use soomsuite_agent.Notifications.Service.{NotificationIn, new_row, has_id, enqueue}
use soomsuite_agent.Notifications.Delivery.{send}
use soomsuite_agent.Notifications.Consent.{IsReachable, send-IsReachable}
use soomsuite_agent.Notifications.Queueing.{
  Call, enqueue_call, cancel_call, claim_call, deliver_call, run, IsWithin, run-IsWithin,
}
use soomsuite_agent.Notifications.Stuck.{run_stuck}
use soomsuite_agent.Notifications.Repeat.{enqueue_again}

abbrev reader : ContactDelivery
reader = record {
  email = some "ann@example.org";
  phone = none;
  email_consent = none;
  whatsapp_consent = none;
}

abbrev ext : NotificationExternals
ext = record {
  has_slack = false;
  has_whatsapp = true;
  build_variables = λ _. worked tt;
  contact = λ _. worked reader;
  security_recipients = λ _. [];
  post_slack = λ _. worked tt;
  send_email = λ _ _. worked "mail-1";
  send_whatsapp = λ _ _. raised "UpstreamUnavailable";
}

abbrev body : NotificationIn
body = record {
  template = "customer.followup";
  channel = "email";
  contact_id = some 3;
  recipient_user_id = none;
  security_team = false;
  variables = ("topic", "pricing") ∷ [];
  scheduled_for = some 100;
  idempotency_key = "followup:3";
  related_type = some "lead";
  related_id = some 8;
}

abbrev reminder : Notification
reminder = new_row 1 20 90 body "samiir-agent"

abbrev followup : MessageTemplate
followup = record { name = "customer.followup"; category = customer; required = "topic" ∷ [] }

send-IsReachable_example :
    (c : ContactDelivery) × (ext.contact reminder ≡ worked c) × IsReachable ext reminder c
unfolding send template_named templates
send-IsReachable_example = send-IsReachable ext reminder followup "mail-1" refl refl refl

abbrev calls : List Call
calls =
    enqueue_call 1 20 90 body "samiir-agent"
    ∷ claim_call 101 10
    ∷ deliver_call 102 1 20
    ∷ cancel_call 1 103 "lead" 8
    ∷ []

run-IsWithin_example : All (IsWithin ext 5) (run ext 5 calls [])
run-IsWithin_example = run-IsWithin ext 5 calls [] (omega arith) tt

abbrev abandoned : Notification
abandoned = record reminder { status = sending; attempts = 1 }

run_stuck_example :
    find (has_id 1 20) (run ext 5 (claim_call 500 10 ∷ []) (abandoned ∷ [])) ≡ some abandoned
run_stuck_example =
    run_stuck 1 20 ext 5 (claim_call 500 10 ∷ []) (abandoned ∷ []) abandoned refl (refl, tt) refl

enqueue_again_example :
    enqueue 1 21 505
      (record body { contact_id = some 99 })
      "scheduling"
      (run ext 5 (claim_call 500 10 ∷ deliver_call 501 1 20 ∷ []) (reminder ∷ []))
    ≡ (ok 20, run ext 5 (claim_call 500 10 ∷ deliver_call 501 1 20 ∷ []) (reminder ∷ []))
unfolding enqueue template_for template_named templates usable may_use
enqueue_again_example =
    enqueue_again 1 20 21 90 505 20 body (record body { contact_id = some 99 }) "samiir-agent"
      "scheduling" [] (reminder ∷ []) ext 5 (claim_call 500 10 ∷ deliver_call 501 1 20 ∷ []) refl
      refl refl
