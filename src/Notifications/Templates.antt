-- ===== src/Notifications/Templates.antt =====
-- services/notifications/src/notifications_service/templates.py: the approved templates, with what
-- the service reads of them, and who may use which. The texts and their rendering are left out.
use soomsuite_agent.Prelude.{
  String, Bool, not, Option, none, some, List, [], ◌∷◌, str_eq, if◌then◌else◌, find, any,
}
use soomsuite_agent.Errors.{Result, ok, err, forbidden, validation_failed}

pub data Category : Type 0 where
  customer security : Category

pub record MessageTemplate : Type 0 where
  pub name : String
  pub category : Category
  pub required : List String

abbrev appointment : String → MessageTemplate
appointment name = record {
  name = name;
  category = customer;
  required = "appointment_type" ∷ "starts_at" ∷ "timezone" ∷ [];
}

-- `TEMPLATES`
unfoldable pub templates : List MessageTemplate
templates =
    appointment "customer.appointment_confirmation"
    ∷ appointment "customer.appointment_reminder"
    ∷ appointment "customer.appointment_rescheduled"
    ∷ appointment "customer.appointment_cancelled"
    ∷ record { name = "customer.followup"; category = customer; required = "topic" ∷ [] }
    ∷ record {
      name = "security.incident_alert";
      category = security;
      required = "title" ∷ "risk_level" ∷ "risk_score" ∷ "claim_status" ∷ [];
    }
    ∷ record {
      name = "security.approval_required";
      category = security;
      required = "action_type" ∷ "risk_level" ∷ "reason" ∷ [];
    }
    ∷ []

-- `CALLER_CATEGORIES.get(caller, frozenset())`
unfoldable pub may_use : String → Category → Bool
may_use caller customer =
    any (str_eq caller) ("samiir-agent" ∷ "scheduling" ∷ "api-gateway-admin" ∷ [])
may_use caller security = any (str_eq caller) ("fatma-soc" ∷ "api-gateway-admin" ∷ [])

abbrev named : String → MessageTemplate → Bool
named name t = str_eq t.name name

-- `TEMPLATES.get(name)`
unfoldable pub template_named : String → Option MessageTemplate
unfolding templates
template_named name = find (named name) templates

unfoldable pub usable : String → Option MessageTemplate → Result MessageTemplate
unfolding may_use
usable caller none = err (validation_failed "unknown template")
usable caller (some t) =
    if not (may_use caller t.category)
    then err (forbidden "caller may not use this template category")
    else ok t

unfoldable pub template_for : String → String → Result MessageTemplate
unfolding template_named usable
template_for name caller = usable caller (template_named name)
