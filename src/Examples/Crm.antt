-- ===== src/Examples/Crm.antt =====
-- A lead that is qualified, and a contact whose address a stranger submits.
use soomsuite_agent.Prelude.{refl, str_append, true, false, none, some, [], ◌∷◌}
use soomsuite_agent.Schemas.Pipeline.{new_lead, qualified, pipeline_transitions}
use soomsuite_agent.Crm.{Contact, Opportunity, CrmDb}
use soomsuite_agent.Crm.Capture.{CrmExternals, CaptureContactRequest, capture_contact}
use soomsuite_agent.Crm.OnFile.{StaysKept, capture_contact-StaysKept}
use soomsuite_agent.Crm.Pipeline.{
  opportunity, add_activity, moved, entered, annotated, change_stage,
}
use soomsuite_agent.Crm.Stages.{IsMoved, change_stage-IsMoved}

abbrev lead : Opportunity
lead = record {
  id = 4;
  contact_id = none;
  company_id = none;
  title = "Inbound lead";
  source = none;
  stage = new_lead;
  stage_changed_at = 1;
  version = 1;
  lost_reason = none;
  last_interaction_at = none;
  created_at = 1;
  deleted_at = none;
}

abbrev leads : CrmDb
leads = record { companies = []; contacts = []; opportunities = lead ∷ []; activities = [] }

change_stage-IsMoved_example :
    IsMoved 4 qualified (some 1) false leads (annotated 9 qualified none (entered 9 qualified lead))
unfolding change_stage opportunity add_activity moved pipeline_transitions
change_stage-IsMoved_example =
    change_stage-IsMoved 9 4 qualified "user" "bob" none (some 1) false leads
      (annotated 9 qualified none (entered 9 qualified lead)) refl

abbrev ext : CrmExternals
ext = record {
  blind_index = λ value purpose. str_append purpose value;
  encrypt = λ value. str_append "v1." value;
  normalize_text = λ text limit. text;
  lower = λ text. text;
}

abbrev ann : Contact
ann = record {
  id = 3;
  company_id = none;
  full_name = some "Ann";
  email_ciphertext = some "v1.ann@example.org";
  email_hash = some "emailann@example.org";
  phone_ciphertext = none;
  phone_hash = none;
  whatsapp_hash = none;
  preferred_channel = none;
  timezone = none;
  consent = none;
  consent_history = [];
  source = some "web";
  created_at = 1;
  last_interaction_at = none;
  deleted_at = none;
}

abbrev on_file : CrmDb
on_file = record { companies = []; contacts = ann ∷ []; opportunities = []; activities = [] }

abbrev stranger : CaptureContactRequest
stranger = record {
  full_name = some "Mallory";
  email = some "ann@example.org";
  phone = some "+4912345678";
  company_name = none;
  preferred_channel = none;
  timezone = none;
  contact_processing = true;
  marketing = true;
  whatsapp = true;
  email_consent = true;
  source = "web";
  whatsapp_ref_hash = none;
}

capture_contact-StaysKept_example :
    StaysKept ext 3 ann (capture_contact ext (4, 5, 6) 9 stranger "samiir" on_file).1.contacts
capture_contact-StaysKept_example =
    capture_contact-StaysKept ext (4, 5, 6) 9 stranger "samiir" on_file 3 ann (refl, tt) refl
