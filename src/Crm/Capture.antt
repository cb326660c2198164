-- ===== src/Crm/Capture.antt =====
-- services/crm/src/crm_service/service.py: `CrmService.capture_contact`, which a customer's
-- conversation calls with the details that the customer has shared.
use soomsuite_agent.Prelude.{
  ℕ, String, Bool, true, false, not, ◌&&◌, ◌||◌, Option, none, some, List, [], ◌∷◌, ◌++◌, str_eq,
  str_append, non_empty, or_empty, ltb, leb, ◌==◌, opt_eq, is_some, if◌then◌else◌, find, keep,
  length, contains,
}
use soomsuite_agent.Errors.{Result, ok, err, validation_failed}
use soomsuite_agent.Schemas.Pipeline.{stage_enum, new_lead, won, lost}
use soomsuite_agent.Store.{Action, update_first}
use soomsuite_agent.Crm.{Consent, Contact, Company, Opportunity, CrmDb}
use soomsuite_agent.Crm.Pipeline.{is_contact, add_activity}

-- Keyed hashes, encryption and the normalisation of texts, for the tenant.
pub record CrmExternals : Type 0 where
  pub blind_index : String → String → String
  pub encrypt : String → String
  pub normalize_text : String → ℕ → String
  pub lower : String → String

pub record CaptureContactRequest : Type 0 where
  pub full_name : Option String
  pub email : Option String
  pub phone : Option String
  pub company_name : Option String
  pub preferred_channel : Option String
  pub timezone : Option String
  pub contact_processing : Bool
  pub marketing : Bool
  pub whatsapp : Bool
  pub email_consent : Bool
  pub source : String
  pub whatsapp_ref_hash : Option String

-- `bool(text)`, of an optional text
abbrev pub has_text : Option String → Bool
has_text o = non_empty (or_empty o)

abbrev same_text : Option String → Option String → Bool
same_text (some a) (some b) = str_eq a b
same_text _ _ = false

-- The new text, if there is one and the field has none.
abbrev pub fill : Option String → Option String → Option String → Option String
fill new value old = if has_text new && not (has_text old) then value else old

-- `list[-20:]`
abbrev last_twenty : List Consent → List Consent
last_twenty [] = []
last_twenty (c ∷ cs) =
    let rest = last_twenty cs in if leb (length (c ∷ cs)) 20 then c ∷ cs else rest

module _ (ext : CrmExternals) where
  abbrev index_of : Option String → String → Option String
  index_of none purpose = none
  index_of (some v) purpose = some (ext.blind_index v purpose)

  -- `str(req.email) if req.email else None`
  abbrev index_or_none : Option String → String → Option String
  index_or_none v purpose = if has_text v then index_of v purpose else none

  -- The condition of the query for a contact on file.
  abbrev pub matches : CaptureContactRequest → Contact → Bool
  matches req c =
      not (is_some c.deleted_at)
      && (same_text (index_or_none req.email "email") c.email_hash
          || same_text (index_of req.phone "phone") c.phone_hash
          || (has_text req.whatsapp_ref_hash && same_text req.whatsapp_ref_hash c.whatsapp_hash))

  abbrev older : Option Contact → Contact → Option Contact
  older none c = some c
  older (some d) c = if ltb d.created_at c.created_at then some d else some c

  -- `ORDER BY created_at LIMIT 1`
  unfoldable pub oldest : List Contact → Option Contact
  oldest [] = none
  oldest (c ∷ cs) = older (oldest cs) c

  abbrev consent_of : ℕ → CaptureContactRequest → Consent
  consent_of now req = record {
    contact_processing = req.contact_processing;
    marketing = req.marketing;
    whatsapp = req.whatsapp;
    email = req.email_consent;
    recorded_at = now;
    source = req.source;
  }

  abbrev pub blank_contact : (uuid now : ℕ) → CaptureContactRequest → Contact
  blank_contact uuid now req = record {
    id = uuid;
    company_id = none;
    full_name = none;
    email_ciphertext = none;
    email_hash = none;
    phone_ciphertext = none;
    phone_hash = none;
    whatsapp_hash = none;
    preferred_channel = none;
    timezone = none;
    consent = some (consent_of now req);
    consent_history = [];
    source = some req.source;
    created_at = now;
    last_interaction_at = none;
    deleted_at = none;
  }

  -- The assignments that fill only empty fields.
  unfoldable pub filled : CaptureContactRequest → Contact → Contact
  filled req c = record c {
    full_name =
        fill req.full_name (some (ext.normalize_text (or_empty req.full_name) 120)) c.full_name;
    email_ciphertext = fill req.email (some (ext.encrypt (or_empty req.email))) c.email_ciphertext;
    email_hash =
        if has_text req.email && not (has_text c.email_ciphertext)
        then index_or_none req.email "email"
        else c.email_hash;
    phone_ciphertext = fill req.phone (some (ext.encrypt (or_empty req.phone))) c.phone_ciphertext;
    phone_hash =
        if has_text req.phone && not (has_text c.phone_ciphertext)
        then index_of req.phone "phone"
        else c.phone_hash;
    whatsapp_hash = fill req.whatsapp_ref_hash req.whatsapp_ref_hash c.whatsapp_hash;
    preferred_channel = fill req.preferred_channel req.preferred_channel c.preferred_channel;
    timezone = fill req.timezone req.timezone c.timezone;
  }

  abbrev pub noted : ℕ → CaptureContactRequest → Bool → Contact → Contact
  noted now req created c =
      if created
      then c
      else record c { consent_history = last_twenty c.consent_history ++ (consent_of now req ∷ []) }

  abbrev is_named : String → Company → Bool
  is_named name c = str_eq (ext.lower c.name) (ext.lower name) && not (is_some c.deleted_at)

  abbrev company_of : ℕ → String → Option Company → List Company → ℕ × List Company
  company_of uuid name (some c) cs = (c.id, cs)
  company_of uuid name none cs =
      (uuid, cs ++ (record { id = uuid; name = name; deleted_at = none } ∷ []))

  -- `_find_company`
  unfoldable pub find_company : ℕ → String → List Company → ℕ × List Company
  find_company uuid name cs = company_of uuid name (find (is_named name) cs) cs

  -- The company of the request, for a contact that has none.
  unfoldable pub with_company :
      (uuid : ℕ) → CaptureContactRequest → Contact → List Company → Contact × List Company
  unfolding find_company
  with_company uuid req c cs =
      let joined = find_company uuid (ext.normalize_text (or_empty req.company_name) 200) cs in
      if has_text req.company_name && not (is_some c.company_id)
      then (record c { company_id = some joined.0 }, joined.1)
      else (c, cs)

  -- The contact as the session flushes it, and the companies.
  unfoldable pub updated :
      (uuid now : ℕ)
      → CaptureContactRequest
      → Bool
      → Contact
      → List Company
      → Contact × List Company
  unfolding filled with_company
  updated uuid now req created c cs =
      let next = with_company uuid req (noted now req created (filled req c)) cs in
      (record next.0 { last_interaction_at = some now }, next.1)

  abbrev is_open_of : ℕ → Opportunity → Bool
  is_open_of contact_id o =
      opt_eq o.contact_id (some contact_id)
      && not (contains (won ∷ lost ∷ []) o.stage)
      && not (is_some o.deleted_at)

  abbrev newer : Option Opportunity → Opportunity → Option Opportunity
  newer none o = some o
  newer (some p) o = if ltb o.created_at p.created_at then some p else some o

  -- `ORDER BY created_at DESC LIMIT 1`
  unfoldable pub newest : List Opportunity → Option Opportunity
  newest [] = none
  newest (o ∷ os) = newer (newest os) o

  abbrev inbound : (uuid now : ℕ) → CaptureContactRequest → Contact → Opportunity
  inbound uuid now req c = record {
    id = uuid;
    contact_id = some c.id;
    company_id = c.company_id;
    title = str_append "Inbound lead via " req.source;
    source = some req.source;
    stage = new_lead;
    stage_changed_at = now;
    version = 1;
    lost_reason = none;
    last_interaction_at = some now;
    created_at = now;
    deleted_at = none;
  }

  -- The open opportunity of the contact, or a new one, with the time of the activity.
  abbrev with_opportunity :
      (uuid now : ℕ)
      → CaptureContactRequest
      → Contact
      → Option Opportunity
      → List Opportunity
      → ℕ × List Opportunity
  with_opportunity uuid now req c (some o) os = (
    o.id,
    update_first (λ (p : Opportunity). p.id == o.id)
        (λ _. record o { last_interaction_at = some now }) os,
  )
  with_opportunity uuid now req c none os = (uuid, os ++ (inbound uuid now req c ∷ []))

  -- `ContactRef`
  abbrev pub ContactRef : Type 0
  ContactRef = ℕ × ℕ × Bool

  unfoldable pub finish :
      (uuid now : ℕ)
      → CaptureContactRequest
      → String
      → Bool
      → Contact
      → CrmDb
      → Result ContactRef × CrmDb
  unfolding newest add_activity
  finish uuid now req actor created c db =
      let opp =
        with_opportunity uuid now req c (newest (keep (is_open_of c.id) db.opportunities))
          db.opportunities in
      (
        ok (c.id, opp.0, created),
        add_activity
            (record {
              contact_id = some c.id;
              opportunity_id = some opp.0;
              actor_type = "agent";
              actor_id = actor;
              activity_type = if created then "contact.captured" else "contact.details_submitted";
              occurred_at = now;
            })
            (record db { opportunities = opp.1 }),
      )

  -- The flush of the contact, into its row or as a new one.
  abbrev pub flushed : Bool → Contact → List Contact → List Contact
  flushed created c cs =
      if created then cs ++ (c ∷ []) else update_first (is_contact c.id) (λ _. c) cs

  unfoldable pub capture_into :
      (uuids : ℕ × ℕ × ℕ) (now : ℕ)
      → CaptureContactRequest
      → String
      → Bool
      → Contact
      → CrmDb
      → Result ContactRef × CrmDb
  unfolding updated finish
  capture_into (contact_id, company_id, opp_id) now req actor created c db =
      let next = updated company_id now req created c db.companies in
      finish opp_id now req actor created next.0
        (record db { contacts = flushed created next.0 db.contacts; companies = next.1 })

  unfoldable pub capture_for :
      (uuids : ℕ × ℕ × ℕ) (now : ℕ)
      → CaptureContactRequest
      → String
      → Option Contact
      → CrmDb
      → Result ContactRef × CrmDb
  unfolding capture_into
  capture_for uuids now req actor (some c) db = capture_into uuids now req actor false c db
  capture_for uuids now req actor none db =
      capture_into uuids now req actor true (blank_contact uuids.0 now req) db

  -- `capture_contact`, with the identifiers of the contact, the company and the opportunity that
  -- it may add.
  unfoldable pub capture_contact :
      (uuids : ℕ × ℕ × ℕ) (now : ℕ) → CaptureContactRequest → String → Action CrmDb ContactRef
  unfolding oldest capture_for
  capture_contact uuids now req actor db =
      if not (has_text req.email || has_text req.phone || has_text req.whatsapp_ref_hash)
      then (err (validation_failed "an email, phone number or WhatsApp identity is required"), db)
      else if not req.contact_processing
      then (err (validation_failed "consent to process contact details is required"), db)
      else capture_for uuids now req actor (oldest (keep (matches req) db.contacts)) db
