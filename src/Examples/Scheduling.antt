-- ===== src/Examples/Scheduling.antt =====
-- A calendar of one hour a day, with an appointment at its start.
use soomsuite_agent.Prelude.{
  refl, ◌≡◌, ◌≤◌, true, false, none, some, List, [], ◌∷◌, arith, All, length,
}
use soomsuite_agent.Errors.{ok}
use soomsuite_agent.Security.Principal.{customer, anonymous_customer}
use soomsuite_agent.Security.Acl.{samiir_agent, scheduling}
use soomsuite_agent.Security.ServiceAuth.{RequestContext}
use soomsuite_agent.Security.Crypto.{
  TokenCodec, rsplit, sign_token, verify_token, verify_token-sign_token,
}
use soomsuite_agent.Scheduling.Slots.{
  Range, BookingRules, Clock, Search, window_loop, candidate_slots, search,
}
use soomsuite_agent.Scheduling.Offers.{IsOffer, candidate_slots-IsOffer}
use soomsuite_agent.Scheduling.Ends.{candidate_slots-HasEnded, window_loop_forever}
use soomsuite_agent.Scheduling.Spread.{spread, spread-All}
use soomsuite_agent.Scheduling.Service.{
  AppointmentType, Appointment, SchedulingDb, SlotClaims, local, SchedulingExternals, db_busy,
}
use soomsuite_agent.Scheduling.Providers.{provider_for, verify_slot}
use soomsuite_agent.Scheduling.Bookings.{BookRequest, book, new_row, with_event}
use soomsuite_agent.Scheduling.Booked.{IsBooked, book-IsBooked}
use soomsuite_agent.Scheduling.Lawful.{IsLawful}
use soomsuite_agent.Scheduling.Calendar.{IsDated}
use soomsuite_agent.Scheduling.Availability.{
  AvailabilityRequest, offer, availability, type_of, offers, slots_for,
}
use soomsuite_agent.Scheduling.Offering.{verify_slot-offer, IsOffered, availability-IsOffered}
use soomsuite_agent.Scheduling.Trace.{Call, book_call, cancel_call, run, run-IsLawful}

-- Local time is UTC, and days count from zero.
abbrev clock : Clock
clock = record {
  has_zone = λ _. true;
  utc = λ _ local. local;
  local_day = λ _ t. 0;
  isoformat = λ _. "2026-01-01";
}

abbrev rules : BookingRules
rules = record {
  business_timezone = "UTC";
  working_hours = λ _. record { opens = 3600; closes = 7200 } ∷ [];
  min_notice_minutes = 0;
  max_days_ahead = 1;
  slot_step_minutes = 30;
  holidays = [];
}

abbrev taken_range : Range
taken_range = record { starts = 3600; ends = 5400 }

abbrev free_range : Range
free_range = record { starts = 5400; ends = 7200 }

candidate_slots-IsOffer_example :
    All (IsOffer clock rules (search rules 1800 0 0 none 1 (taken_range ∷ []))) (free_range ∷ [])
unfolding candidate_slots
candidate_slots-IsOffer_example =
    candidate_slots-IsOffer clock rules 1800 0 0 none 1 (taken_range ∷ []) (free_range ∷ []) refl

candidate_slots-HasEnded_example :
    (out : List Range) × (candidate_slots clock rules 1800 0 0 none 1 (taken_range ∷ [])
      ≡ ok (some out))
candidate_slots-HasEnded_example =
    candidate_slots-HasEnded clock rules 1800 0 0 none 1 (taken_range ∷ [])
      (λ tz local. omega arith) refl (omega arith)

abbrev stuck : Search
stuck = search (record rules { slot_step_minutes = 0 }) 1800 0 0 none 1 []

window_loop_forever_example : window_loop clock stuck 7200 100 3600 ≡ none
window_loop_forever_example = window_loop_forever clock stuck 7200 100 3600 refl (omega arith)

spread-All_example :
    (length (spread (taken_range ∷ free_range ∷ []) 1) ≤ 1)
    × All (λ r. r.starts ≤ 5400) (spread (taken_range ∷ free_range ∷ []) 1)
spread-All_example =
    spread-All (λ r. r.starts ≤ 5400) (taken_range ∷ free_range ∷ []) 1 (omega arith)
      (omega arith, (omega arith, tt))

abbrev kind : AppointmentType
kind = record {
  id = 7;
  code = "intro";
  name = "Introduction";
  duration_minutes = 30;
  buffer_minutes = 0;
  calendar_integration_id = none;
  calendar_id = "primary";
  active = true;
}

abbrev request : AvailabilityRequest
request = record {
  appointment_type = "intro";
  timezone = "UTC";
  earliest = none;
  days = 1;
  max_slots = 2;
  conversation_id = some 5;
}

abbrev claims : SlotClaims
claims = record {
  tenant = 1;
  type_id = 7;
  calendar = "primary";
  starts = 5400;
  ends = 7200;
  tz = "UTC";
  conversation = some 5;
  exp = 1800;
}

abbrev codec : TokenCodec SlotClaims
codec = record {
  hmac_hex = λ _ _. "00ff";
  b64e = λ text. text;
  b64d = λ text. some text;
  canonical_json = λ _. "claims";
  json_loads = λ _. some claims;
}

verify_token-sign_token_example :
    verify_token codec "key" (sign_token codec "key" claims) ≡ some claims
unfolding rsplit
verify_token-sign_token_example =
    verify_token-sign_token codec "key" claims refl (λ _. refl) (λ _. refl)

abbrev ext : SchedulingExternals
ext = record {
  codec = codec;
  slot_key = "key";
  hex = λ _. "0a";
  secret = λ _. ok "secret";
  cached = λ _. none;
  remote_busy = λ _ _ _ _. ok [];
  remote_create = λ _ _ _. ok "event";
  remote_cancel = λ _ _ _. ok tt;
}

verify_slot-offer_example :
    verify_slot ext (offer ext 1 1800 kind request free_range).slot_token 1 (some 5) 60 ≡ ok claims
unfolding rsplit
verify_slot-offer_example =
    verify_slot-offer ext 1 1800 60 kind request free_range refl (λ _. refl) (λ _. refl)
      (omega arith)

abbrev ready : SchedulingDb
ready = record { types = kind ∷ []; integrations = []; appointments = [] }

availability-IsOffered_example :
    IsOffered ext clock
      (λ _. rules)
      1740
      1
      60
      request
      ready
      (offer ext 1 1800 kind request taken_range ∷ offer ext 1 1800 kind request free_range ∷ [])
unfolding availability type_of provider_for db_busy offer offers slots_for candidate_slots spread
availability-IsOffered_example =
    availability-IsOffered ext clock (λ _. rules) 1740 1 60 request ready
      (offer ext 1 1800 kind request taken_range ∷ offer ext 1 1800 kind request free_range ∷ [])
      (omega arith) refl

abbrev wish : BookRequest
wish = record {
  slot_token = "body.00ff";
  contact_id = some 3;
  opportunity_id = none;
  conversation_id = some 5;
  idempotency_key = "chat-5-first";
  actor_type = "customer";
  actor_id = "visitor";
  attendee_email = none;
  notes = none;
}

abbrev appointment : Appointment
appointment = with_event "local-0a" (new_row ext 20 kind local claims wish)

book-IsBooked_example :
    IsBooked ext 60 20 1 wish ready appointment true
      (record ready { appointments = appointment ∷ [] })
unfolding book rsplit verify_token verify_slot provider_for db_busy
book-IsBooked_example =
    book-IsBooked ext 60 20 1 wish ready (record ready { appointments = appointment ∷ [] })
      appointment true refl

abbrev visitor : RequestContext
visitor = record {
  caller = samiir_agent;
  receiver = scheduling;
  principal = record {
    subject = "visitor";
    tenant_id = 1;
    actor_type = customer;
    roles = anonymous_customer ∷ [];
    session_id = none;
    mfa = false;
    contact_id = none;
    display_name = none;
  };
  request_id = "r1";
  source_ip = none;
  agent_run_id = none;
}

abbrev calls : List Call
calls =
    book_call 60 20 visitor wish
    ∷ book_call 61 21 visitor (record wish { idempotency_key = "chat-5-again" })
    ∷ cancel_call 62 visitor 20 (some 5) "changed plans"
    ∷ []

-- The type with a buffer of ten minutes.
abbrev spaced : AppointmentType
spaced = record kind { buffer_minutes = 10 }

abbrev spaced_db : SchedulingDb
spaced_db = record ready { types = spaced ∷ [] }

run-IsLawful_example :
    IsLawful (spaced ∷ []) (run ext calls spaced_db).appointments
    × All IsDated (run ext calls spaced_db).appointments
run-IsLawful_example = run-IsLawful ext (spaced ∷ []) calls spaced_db refl tt tt
