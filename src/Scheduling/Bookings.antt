-- ===== src/Scheduling/Bookings.antt =====
-- services/scheduling/src/scheduling_service/service.py: the methods of `SchedulingService` that
-- change appointments.
use soomsuite_agent.Prelude.{
  ℕ, ◌+◌, ◌-◌, String, Bool, true, false, not, ◌&&◌, ◌||◌, Option, none, some, [], ◌∷◌, ◌++◌,
  str_take, non_empty, or_empty, ◌==◌, opt_eq, is_some, is_empty, if◌then◌else◌, find, ◌=?◌,
}
use soomsuite_agent.Errors.{Result, ok, err, not_found, conflict}
use soomsuite_agent.Schemas.Scheduling.{appointment_status_enum, booked, cancelled, rescheduled}
use soomsuite_agent.Store.{Action, pure, lift, gets, modify, raise_when, update_first, ◌>>=◌, ◌>>◌}
use soomsuite_agent.Security.Crypto.{verify_token}
use soomsuite_agent.Scheduling.Slots.{minutes}
use soomsuite_agent.Scheduling.Service.{
  AppointmentType, Appointment, SchedulingDb, SlotClaims, Provider, local, provider_name, EventSpec,
  SchedulingExternals, is_type, has_id, has_key, db_busy, violates,
}
use soomsuite_agent.Scheduling.Providers.{
  verify_slot, provider_for, provider_busy, create_event, cancel_event,
}

-- The arguments of `book`.
pub record BookRequest : Type 0 where
  pub slot_token : String
  pub contact_id : Option ℕ
  pub opportunity_id : Option ℕ
  pub conversation_id : Option ℕ
  pub idempotency_key : String
  pub actor_type : String
  pub actor_id : String
  pub attendee_email : Option String
  pub notes : Option String

abbrev pub save : Appointment → SchedulingDb → SchedulingDb
save a db = record db { appointments = update_first (has_id a.id) (λ _. a) db.appointments }

abbrev pub append_row : Appointment → SchedulingDb → SchedulingDb
append_row a db = record db { appointments = db.appointments ++ (a ∷ []) }

abbrev pub with_event : String → Appointment → Appointment
with_event event a = record a { external_event_id = some event }

module _ (ext : SchedulingExternals) where
  abbrev pub new_row : ℕ → AppointmentType → Provider → SlotClaims → BookRequest → Appointment
  new_row uuid t p c req = record {
    id = uuid;
    appointment_type_id = t.id;
    contact_id = req.contact_id;
    opportunity_id = req.opportunity_id;
    conversation_id = req.conversation_id;
    provider = provider_name p;
    calendar_id = c.calendar;
    external_event_id = none;
    starts_at = c.starts;
    ends_at = c.ends;
    timezone = if non_empty c.tz then c.tz else "UTC";
    status = booked;
    idempotency_key = req.idempotency_key;
    rescheduled_from_id = none;
    created_by_type = req.actor_type;
    created_by_id = req.actor_id;
    cancelled_at = none;
    cancellation_reason = none;
  }

  abbrev pub spec_of : AppointmentType → BookRequest → Appointment → EventSpec
  spec_of t req a = record {
    event_key = ext.hex a.id;
    summary = t.name;
    description =
        str_take 500
          (if non_empty (or_empty req.notes) then or_empty req.notes else "Booked via SAMIIR");
    starts_at = a.starts_at;
    ends_at = a.ends_at;
    timezone = a.timezone;
    attendee_email = req.attendee_email;
  }

  abbrev is_same_booking : Appointment → BookRequest → Option SlotClaims → Bool
  is_same_booking a req none = false
  is_same_booking a req (some c) = a.starts_at == c.starts && opt_eq a.contact_id req.contact_id

  -- The branch of `book` on an appointment with the key.
  unfoldable pub replayed : Appointment → BookRequest → Result (Appointment × Bool)
  unfolding verify_token
  replayed a req =
      if is_same_booking a req (verify_token ext.codec ext.slot_key req.slot_token)
      then ok (a, false)
      else err (conflict "idempotency key reused with a different booking")

  abbrev pub active_type : Option AppointmentType → Result AppointmentType
  active_type none = err (not_found "appointment type unavailable")
  active_type (some t) = if t.active then ok t else err (not_found "appointment type unavailable")

  abbrev pub unavailable : String
  unavailable = "that time is no longer available; please choose another slot"

  -- `book` under the lock of the calendar, from its re-check on.
  unfoldable pub book_free :
      (uuid : ℕ)
      → AppointmentType
      → Provider
      → SlotClaims
      → BookRequest
      → Action SchedulingDb (Appointment × Bool)
  unfolding db_busy
  book_free uuid t p c req = do
    busy ← lift (
        provider_busy ext p c.calendar (c.starts - minutes t.buffer_minutes)
          (c.ends + minutes t.buffer_minutes))
    others ← gets (
        db_busy c.calendar (c.starts - minutes t.buffer_minutes) (c.ends + minutes t.buffer_minutes)
          none)
    raise_when (not (is_empty (busy ++ others))) (conflict unavailable)
    refused ← gets (λ db. violates (new_row uuid t p c req) db.appointments)
    raise_when refused (conflict unavailable)
    modify (append_row (new_row uuid t p c req))
    event ← lift (create_event ext p c.calendar (spec_of t req (new_row uuid t p c req)))
    modify (save (with_event event (new_row uuid t p c req)))
    pure (with_event event (new_row uuid t p c req), true)

  -- `book` where no appointment has the key.
  unfoldable pub book_new :
      (now uuid tenant : ℕ) → BookRequest → Action SchedulingDb (Appointment × Bool)
  unfolding verify_slot provider_for book_free
  book_new now uuid tenant req = do
    c ← lift (verify_slot ext req.slot_token tenant req.conversation_id now)
    found ← gets (λ db. find (is_type c.type_id) db.types)
    t ← lift (active_type found)
    p ← λ db. (provider_for ext t db, db)
    book_free uuid t p c req

  abbrev book_unless :
      (now uuid tenant : ℕ)
      → BookRequest
      → Option Appointment
      → Action SchedulingDb (Appointment × Bool)
  unfolding book_new replayed
  book_unless now uuid tenant req (some existing) db = (replayed existing req, db)
  book_unless now uuid tenant req none db = book_new now uuid tenant req db

  unfoldable pub book :
      (now uuid tenant : ℕ) → BookRequest → Action SchedulingDb (Appointment × Bool)
  unfolding book_new replayed
  book now uuid tenant req db =
      book_unless now uuid tenant req (find (has_key req.idempotency_key) db.appointments) db

  abbrev is_owner : Option ℕ → Option ℕ → Appointment → Bool
  is_owner contact_id conversation_id a =
      (is_some contact_id && opt_eq a.contact_id contact_id)
      || (is_some conversation_id && opt_eq a.conversation_id conversation_id)

  abbrev pub owned : Option ℕ → Option ℕ → Bool → Option Appointment → Result Appointment
  owned contact_id conversation_id is_staff none = err (not_found "")
  owned contact_id conversation_id is_staff (some a) =
      if not is_staff && not (is_owner contact_id conversation_id a)
      then err (not_found "")
      else ok a

  unfoldable pub get_owned : ℕ → Option ℕ → Option ℕ → Bool → Action SchedulingDb Appointment
  get_owned id contact_id conversation_id is_staff db =
      (owned contact_id conversation_id is_staff (find (has_id id) db.appointments), db)

  abbrev pub provider_of_type : Option AppointmentType → SchedulingDb → Result Provider
  provider_of_type none db = ok local
  provider_of_type (some t) db = provider_for ext t db

  -- `if appt.external_event_id: await provider.cancel_event(…)`
  abbrev pub cancel_external : Provider → Appointment → Result (Unit {0})
  cancel_external p a =
      if non_empty (or_empty a.external_event_id)
      then cancel_event ext p a.calendar_id (or_empty a.external_event_id)
      else ok tt

  abbrev pub cancelled_row : ℕ → String → Appointment → Appointment
  cancelled_row now reason a = record a {
    status = cancelled;
    cancelled_at = some now;
    cancellation_reason = some reason;
  }

  unfoldable pub cancel : ℕ → Appointment → String → Action SchedulingDb Appointment
  unfolding provider_for
  cancel now a reason = do
    raise_when (not (a.status =? booked)) (conflict "appointment is not active")
    t ← gets (λ db. find (is_type a.appointment_type_id) db.types)
    p ← λ db. (provider_of_type t db, db)
    lift (cancel_external p a)
    modify (save (cancelled_row now reason a))
    pure (cancelled_row now reason a)

  abbrev pub rescheduled_row : Appointment → Appointment
  rescheduled_row a = record a { status = rescheduled }

  abbrev pub moved_request : Appointment → BookRequest → BookRequest
  moved_request a req = record req {
    contact_id = a.contact_id;
    opportunity_id = a.opportunity_id;
    conversation_id =
        if is_some req.conversation_id then req.conversation_id else a.conversation_id;
    attendee_email = none;
    notes = some "Rescheduled appointment";
  }

  abbrev pub linked : ℕ → Appointment → Appointment
  linked old a = record a { rescheduled_from_id = some old }

  abbrev pub cancel_of : Option AppointmentType → Appointment → SchedulingDb → Result (Unit {0})
  cancel_of none a db = ok tt
  cancel_of (some t) a db =
      if non_empty (or_empty a.external_event_id)
      then elim (provider_for ext t db) [
        | err e ↦ err e
        | ok p ↦ cancel_event ext p a.calendar_id (or_empty a.external_event_id)
      ]
      else ok tt

  -- `reschedule`, whose request has the new slot, the key, the conversation and the actor.
  unfoldable pub reschedule :
      (now uuid tenant : ℕ) → Appointment → BookRequest → Action SchedulingDb Appointment
  unfolding book provider_for
  reschedule now uuid tenant a req = do
    raise_when (not (a.status =? booked)) (conflict "appointment is not active")
    modify (save (rescheduled_row a))
    (new, created) ← book now uuid tenant (moved_request a req)
    modify (save (linked a.id new))
    t ← gets (λ db. find (is_type a.appointment_type_id) db.types)
    λ db. (cancel_of t a db, db)
    pure (linked a.id new)
