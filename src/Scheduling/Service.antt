-- ===== src/Scheduling/Service.antt =====
-- services/scheduling/src/scheduling_service/service.py: `SchedulingService`, in the session of one
-- tenant. A text that `isoformat` gives stands for its time; the calendar providers are parameters,
-- and so is what the process keeps in its cache of them. Times count from long before any
-- appointment, so that no buffer reaches back behind their start.
use soomsuite_agent.Prelude.{
  ℕ, String, Bool, not, ◌&&◌, ◌||◌, Option, some, List, str_eq, leb, ◌==◌, opt_eq, any, keep, map,
  ◌=?◌,
}
use soomsuite_agent.Errors.{Result}
use soomsuite_agent.Schemas.Scheduling.{AppointmentStatus, appointment_status_enum, booked}
use soomsuite_agent.Security.Crypto.{TokenCodec}
use soomsuite_agent.Scheduling.Slots.{Range, overlaps}

-- The columns of an appointment type that bookings read.
pub record AppointmentType : Type 0 where
  pub id : ℕ
  pub code : String
  pub name : String
  pub duration_minutes : ℕ
  pub buffer_minutes : ℕ
  pub calendar_integration_id : Option ℕ
  pub calendar_id : String
  pub active : Bool

pub record Appointment : Type 0 where
  pub id : ℕ
  pub appointment_type_id : ℕ
  pub contact_id : Option ℕ
  pub opportunity_id : Option ℕ
  pub conversation_id : Option ℕ
  pub provider : String
  pub calendar_id : String
  pub external_event_id : Option String
  pub starts_at : ℕ
  pub ends_at : ℕ
  pub timezone : String
  pub status : AppointmentStatus
  pub idempotency_key : String
  pub rescheduled_from_id : Option ℕ
  pub created_by_type : String
  pub created_by_id : String
  pub cancelled_at : Option ℕ
  pub cancellation_reason : Option String

pub record Integration : Type 0 where
  pub id : ℕ
  pub kind : String
  pub status : String
  pub secret_ref : Option String

pub record SchedulingDb : Type 0 where
  pub types : List AppointmentType
  pub integrations : List Integration
  pub appointments : List Appointment

-- The payload of a slot token: `t`, `at`, `c`, `s`, `e`, `tz`, `cv` and `exp`.
pub record SlotClaims : Type 0 where
  pub tenant : ℕ
  pub type_id : ℕ
  pub calendar : String
  pub starts : ℕ
  pub ends : ℕ
  pub tz : String
  pub conversation : Option ℕ
  pub exp : ℕ

pub data Provider : Type 0 where
  local : Provider
  google microsoft365 : (creds : String) → Provider

abbrev pub provider_name : Provider → String
provider_name local = "local"
provider_name (google _) = "google"
provider_name (microsoft365 _) = "microsoft365"

-- What is written to the calendar.
pub record EventSpec : Type 0 where
  pub event_key : String
  pub summary : String
  pub description : String
  pub starts_at : ℕ
  pub ends_at : ℕ
  pub timezone : String
  pub attendee_email : Option String

-- Tokens, secrets and the calls of the calendar providers; `hex` is that of a UUID.
pub record SchedulingExternals : Type 0 where
  pub codec : TokenCodec SlotClaims
  pub slot_key : String
  pub hex : ℕ → String
  pub secret : String → Result String
  pub cached : ℕ → Option Provider
  pub remote_busy : Provider → String → ℕ → ℕ → Result (List Range)
  pub remote_create : Provider → String → EventSpec → Result String
  pub remote_cancel : Provider → String → String → Result (Unit {0})

abbrev pub is_type : ℕ → AppointmentType → Bool
is_type id t = t.id == id

abbrev pub has_id : ℕ → Appointment → Bool
has_id id a = a.id == id

abbrev pub has_key : String → Appointment → Bool
has_key key a = str_eq a.idempotency_key key

abbrev pub is_integration : ℕ → Integration → Bool
is_integration id i = i.id == id

abbrev pub range_of : Appointment → Range
range_of a = record { starts = a.starts_at; ends = a.ends_at }

-- The condition of the query of `_db_busy`.
abbrev pub is_busy : String → ℕ → ℕ → Option ℕ → Appointment → Bool
is_busy calendar start finish exclude a =
    str_eq a.calendar_id calendar
    && (a.status =? booked)
    && overlaps a.starts_at a.ends_at start finish
    && not (opt_eq (some a.id) exclude)

-- `_db_busy`
unfoldable pub db_busy : String → ℕ → ℕ → Option ℕ → SchedulingDb → List Range
db_busy calendar start finish exclude db =
    map range_of (keep (is_busy calendar start finish exclude) db.appointments)

-- Two bookings of one calendar that meet: `ex_appointments_no_overlap` refuses the second.
abbrev pub clashes : Appointment → Appointment → Bool
clashes a b =
    str_eq a.calendar_id b.calendar_id
    && (a.status =? booked)
    && (b.status =? booked)
    && overlaps a.starts_at a.ends_at b.starts_at b.ends_at

-- The constraints of the table that an insert may violate.
abbrev pub violates : Appointment → List Appointment → Bool
violates a rows =
    leb a.ends_at a.starts_at
    || any (has_id a.id) rows
    || any (has_key a.idempotency_key) rows
    || any (clashes a) rows
