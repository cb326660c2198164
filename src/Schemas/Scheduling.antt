-- ===== src/Schemas/Scheduling.antt =====
-- packages/platform-core/src/platform_core/schemas/enums.py: the status of an appointment.
use soomsuite_agent.Prelude.{ℕ, ◌≡◌, refl, some, List, [], ◌∷◌, Enum, get_elem?}

pub data AppointmentStatus : Type 0 where
  booked cancelled rescheduled completed no_show failed : AppointmentStatus

abbrev appointment_status_index : AppointmentStatus → ℕ
appointment_status_index booked = 0
appointment_status_index cancelled = 1
appointment_status_index rescheduled = 2
appointment_status_index completed = 3
appointment_status_index no_show = 4
appointment_status_index failed = 5

abbrev pub all_appointment_statuses : List AppointmentStatus
all_appointment_statuses = booked ∷ cancelled ∷ rescheduled ∷ completed ∷ no_show ∷ failed ∷ []

pub appointment_status_index_member :
    (a : AppointmentStatus)
    → get_elem? all_appointment_statuses (appointment_status_index a) ≡ some a
appointment_status_index_member booked = refl
appointment_status_index_member _ = refl

instance abbrev pub appointment_status_enum : Enum AppointmentStatus
appointment_status_enum = record {
  values = all_appointment_statuses;
  index = appointment_status_index;
  index_values = appointment_status_index_member;
}
