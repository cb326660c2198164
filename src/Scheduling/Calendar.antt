-- ===== src/Scheduling/Calendar.antt =====
-- The appointments of services/scheduling over time: any sequence of calls, in their transactions.
use soomsuite_agent.Prelude.{
  ℕ, ◌+◌, ◌-◌, true, false, none, List, ◌&&◌, All, All-append, is_some, =?→eq, ==_iff, arith,
  str_eq, ◌≡◌, refl, sym, ap, ◌∙◌, subst, inl, inr, String, Bool, some, [], ◌∷◌, ◌++◌, ==_refl,
  Bool-cases, find, ◌=?◌,
}
use soomsuite_agent.Errors.{ok, Result-cases}
use soomsuite_agent.Schemas.Scheduling.{appointment_status_enum, booked, cancelled, rescheduled}
use soomsuite_agent.Store.{gets, ◌>>=◌, find-append_new, find-key, All-find, All-update_first}
use soomsuite_agent.Scheduling.Slots.{minutes, overlaps}
use soomsuite_agent.Scheduling.Service.{
  AppointmentType, Appointment, SchedulingDb, SchedulingExternals, has_id, has_key, is_type,
  is_busy,
}
use soomsuite_agent.Scheduling.Bookings.{
  BookRequest, save, new_row, with_event, cancelled_row, rescheduled_row, moved_request, linked,
  provider_of_type, cancel_external, cancel_of, book, cancel, reschedule,
}
use soomsuite_agent.Scheduling.Booked.{violates-false, book-IsBooked}
use soomsuite_agent.Scheduling.Lawful.{
  buffer_of, near, IsLawful, append-IsLawful, save-IsLawful, closed-IsRevision, any-find,
}

-- An appointment is cancelled exactly if it has a time of cancellation.
abbrev pub IsDated : Appointment → Type 0
IsDated a = (a.status =? cancelled) ≡ is_some a.cancelled_at

-- The types are these, the table is lawful for them, and its rows are dated.
abbrev pub IsCalendar : List AppointmentType → SchedulingDb → Type 0
IsCalendar types db =
    (db.types ≡ types) × IsLawful types db.appointments × All IsDated db.appointments

rescheduled-IsDated :
    (a : Appointment)
    → (a.status =? booked) ≡ true
    → IsDated a
    → (rescheduled =? cancelled) ≡ is_some a.cancelled_at
rescheduled-IsDated a active dated =
    let is_booked = =?→eq a.status booked active in rw is_booked at dated

type_of_id :
    (types : List AppointmentType) (t : AppointmentType) (id : ℕ)
    → find (is_type id) types ≡ some t
    → find (is_type t.id) types ≡ some t
type_of_id types t id found =
    let same : t.id ≡ id = (==_iff t.id id).0 (find-key (is_type id) types t found) in
    subst (λ k. find (is_type k) types ≡ some t) (sym same) found

module _ (ext : SchedulingExternals) (types : List AppointmentType) where
  -- What is not busy for a new appointment is not near it.
  apart_of_free :
      (row : Appointment) (gap : ℕ) (rows : List Appointment)
      → gap ≡ buffer_of types row
      → All
          (λ a. is_busy row.calendar_id (row.starts_at - gap) (row.ends_at + gap) none a ≡ false)
          rows
      → All (λ a. near types row a ≡ false) rows
  apart_of_free row gap [] e h = tt
  apart_of_free row gap (a ∷ rows) e h = (
    subst
        (λ g.
          (str_eq a.calendar_id row.calendar_id
            && (row.status =? booked)
            && (a.status =? booked)
            && overlaps a.starts_at a.ends_at (row.starts_at - g) (row.ends_at + g))
          ≡ false)
        e
        (not_busy (str_eq a.calendar_id row.calendar_id) (row.status =? booked) (a.status =? booked)
          (overlaps a.starts_at a.ends_at (row.starts_at - gap) (row.ends_at + gap)) h.0),
    apart_of_free row gap rows e h.1,
  )
    where
      not_busy : (a b c d : Bool) → (a && c && d && true) ≡ false → (a && b && c && d) ≡ false
      not_busy a b c d h = ground arith

  -- After a booking, the table is lawful, and the appointment is on record.
  pub book-IsLawful :
      (now uuid tenant : ℕ) (req : BookRequest) (db db' : SchedulingDb) (out : Appointment)
      (created : Bool)
      → book ext now uuid tenant req db ≡ (ok (out, created), db')
      → IsCalendar types db
      → IsCalendar types db'
        × ((test : Appointment → Bool) × (find test db'.appointments ≡ some out))
  book-IsLawful now uuid tenant req db db' out created h lawful =
      elim (book-IsBooked ext now uuid tenant req db db' out created h) [
        | inl (_, found, same) ↦ (
          subst (IsCalendar types) (sym same) lawful,
          (has_key req.idempotency_key, rw same found),
        )
        | inr (_, fresh, c, t, p, _, _, typed, _, added) ↦
            let (event, _, free, accepted, is_row, rows) = added in
            let row = new_row ext uuid t p c req in
            let final = with_event event row in
            let (_, ids, keys, times) = violates-false row db.appointments accepted in
            let known : find (is_type t.id) types ≡ some t =
              subst (λ ts. find (is_type t.id) ts ≡ some t) lawful.0
                (type_of_id db.types t c.type_id typed) in
            let gap : minutes t.buffer_minutes ≡ buffer_of types final = rw known refl in
            let kept : IsLawful types (db.appointments ++ (final ∷ [])) =
              append-IsLawful types db.appointments final ids keys times
                (apart_of_free final (minutes t.buffer_minutes) db.appointments gap free)
                lawful.1 in
            let there : find (has_id uuid) (db.appointments ++ (final ∷ [])) ≡ some final =
              find-append_new (has_id uuid) db.appointments final
                (any-find (has_id uuid) db.appointments ids)
              ∙ rw (==_refl uuid) refl in
            let dated = All-append IsDated db.appointments (final ∷ []) lawful.2 (refl, tt) in
            (rw (rows, is_row) (lawful.0, kept, dated), (has_id uuid, rw (rows, is_row) there))
      ]

  pub cancel-IsLawful :
      (now : ℕ) (a out : Appointment) (reason : String) (db db' : SchedulingDb)
      (test : Appointment → Bool)
      → find test db.appointments ≡ some a
      → cancel ext now a reason db ≡ (ok out, db')
      → IsCalendar types db
      → IsCalendar types db'
  unfolding cancel
  cancel-IsLawful now a out reason db db' test found h lawful =
      let t = find (is_type a.appointment_type_id) db.types in
      elim (Bool-cases (a.status =? booked)) [
        | inr closed ↦ let clash = rw closed at h in absurd (cc)
        | inl active ↦ elim (Result-cases (provider_of_type ext t db)) [
          | inr (e, failed) ↦ let clash = rw (active, ◌>>=◌, gets, failed) at h in absurd (cc)
          | inl (p, got) ↦ elim (Result-cases (cancel_external ext p a)) [
            | inr (e, failed) ↦
                let clash = rw (active, ◌>>=◌, gets, got, failed) at h in absurd (cc)
            | inl (done, cleared) ↦
                let e = rw (active, ◌>>=◌, gets, got, cleared) at h in
                let saved : save (cancelled_row ext now reason a) db ≡ db' = cc in
                subst (IsCalendar types) saved (
                  lawful.0,
                  save-IsLawful types test db.appointments a (cancelled_row ext now reason a) found
                      (closed-IsRevision types a (cancelled_row ext now reason a) refl refl refl)
                      lawful.1,
                  All-update_first IsDated (has_id a.id) db.appointments
                      (cancelled_row ext now reason a) lawful.2 refl,
                )
          ]
        ]
      ]

  pub reschedule-IsLawful :
      (now uuid tenant : ℕ) (a out : Appointment) (req : BookRequest) (db db' : SchedulingDb)
      (test : Appointment → Bool)
      → find test db.appointments ≡ some a
      → reschedule ext now uuid tenant a req db ≡ (ok out, db')
      → IsCalendar types db
      → IsCalendar types db'
  unfolding reschedule
  reschedule-IsLawful now uuid tenant a out req db db' test found h lawful =
      let gone = rescheduled_row ext a in
      let cleared = save gone db in
      let moved = moved_request ext a req in
      elim (Bool-cases (a.status =? booked)) [
        | inr closed ↦ let clash = rw closed at h in absurd (cc)
        | inl active ↦ elim (Result-cases ((book ext now uuid tenant moved cleared).0)) [
          | inr (e, failed) ↦ let clash = rw (active, failed) at h in absurd (cc)
          | inl ((new, created), got) ↦
              let booked_db = (book ext now uuid tenant moved cleared).1 in
              let run : book ext now uuid tenant moved cleared ≡ (ok (new, created), booked_db) =
                ap (λ r. (r, booked_db)) got in
              let first : IsCalendar types cleared = (
                lawful.0,
                save-IsLawful types test db.appointments a gone found
                    (closed-IsRevision types a gone refl refl refl) lawful.1,
                All-update_first IsDated (has_id a.id) db.appointments gone lawful.2 (
                    rescheduled-IsDated a active
                      (All-find IsDated test db.appointments a lawful.2 found)),
              ) in
              let (second, (at, there)) =
                book-IsLawful now uuid tenant moved cleared booked_db new created run first in
              let linked_db = save (linked ext a.id new) booked_db in
              let third : IsCalendar types linked_db = (
                second.0,
                save-IsLawful types at booked_db.appointments new (linked ext a.id new) there
                    (record {
                      same_id = refl;
                      same_key = refl;
                      first = λ b h. h;
                      second = λ b h. h;
                      first_near = λ b h. h;
                      second_near = λ b h. h;
                    })
                    second.1,
                All-update_first IsDated (has_id new.id) booked_db.appointments
                    (linked ext a.id new) second.2
                    (All-find IsDated at booked_db.appointments new second.2 there),
              ) in
              let t = find (is_type a.appointment_type_id) linked_db.types in
              elim (Result-cases (cancel_of ext t a linked_db)) [
                | inr (e, failed) ↦
                    let clash = rw (active, got, ◌>>=◌, gets, failed) at h in absurd (cc)
                | inl (done, ended) ↦
                    let e = rw (active, got, ◌>>=◌, gets, ended) at h in
                    let saved : linked_db ≡ db' = cc in subst (IsCalendar types) saved third
              ]
        ]
      ]
