-- ===== src/Scheduling/Trace.antt =====
-- The routes of services/scheduling over time: any sequence of calls.
use soomsuite_agent.Prelude.{
  All, arith, ℕ, ◌≡◌, refl, ap, String, Bool, true, false, not, Option, none, some, List, [], ◌∷◌,
  find,
}
use soomsuite_agent.Errors.{PlatformError, Result, ok, err, forbidden}
use soomsuite_agent.Store.{Action, transaction, raise_when, bind-ok, ◌>>=◌, ◌>>◌}
use soomsuite_agent.Security.ServiceAuth.{RequestContext}
use soomsuite_agent.Scheduling.Service.{
  AppointmentType, Appointment, SchedulingDb, SchedulingExternals, has_id,
}
use soomsuite_agent.Scheduling.Bookings.{BookRequest, owned, get_owned, book, cancel, reschedule}
use soomsuite_agent.Scheduling.Lawful.{IsLawful}
use soomsuite_agent.Scheduling.Calendar.{
  IsDated, IsCalendar, book-IsLawful, cancel-IsLawful, reschedule-IsLawful,
}
use soomsuite_agent.Scheduling.Api.{
  can_manage, may_use, is_for_another, book_route, owned_by, cancel_session, cancel_route,
  reschedule_session, reschedule_route,
}

pub data Call : Type 0 where
  book_call : (now uuid : ℕ) (ctx : RequestContext) (req : BookRequest) → Call
  cancel_call :
      (now : ℕ) (ctx : RequestContext) (id : ℕ) (conversation_id : Option ℕ) (reason : String)
      → Call
  reschedule_call : (now uuid : ℕ) (ctx : RequestContext) (id : ℕ) (req : BookRequest) → Call

module _ (ext : SchedulingExternals) where
  unfoldable pub perform : Call → SchedulingDb → SchedulingDb
  unfolding book_route cancel_route reschedule_route
  perform (book_call now uuid ctx req) db = (book_route ext now uuid ctx req db).1
  perform (cancel_call now ctx id conversation_id reason) db =
      (cancel_route ext now ctx id conversation_id reason db).1
  perform (reschedule_call now uuid ctx id req) db = (reschedule_route ext now uuid ctx id req db).1

  unfoldable pub run : List Call → SchedulingDb → SchedulingDb
  unfolding perform
  run [] db = db
  run (c ∷ cs) db = run cs (perform c db)

  owned-ok :
      (contact_id conversation_id : Option ℕ) (is_staff : Bool) (o : Option Appointment)
      (a : Appointment)
      → owned ext contact_id conversation_id is_staff o ≡ ok a
      → o ≡ some a
  owned-ok contact_id conversation_id is_staff none a h = absurd (cc)
  owned-ok contact_id conversation_id is_staff (some b) a h = ground arith

  owned_by-find :
      (ctx : RequestContext) (id : ℕ) (conversation_id : Option ℕ) (db mid : SchedulingDb)
      (a : Appointment)
      → owned_by ext ctx id conversation_id db ≡ (ok a, mid)
      → (find (has_id id) db.appointments ≡ some a) × (db ≡ mid)
  unfolding owned_by get_owned
  owned_by-find ctx id conversation_id db mid a h =
      let rows = find (has_id id) db.appointments in
      let answer : owned ext ctx.principal.contact_id conversation_id (can_manage ctx) rows ≡ ok a =
        ap (λ (x : Result Appointment × SchedulingDb). x.0) h in
      (
        owned-ok ctx.principal.contact_id conversation_id (can_manage ctx) rows a answer,
        ap (λ (x : Result Appointment × SchedulingDb). x.1) h,
      )

  module _ (types : List AppointmentType) where
    -- A transaction whose success keeps the table lawful keeps it so.
    transaction-IsLawful :
        {A : Type 0} (m : Action SchedulingDb A) (db : SchedulingDb)
        → ((a : A) (db' : SchedulingDb) → m db ≡ (ok a, db') → IsCalendar types db')
        → IsCalendar types db
        → IsCalendar types (transaction m db).1
    unfolding transaction
    transaction-IsLawful {A = A} m db keeps lawful = settled (m db) refl
      where
        settled : (r : Result A × SchedulingDb) → m db ≡ r → IsCalendar types (transaction m db).1
        settled (ok a, db') h = rw h (keeps a db' h)
        settled (err e, db') h = rw h lawful

    -- The session of a route on an appointment keeps the table lawful if what it does with the
    -- appointment does.
    owned-IsLawful :
        (k : Appointment → Action SchedulingDb Appointment) (ctx : RequestContext) (id : ℕ)
        (conversation_id : Option ℕ) (db db' : SchedulingDb) (out : Appointment)
        → ((a : Appointment)
            → find (has_id id) db.appointments ≡ some a
            → k a db ≡ (ok out, db')
            → IsCalendar types db')
        → (owned_by ext ctx id conversation_id >>= k) db ≡ (ok out, db')
        → IsCalendar types db'
    owned-IsLawful k ctx id conversation_id db db' out keeps h =
        let (a, mid, got, rest) = bind-ok (owned_by ext ctx id conversation_id) k db db' out h in
        let (found, same) = owned_by-find ctx id conversation_id db mid a got in
        keeps a found (rw (← same) at rest)

    -- A guard that refuses changes nothing.
    guarded-IsLawful :
        {A : Type 0} (c : Bool) (e : PlatformError) (m : Action SchedulingDb A) (db : SchedulingDb)
        → IsCalendar types (m db).1
        → IsCalendar types db
        → IsCalendar types ((raise_when c e >> m) db).1
    guarded-IsLawful true e m db done lawful = lawful
    guarded-IsLawful false e m db done lawful = done

    perform-IsLawful :
        (c : Call) (db : SchedulingDb) → IsCalendar types db → IsCalendar types (perform c db)
    unfolding perform book_route cancel_route reschedule_route cancel_session reschedule_session
    perform-IsLawful (book_call now uuid ctx req) db lawful =
        let session = transaction (book ext now uuid ctx.principal.tenant_id req) in
        let other = is_for_another ctx.principal req.contact_id in
        guarded-IsLawful (not (may_use ctx)) (forbidden "")
          (raise_when other (forbidden "") >> session) db
          (guarded-IsLawful other (forbidden "") session db
            (transaction-IsLawful (book ext now uuid ctx.principal.tenant_id req) db
              (λ (out, created) db' h.
                (book-IsLawful ext types now uuid ctx.principal.tenant_id req db db' out created h
                  lawful).0)
              lawful)
            lawful)
          lawful
    perform-IsLawful (cancel_call now ctx id conversation_id reason) db lawful =
        guarded-IsLawful (not (may_use ctx)) (forbidden "")
          (transaction (cancel_session ext now ctx id conversation_id reason)) db
          (transaction-IsLawful (cancel_session ext now ctx id conversation_id reason) db
            (λ out db' h.
              owned-IsLawful (λ a. cancel ext now a reason) ctx id conversation_id db db' out
                (λ a found k.
                  cancel-IsLawful ext types now a out reason db db' (has_id id) found k lawful)
                h)
            lawful)
          lawful
    perform-IsLawful (reschedule_call now uuid ctx id req) db lawful =
        guarded-IsLawful (not (may_use ctx)) (forbidden "")
          (transaction (reschedule_session ext now uuid ctx id req)) db
          (transaction-IsLawful (reschedule_session ext now uuid ctx id req) db
            (λ out db' h.
              owned-IsLawful (λ a. reschedule ext now uuid ctx.principal.tenant_id a req) ctx id
                req.conversation_id db db' out
                (λ a found k.
                  reschedule-IsLawful ext types now uuid ctx.principal.tenant_id a out req db db'
                    (has_id id) found k lawful)
                h)
            lawful)
          lawful

    run-IsCalendar :
        (cs : List Call) (db : SchedulingDb) → IsCalendar types db → IsCalendar types (run cs db)
    unfolding run
    run-IsCalendar [] db h = h
    run-IsCalendar (c ∷ cs) db h = run-IsCalendar cs (perform c db) (perform-IsLawful c db h)

    -- If every booking keeps the buffer of its type to all earlier bookings of its calendar, no two
    -- bookings of one calendar overlap, identifiers and idempotency keys are unique, and exactly the
    -- cancelled appointments have a time of cancellation, then this stays so, however appointments
    -- are booked, cancelled and rescheduled.
    pub run-IsLawful :
        (cs : List Call) (db : SchedulingDb)
        → db.types ≡ types
        → IsLawful types db.appointments
        → All IsDated db.appointments
        → IsLawful types (run cs db).appointments × All IsDated (run cs db).appointments
    run-IsLawful cs db same lawful dated =
        let kept = run-IsCalendar cs db (same, lawful, dated) in (kept.1, kept.2)
