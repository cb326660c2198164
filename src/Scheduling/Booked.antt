-- ===== src/Scheduling/Booked.antt =====
-- `SchedulingService.book` of services/scheduling/src/scheduling_service/service.py: what a booking
-- that succeeds has seen and done.
use soomsuite_agent.Prelude.{
  ℕ, ◌+◌, ◌-◌, ◌≡◌, refl, sym, ap, ◌∙◌, ◌⊎◌, inl, inr, String, Bool, true, false, ◌||◌, ==_refl,
  leb, Option, none, some, List, [], ◌∷◌, ◌++◌, arith, Bool-cases, Option-cases, is_empty, any,
  find, keep, map, All, or_false,
}
use soomsuite_agent.Errors.{ok, Result-cases}
use soomsuite_agent.Store.{update_first, gets, lift, ◌>>=◌}
use soomsuite_agent.Scheduling.Slots.{minutes}
use soomsuite_agent.Scheduling.Service.{
  AppointmentType, Appointment, SchedulingDb, SlotClaims, Provider, SchedulingExternals, is_type,
  has_id, has_key, range_of, is_busy, db_busy, clashes, violates,
}
use soomsuite_agent.Scheduling.Providers.{verify_slot, provider_for, provider_busy, create_event}
use soomsuite_agent.Scheduling.Bookings.{
  BookRequest, save, append_row, with_event, new_row, spec_of, replayed, active_type, book_free,
  book_new, book,
}

module _ {Row : Type 0} where
  -- The update of a row that was just added changes that row alone.
  pub update_first-append :
      (key : Row → Bool) (f : Row → Row) (rows : List Row) (x : Row)
      → any key rows ≡ false
      → key x ≡ true
      → update_first key f (rows ++ (x ∷ [])) ≡ rows ++ (f x ∷ [])
  update_first-append key f [] x none_has has = rw has refl
  update_first-append key f (r ∷ rows) x none_has has =
      let split = or_false (key r) (any key rows) none_has in
      rw split.0 (ap (λ rest. r ∷ rest) (update_first-append key f rows x split.1 has))

  pub keep_empty :
      {B : Type 0} (p : Row → Bool) (f : Row → B) (rows : List Row)
      → map f (keep p rows) ≡ []
      → All (λ r. p r ≡ false) rows
  keep_empty p f [] h = tt
  keep_empty p f (r ∷ rows) h = elim (Bool-cases (p r)) [
    | inl kept ↦ let e : f r ∷ map f (keep p rows) ≡ [] = rw kept at h in absurd (cc)
    | inr dropped ↦ (dropped, keep_empty p f rows (rw dropped at h))
  ]

append_empty : {A : Type 0} (xs ys : List A) → is_empty (xs ++ ys) ≡ true → (xs ≡ []) × (ys ≡ [])
append_empty [] [] h = (refl, refl)
append_empty [] (y ∷ ys) h = absurd (cc)
append_empty (x ∷ xs) ys h = absurd (cc)

pub violates-false :
    (a : Appointment) (rows : List Appointment)
    → violates a rows ≡ false
    → (leb a.ends_at a.starts_at ≡ false)
      × (any (has_id a.id) rows ≡ false)
      × (any (has_key a.idempotency_key) rows ≡ false)
      × (any (clashes a) rows ≡ false)
violates-false a rows h =
    let ids = any (has_id a.id) rows in
    let keys = any (has_key a.idempotency_key) rows in
    let (first, no_clash) =
      or_false (leb a.ends_at a.starts_at || ids || keys) (any (clashes a) rows) h in
    let (second, no_key) = or_false (leb a.ends_at a.starts_at || ids) keys first in
    let (ordered, no_id) = or_false (leb a.ends_at a.starts_at) ids second in
    (ordered, no_id, no_key, no_clash)

module _ (ext : SchedulingExternals) where
  -- What a booking has added: a row with the offer's times, where neither the provider nor the
  -- table has anything within the buffer, and that no constraint of the table refuses.
  abbrev pub IsAdded :
      ℕ
      → AppointmentType
      → Provider
      → SlotClaims
      → BookRequest
      → SchedulingDb
      → Appointment
      → SchedulingDb
      → Type 0
  IsAdded uuid t p c req db out db' =
      (event : String) × (provider_busy ext p c.calendar (c.starts - minutes t.buffer_minutes)
          (c.ends + minutes t.buffer_minutes)
        ≡ ok [])
      × All
          (λ a.
            is_busy c.calendar (c.starts - minutes t.buffer_minutes)
              (c.ends + minutes t.buffer_minutes) none a
            ≡ false)
          db.appointments
      × (violates (new_row ext uuid t p c req) db.appointments ≡ false)
      × (out ≡ with_event event (new_row ext uuid t p c req))
      × (db' ≡ record db { appointments = db.appointments ++ (out ∷ []) })

  book_free-IsAdded :
      (uuid : ℕ) (t : AppointmentType) (p : Provider) (c : SlotClaims) (req : BookRequest)
      (db db' : SchedulingDb) (out : Appointment) (created : Bool)
      → book_free ext uuid t p c req db ≡ (ok (out, created), db')
      → (created ≡ true) × IsAdded uuid t p c req db out db'
  unfolding book_free db_busy
  book_free-IsAdded uuid t p c req db db' out created h =
      let from = c.starts - minutes t.buffer_minutes in
      let to = c.ends + minutes t.buffer_minutes in
      let row = new_row ext uuid t p c req in
      let others = db_busy c.calendar from to none db in
      elim (Result-cases (provider_busy ext p c.calendar from to)) [
        | inr (e, failed) ↦ let clash = rw failed at h in absurd (cc)
        | inl (busy, got) ↦ elim (Bool-cases (is_empty (busy ++ others))) [
          | inr taken ↦ let clash = rw (got, taken) at h in absurd (cc)
          | inl clear ↦ elim (Bool-cases (violates row db.appointments)) [
            | inl refused ↦ let clash = rw (got, clear, refused) at h in absurd (cc)
            | inr accepted ↦
                elim (Result-cases (create_event ext p c.calendar (spec_of ext t req row))) [
                  | inr (e, failed) ↦
                      let clash = rw (got, clear, accepted, failed) at h in absurd (cc)
                  | inl (event, made) ↦
                      let e = rw (got, clear, accepted, made) at h in
                      let (free, kept) = append_empty busy others clear in
                      let final = with_event event row in
                      let made_new : created ≡ true = cc in
                      let same : out ≡ final = cc in
                      let saved : save final (append_row row db) ≡ db' = cc in
                      let (_, unused, _, _) = violates-false row db.appointments accepted in
                      let rows : db'
                          ≡ record db { appointments = db.appointments ++ (final ∷ []) } =
                        sym saved
                        ∙ ap (λ (rows : List Appointment). record db { appointments = rows })
                            (update_first-append (has_id uuid) (λ _. final) db.appointments row
                              unused (==_refl uuid)) in
                      (
                        made_new,
                        (
                          event,
                          rw free at got,
                          keep_empty (is_busy c.calendar from to none) range_of db.appointments
                              kept,
                          accepted,
                          same,
                          rw same rows,
                        ),
                      )
                ]
          ]
        ]
      ]

  -- What a booking that succeeds has done: it gave back the appointment that has the key, or it
  -- added one, for an offer that verified and an active type.
  abbrev pub IsBooked :
      (now uuid tenant : ℕ)
      → BookRequest
      → SchedulingDb
      → Appointment
      → Bool
      → SchedulingDb
      → Type 0
  IsBooked now uuid tenant req db out created db' =
      ((created ≡ false)
        × (find (has_key req.idempotency_key) db.appointments ≡ some out)
        × (db' ≡ db))
      ⊎ ((created ≡ true)
          × (find (has_key req.idempotency_key) db.appointments ≡ none)
          × (c : SlotClaims) × (t : AppointmentType) × (p : Provider) × (verify_slot ext
                req.slot_token tenant req.conversation_id now
              ≡ ok c)
          × (provider_for ext t db ≡ ok p)
          × (find (is_type c.type_id) db.types ≡ some t)
          × (t.active ≡ true)
          × IsAdded uuid t p c req db out db')

  active_type-ok :
      (o : Option AppointmentType) (t : AppointmentType)
      → active_type ext o ≡ ok t
      → (o ≡ some t) × (t.active ≡ true)
  active_type-ok none t h = absurd (cc)
  active_type-ok (some u) t h = ground arith

  replayed-ok :
      (a : Appointment) (req : BookRequest) (answer : Appointment × Bool)
      → replayed ext a req ≡ ok answer
      → answer ≡ (a, false)
  unfolding replayed
  replayed-ok a req answer h = ground arith

  book_new-IsBooked :
      (now uuid tenant : ℕ) (req : BookRequest) (db db' : SchedulingDb) (out : Appointment)
      (created : Bool)
      → find (has_key req.idempotency_key) db.appointments ≡ none
      → book_new ext now uuid tenant req db ≡ (ok (out, created), db')
      → IsBooked now uuid tenant req db out created db'
  unfolding book_new
  book_new-IsBooked now uuid tenant req db db' out created fresh h =
      elim (Result-cases (verify_slot ext req.slot_token tenant req.conversation_id now)) [
        | inr (e, failed) ↦ let clash = rw failed at h in absurd (cc)
        | inl (c, verified) ↦
            elim (Result-cases (active_type ext (find (is_type c.type_id) db.types))) [
              | inr (e, failed) ↦ let clash = rw (verified, failed) at h in absurd (cc)
              | inl (t, got) ↦ elim (Result-cases (provider_for ext t db)) [
                | inr (e, failed) ↦
                    let clash = rw (verified, got, ◌>>=◌, gets, lift, failed) at h in absurd (cc)
                | inl (p, provided) ↦
                    let run : book_free ext uuid t p c req db ≡ (ok (out, created), db') =
                      rw (verified, got, ◌>>=◌, gets, lift, provided) at h in
                    let (made, added) = book_free-IsAdded uuid t p c req db db' out created run in
                    let (found, active) =
                      active_type-ok (find (is_type c.type_id) db.types) t got in
                    inr (made, fresh, c, t, p, verified, provided, found, active, added)
              ]
            ]
      ]

  -- A booking that succeeds either gives back, unchanged, the appointment that has its key, or adds
  -- one: for a slot that this tenant was offered, for an active type, in a calendar where neither
  -- the provider that is configured for the type nor the table has anything within the type's buffer
  -- of the slot.
  pub book-IsBooked :
      (now uuid tenant : ℕ) (req : BookRequest) (db db' : SchedulingDb) (out : Appointment)
      (created : Bool)
      → book ext now uuid tenant req db ≡ (ok (out, created), db')
      → IsBooked now uuid tenant req db out created db'
  unfolding book
  book-IsBooked now uuid tenant req db db' out created h =
      elim (Option-cases (find (has_key req.idempotency_key) db.appointments)) [
        | inl fresh ↦ book_new-IsBooked now uuid tenant req db db' out created fresh (rw fresh at h)
        | inr (a, known) ↦ elim (Result-cases (replayed ext a req)) [
          | inr (e, failed) ↦ let clash = rw (known, failed) at h in absurd (cc)
          | inl (answer, same) ↦
              let e = rw (known, same) at h in
              let answered : answer ≡ (out, created) = cc in
              let kept : db ≡ db' = cc in
              let kind = replayed-ok a req answer same in
              let first : a ≡ out =
                sym (ap (λ (x : Appointment × Bool). x.0) kind)
                ∙ ap (λ (x : Appointment × Bool). x.0) answered in
              let second : false ≡ created =
                sym (ap (λ (x : Appointment × Bool). x.1) kind)
                ∙ ap (λ (x : Appointment × Bool). x.1) answered in
              inl (sym second, known ∙ ap some first, sym kept)
        ]
      ]
