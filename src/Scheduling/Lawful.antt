-- ===== src/Scheduling/Lawful.antt =====
-- The table of appointments of services/scheduling: its constraints, as what every two rows satisfy,
-- and that the writes of `SchedulingService` keep them.
use soomsuite_agent.Prelude.{
  ℕ, ◌+◌, ◌-◌, Option, ◌≡◌, refl, sym, subst, inl, inr, str_eq, Bool, true, false, none, some, List,
  [], ◌∷◌, ◌++◌, ◌==◌, ==_refl, ◌&&◌, arith, Bool-cases, any, find, All, All-append, or_false, ◌=?◌,
}
use soomsuite_agent.Schemas.Scheduling.{appointment_status_enum, booked}
use soomsuite_agent.Store.{All-find, All-update_first, update_first}
use soomsuite_agent.Scheduling.Slots.{overlaps, minutes}
use soomsuite_agent.Scheduling.Service.{
  AppointmentType, Appointment, has_id, has_key, is_type, clashes,
}

second_false : (a b c d : Bool) → b ≡ false → (a && b && c && d) ≡ false
second_false a b c d h = ground arith

third_false : (a b c d : Bool) → c ≡ false → (a && b && c && d) ≡ false
third_false a b c d h = ground arith

pub any-find :
    (test : Appointment → Bool) (rows : List Appointment)
    → any test rows ≡ false
    → find test rows ≡ none
any-find test [] h = refl
any-find test (r ∷ rows) h =
    let (this, rest) = or_false (test r) (any test rows) h in rw this (any-find test rows rest)

abbrev pub seconds_of : Option AppointmentType → ℕ
seconds_of none = 0
seconds_of (some t) = minutes t.buffer_minutes

module _ (types : List AppointmentType) where
  -- The buffer of an appointment's type, in seconds.
  abbrev pub buffer_of : Appointment → ℕ
  buffer_of a = seconds_of (find (is_type a.appointment_type_id) types)

  abbrev pub is_close : Appointment → Appointment → Bool
  is_close b a =
      overlaps a.starts_at a.ends_at (b.starts_at - buffer_of b) (b.ends_at + buffer_of b)

  -- A booking that another of its calendar comes closer to than its buffer.
  abbrev pub near : Appointment → Appointment → Bool
  near b a =
      str_eq a.calendar_id b.calendar_id
      && (b.status =? booked)
      && (a.status =? booked)
      && is_close b a

  -- An earlier and a later row: they differ in their identifier and in their idempotency key, are not
  -- two bookings of one calendar that overlap, and the earlier is not within the buffer of the later.
  pub record IsApart (a b : Appointment) : Type 0 where
    pub ids : has_id b.id a ≡ false
    pub keys : has_key b.idempotency_key a ≡ false
    pub times : clashes b a ≡ false
    pub spaced : near b a ≡ false

  abbrev pub IsLawful : List Appointment → Type 0
  IsLawful [] = Unit
  IsLawful (a ∷ rows) = All (IsApart a) rows × IsLawful rows

  pub append-IsLawful :
      (rows : List Appointment) (a : Appointment)
      → any (has_id a.id) rows ≡ false
      → any (has_key a.idempotency_key) rows ≡ false
      → any (clashes a) rows ≡ false
      → All (λ r. near a r ≡ false) rows
      → IsLawful rows
      → IsLawful (rows ++ (a ∷ []))
  append-IsLawful [] a ids keys times apart h = (tt, tt)
  append-IsLawful (r ∷ rows) a ids keys times apart h =
      let (id, ids') = or_false (has_id a.id r) (any (has_id a.id) rows) ids in
      let (key, keys') =
        or_false (has_key a.idempotency_key r) (any (has_key a.idempotency_key) rows) keys in
      let (time, times') = or_false (clashes a r) (any (clashes a) rows) times in
      (
        All-append (IsApart r) rows (a ∷ []) h.0
            (record { ids = id; keys = key; times = time; spaced = apart.0 }, tt),
        append-IsLawful rows a ids' keys' times' apart.1 h.1,
      )

  -- A new version of a row that clashes with no more rows than the old.
  pub record IsRevision (r x : Appointment) : Type 0 where
    pub same_id : x.id ≡ r.id
    pub same_key : x.idempotency_key ≡ r.idempotency_key
    pub first : (b : Appointment) → clashes r b ≡ false → clashes x b ≡ false
    pub second : (b : Appointment) → clashes b r ≡ false → clashes b x ≡ false
    pub first_near : (b : Appointment) → near r b ≡ false → near x b ≡ false
    pub second_near : (b : Appointment) → near b r ≡ false → near b x ≡ false

  All-IsApart :
      (r x : Appointment) (rows : List Appointment)
      → IsRevision r x
      → All (IsApart r) rows
      → All (IsApart x) rows
  All-IsApart r x [] v h = tt
  All-IsApart r x (b ∷ rows) v h = (
    record {
      ids = subst (λ id. (id == b.id) ≡ false) (sym v.same_id) h.0.ids;
      keys = subst (λ key. str_eq key b.idempotency_key ≡ false) (sym v.same_key) h.0.keys;
      times = v.second b h.0.times;
      spaced = v.second_near b h.0.spaced;
    },
    All-IsApart r x rows v h.1,
  )

  IsApart-revised : (a r x : Appointment) → IsRevision r x → IsApart a r → IsApart a x
  IsApart-revised a r x v h = record {
    ids = subst (λ id. (a.id == id) ≡ false) (sym v.same_id) h.ids;
    keys = subst (λ key. str_eq a.idempotency_key key ≡ false) (sym v.same_key) h.keys;
    times = v.first a h.times;
    spaced = v.first_near a h.spaced;
  }

  -- The flush of a row that was found, by any test, keeps the table lawful.
  pub save-IsLawful :
      (test : Appointment → Bool) (rows : List Appointment) (r x : Appointment)
      → find test rows ≡ some r
      → IsRevision r x
      → IsLawful rows
      → IsLawful (update_first (has_id x.id) (λ _. x) rows)
  save-IsLawful test [] r x found v h = absurd (cc)
  save-IsLawful test (y ∷ rows) r x found v h = elim (Bool-cases (test y)) [
    | inl hit ↦
        let same : some y ≡ some r = rw hit at found in
        let eq : y ≡ r = cc in
        let here : has_id x.id y ≡ true =
          subst (λ (z : Appointment). (z.id == x.id) ≡ true) (sym eq)
            (subst (λ id. (r.id == id) ≡ true) (sym v.same_id) (==_refl r.id)) in
        rw here (All-IsApart r x rows v (subst (λ z. All (IsApart z) rows) eq h.0), h.1)
    | inr miss ↦
        let later = rw miss at found in
        let apart = All-find (IsApart y) test rows r h.0 later in
        let elsewhere : has_id x.id y ≡ false =
          subst (λ id. (y.id == id) ≡ false) (sym v.same_id) apart.ids in
        rw elsewhere (
          All-update_first (IsApart y) (has_id x.id) rows x h.0 (IsApart-revised y r x v apart),
          save-IsLawful test rows r x later v h.1,
        )
  ]

  -- A row that is no longer booked clashes with none.
  pub closed-IsRevision :
      (r x : Appointment)
      → x.id ≡ r.id
      → x.idempotency_key ≡ r.idempotency_key
      → (x.status =? booked) ≡ false
      → IsRevision r x
  closed-IsRevision r x id key closed = record {
    same_id = id;
    same_key = key;
    first = λ b h.
        second_false (str_eq x.calendar_id b.calendar_id) (x.status =? booked) (b.status =? booked)
          (overlaps x.starts_at x.ends_at b.starts_at b.ends_at) closed;
    second = λ b h.
        third_false (str_eq b.calendar_id x.calendar_id) (b.status =? booked) (x.status =? booked)
          (overlaps b.starts_at b.ends_at x.starts_at x.ends_at) closed;
    first_near = λ b h.
        second_false (str_eq b.calendar_id x.calendar_id) (x.status =? booked) (b.status =? booked)
          (is_close x b) closed;
    second_near = λ b h.
        third_false (str_eq x.calendar_id b.calendar_id) (b.status =? booked) (x.status =? booked)
          (is_close b x) closed;
  }
