-- ===== src/Scheduling/Offers.antt =====
-- The slots of services/scheduling/src/scheduling_service/slots.py: what every slot of the answer
-- satisfies, and when the loops end.
use soomsuite_agent.Prelude.{
  ℕ, zero, suc, ◌+◌, ◌*◌, ◌≤◌, ◌≡◌, ◌⊎◌, inl, inr, true, false, not, ◌&&◌, Option, none, some, List,
  [], ◌∷◌, ◌++◌, refl, subst, ltb, leb, any, All, All-append, Bool-cases, Option-cases, and_true,
  or_false, leb→le, arith,
}
use soomsuite_agent.Errors.{ok, err}
use soomsuite_agent.Scheduling.Slots.{
  Range, Window, BookingRules, Clock, weekday, day_seconds, Search, slot_at, is_taken, is_free,
  window_loop, windows, is_holiday, day_slots, days_loop, search, candidate_slots,
}

-- One of a list.
pub data Among {A : Type 0} (a : A) : List A → Type 0 where
  here : (xs : List A) → Among a (a ∷ xs)
  there : (x : A) (xs : List A) → Among a xs → Among a (x ∷ xs)

-- The window keeps its distance, the buffer, from a range that is taken.
abbrev pub IsClear : Search → Range → Range → Type 0
IsClear q r b = (b.ends + q.buffer ≤ r.starts) ⊎ (r.ends + q.buffer ≤ b.starts)

module _ (clock : Clock) where
  -- What the search asks of a slot.
  abbrev pub IsFree : Search → Range → Type 0
  IsFree q r = (q.start_bound ≤ r.starts) × (r.ends ≤ q.horizon) × All (IsClear q r) q.busy

  -- The slot fills the appointment's time on the zone's clock, inside a working window of the day.
  abbrev pub IsWithin : Search → ℕ → Window → Range → Type 0
  IsWithin q day w r =
      (cursor : ℕ) × (day * day_seconds + w.opens ≤ cursor)
      × (cursor + q.duration ≤ day * day_seconds + w.closes)
      × (r ≡ slot_at clock q cursor)

  abbrev pub IsOffer : BookingRules → Search → Range → Type 0
  IsOffer rules q r =
      (day : ℕ) × (w : Window) × (is_holiday clock rules day ≡ false)
      × Among w (rules.working_hours (weekday day))
      × IsWithin q day w r
      × IsFree q r

  is_taken-IsClear : (q : Search) (r b : Range) → is_taken clock q r b ≡ false → IsClear q r b
  is_taken-IsClear q r b h = ground arith

  any-IsClear :
      (q : Search) (r : Range) (bs : List Range)
      → any (is_taken clock q r) bs ≡ false
      → All (IsClear q r) bs
  any-IsClear q r [] h = tt
  any-IsClear q r (b ∷ bs) h =
      let split = or_false (is_taken clock q r b) (any (is_taken clock q r) bs) h in
      (is_taken-IsClear q r b split.0, any-IsClear q r bs split.1)

  is_free-IsFree : (q : Search) (r : Range) → is_free clock q r ≡ true → IsFree q r
  is_free-IsFree q r h =
      let bounds = leb q.start_bound r.starts && leb r.ends q.horizon in
      let taken = any (is_taken clock q r) q.busy in
      let outer = and_true bounds (not taken) h in
      let inner = and_true (leb q.start_bound r.starts) (leb r.ends q.horizon) outer.0 in
      let open_time : taken ≡ false = ground arith in
      (
        leb→le q.start_bound r.starts inner.0,
        leb→le r.ends q.horizon inner.1,
        any-IsClear q r q.busy open_time,
      )

  module _ (q : Search) (P : Range → Type 0) where
    -- What holds of a window's slots that are free holds of the loop's answer.
    window_loop-All :
        (day : ℕ) (w : Window)
        → ((cursor : ℕ)
            → day * day_seconds + w.opens ≤ cursor
            → cursor + q.duration ≤ day * day_seconds + w.closes
            → is_free clock q (slot_at clock q cursor) ≡ true
            → P (slot_at clock q cursor))
        → (fuel cursor : ℕ) (out : List Range) → day * day_seconds + w.opens ≤ cursor
        → window_loop clock q (day * day_seconds + w.closes) fuel cursor ≡ some out
        → All P out
    unfolding window_loop
    window_loop-All day w holds zero cursor out from h = cc
    window_loop-All day w holds (suc n) cursor out from h =
        let w1 = day * day_seconds + w.closes in
        elim (Bool-cases (leb (cursor + q.duration) w1)) [
          | inr late ↦
              let e : some [] ≡ some out = rw late at h in
              let eq : [] ≡ out = cc in subst (All P) eq tt
          | inl fits ↦ elim (Option-cases (window_loop clock q w1 n (cursor + q.step))) [
            | inl lost ↦ let e : none ≡ some out = rw (fits, lost) at h in absurd (cc)
            | inr (rest, got) ↦
                let later =
                  window_loop-All day w holds n (cursor + q.step) rest (omega (arith, from)) got in
                elim (Bool-cases (is_free clock q (slot_at clock q cursor))) [
                  | inl free ↦
                      let e : some (slot_at clock q cursor ∷ rest) ≡ some out =
                        rw (fits, got, free) at h in
                      let eq : slot_at clock q cursor ∷ rest ≡ out = cc in
                      subst (All P) eq
                        (holds cursor from (leb→le (cursor + q.duration) w1 fits) free, later)
                  | inr taken ↦
                      let e : some rest ≡ some out = rw (fits, got, taken) at h in
                      let eq : rest ≡ out = cc in subst (All P) eq later
                ]
          ]
        ]

    windows-All :
        (day : ℕ) (ws : List Window)
        → ((w : Window)
            → Among w ws
            → (cursor : ℕ) → day * day_seconds + w.opens ≤ cursor
            → cursor + q.duration ≤ day * day_seconds + w.closes
            → is_free clock q (slot_at clock q cursor) ≡ true
            → P (slot_at clock q cursor))
        → (out : List Range) → windows clock q day ws ≡ some out
        → All P out
    unfolding windows
    windows-All day [] holds out h = let eq : [] ≡ out = cc in subst (All P) eq tt
    windows-All day (w ∷ ws) holds out h =
        let base = day * day_seconds in
        let first =
          window_loop clock q (base + w.closes) (suc (suc (base + w.closes))) (base + w.opens) in
        elim (Option-cases first) [
          | inl lost ↦ let e : none ≡ some out = rw lost at h in absurd (cc)
          | inr (xs, got) ↦ elim (Option-cases (windows clock q day ws)) [
            | inl lost ↦ let e : none ≡ some out = rw (got, lost) at h in absurd (cc)
            | inr (ys, rest) ↦
                let e : some (xs ++ ys) ≡ some out = rw (got, rest) at h in
                let eq : xs ++ ys ≡ out = cc in
                subst (All P) eq (
                  All-append P xs ys
                    (window_loop-All day w (holds w (here ws)) (suc (suc (base + w.closes)))
                      (base + w.opens) xs (omega arith) got)
                    (windows-All day ws (λ w' at. holds w' (there w ws at)) ys rest))
          ]
        ]

    days_loop-All :
        (rules : BookingRules)
        → ((day : ℕ) (day_out : List Range)
            → day_slots clock rules q day ≡ some day_out
            → All P day_out)
        → (fuel day : ℕ) (out : List Range) → days_loop clock rules q fuel day ≡ some out
        → All P out
    unfolding days_loop
    days_loop-All rules holds zero day out h = cc
    days_loop-All rules holds (suc n) day out h =
        elim (Bool-cases (ltb (clock.utc q.tz (day * day_seconds)) q.horizon)) [
          | inr late ↦
              let e : some [] ≡ some out = rw late at h in
              let eq : [] ≡ out = cc in subst (All P) eq tt
          | inl early ↦ elim (Option-cases (day_slots clock rules q day)) [
            | inl lost ↦ let e : none ≡ some out = rw (early, lost) at h in absurd (cc)
            | inr (xs, got) ↦ elim (Option-cases (days_loop clock rules q n (suc day))) [
              | inl lost ↦ let e : none ≡ some out = rw (early, got, lost) at h in absurd (cc)
              | inr (ys, rest) ↦
                  let e : some (xs ++ ys) ≡ some out = rw (early, got, rest) at h in
                  let eq : xs ++ ys ≡ out = cc in
                  subst (All P) eq (
                    All-append P xs ys (holds day xs got)
                      (days_loop-All rules holds n (suc day) ys rest))
            ]
          ]
        ]

  day_slots-IsOffer :
      (rules : BookingRules) (q : Search) (day : ℕ) (out : List Range)
      → day_slots clock rules q day ≡ some out
      → All (IsOffer rules q) out
  unfolding day_slots
  day_slots-IsOffer rules q day out h = elim (Bool-cases (is_holiday clock rules day)) [
    | inl holiday ↦
        let e : some [] ≡ some out = rw holiday at h in
        let eq : [] ≡ out = cc in subst (All (IsOffer rules q)) eq tt
    | inr working ↦
        windows-All q (IsOffer rules q) day (rules.working_hours (weekday day))
          (λ w at cursor from to free. (
            day,
            w,
            working,
            at,
            (cursor, from, to, refl),
            is_free-IsFree q (slot_at clock q cursor) free,
          ))
          out (rw working at h)
  ]

  -- Every slot of the answer lies, on the zone's clock, within a working window of a day that is no
  -- holiday and takes exactly the appointment's duration there; it starts no sooner than the notice
  -- and the earliest time allow, ends by the horizon, and keeps the buffer from every range that is
  -- taken.
  pub candidate_slots-IsOffer :
      (rules : BookingRules) (duration buffer now : ℕ) (earliest : Option ℕ) (days : ℕ)
      (busy : List Range) (out : List Range)
      → candidate_slots clock rules duration buffer now earliest days busy ≡ ok (some out)
      → All (IsOffer rules (search rules duration buffer now earliest days busy)) out
  unfolding candidate_slots
  candidate_slots-IsOffer rules duration buffer now earliest days busy out h =
      let q = search rules duration buffer now earliest days busy in
      elim (Bool-cases (clock.has_zone rules.business_timezone)) [
        | inr unknown ↦ let e : err _ ≡ ok (some out) = rw unknown at h in absurd (cc)
        | inl known ↦
            let e : ok (
                  days_loop clock rules q (suc (suc q.horizon))
                    (clock.local_day q.tz q.start_bound))
                ≡ ok (some out) =
              rw known at h in
            let run : days_loop clock rules q (suc (suc q.horizon))
                  (clock.local_day q.tz q.start_bound)
                ≡ some out =
              cc in
            days_loop-All q (IsOffer rules q) rules (day_slots-IsOffer rules q)
              (suc (suc q.horizon)) (clock.local_day q.tz q.start_bound) out run
      ]
