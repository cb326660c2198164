-- ===== src/Scheduling/Ends.antt =====
-- The loops of services/scheduling/src/scheduling_service/slots.py: when they end.
use soomsuite_agent.Prelude.{
  ℕ, zero, suc, ◌+◌, ◌*◌, ◌≤◌, ◌≡◌, refl, inl, inr, String, Bool, true, Option, none, some, List,
  [], ◌∷◌, ◌++◌, ltb, leb, Bool-cases, leb→le, ltb→lt, arith,
}
use soomsuite_agent.Errors.{ok}
use soomsuite_agent.Scheduling.Slots.{
  Range, Window, BookingRules, Clock, weekday, day_seconds, Search, slot_at, is_free, add_if,
  concat, window_loop, windows, is_holiday, day_slots, days_loop, search, candidate_slots,
}

-- A zone's clock is ahead of UTC by less than a day.
abbrev pub IsBounded : Clock → Type 0
IsBounded clock = (tz : String) (local : ℕ) → local ≤ clock.utc tz local + day_seconds

-- The loop has ended.
abbrev pub HasEnded : Option (List Range) → Type 0
HasEnded o = (out : List Range) × (o ≡ some out)

add_if-HasEnded :
    (c : Bool) (s : Range) (o : Option (List Range)) → HasEnded o → HasEnded (add_if c s o)
add_if-HasEnded c s o (rest, h) = rw h (_, refl)

concat-HasEnded : (a b : Option (List Range)) → HasEnded a → HasEnded b → HasEnded (concat a b)
concat-HasEnded a b (xs, ha) (ys, hb) = rw (ha, hb) (xs ++ ys, refl)

module _ (clock : Clock) where
  window_loop-HasEnded :
      (q : Search) (w1 fuel cursor : ℕ)
      → 1 ≤ q.step
      → 1 ≤ fuel
      → w1 + 2 ≤ fuel + cursor
      → HasEnded (window_loop clock q w1 fuel cursor)
  unfolding window_loop
  window_loop-HasEnded q w1 zero cursor advances enough bound = absurd (omega (arith, enough))
  window_loop-HasEnded q w1 (suc n) cursor advances enough bound =
      elim (Bool-cases (leb (cursor + q.duration) w1)) [
        | inr late ↦ rw late ([], refl)
        | inl fits ↦
            let in_time = leb→le (cursor + q.duration) w1 fits in
            rw fits (
              add_if-HasEnded (is_free clock q (slot_at clock q cursor)) (slot_at clock q cursor)
                (window_loop clock q w1 n (cursor + q.step))
                (window_loop-HasEnded q w1 n (cursor + q.step) advances
                  (omega (arith, in_time, bound)) (omega (arith, advances, bound))))
      ]

  -- With a step of zero, the loop over a window that has room for the appointment never ends,
  -- whatever fuel it is given.
  pub window_loop_forever :
      (q : Search) (w1 fuel cursor : ℕ)
      → q.step ≡ 0
      → cursor + q.duration ≤ w1
      → window_loop clock q w1 fuel cursor ≡ none
  unfolding window_loop
  window_loop_forever q w1 zero cursor stuck fits = refl
  window_loop_forever q w1 (suc n) cursor stuck fits =
      let later = window_loop_forever q w1 n (cursor + q.step) stuck (omega (arith, stuck, fits)) in
      let room : leb (cursor + q.duration) w1 ≡ true = ground arith in rw (room, later) refl

  windows-HasEnded :
      (q : Search) (day : ℕ) (ws : List Window) → 1 ≤ q.step → HasEnded (windows clock q day ws)
  unfolding windows
  windows-HasEnded q day [] advances = ([], refl)
  windows-HasEnded q day (w ∷ ws) advances =
      let w1 = day * day_seconds + w.closes in
      let w0 = day * day_seconds + w.opens in
      concat-HasEnded (window_loop clock q w1 (suc (suc w1)) w0) (windows clock q day ws)
        (window_loop-HasEnded q w1 (suc (suc w1)) w0 advances (omega arith) (omega arith))
        (windows-HasEnded q day ws advances)

  day_slots-HasEnded :
      (rules : BookingRules) (q : Search) (day : ℕ)
      → 1 ≤ q.step
      → HasEnded (day_slots clock rules q day)
  unfolding day_slots
  day_slots-HasEnded rules q day advances = elim (Bool-cases (is_holiday clock rules day)) [
    | inl holiday ↦ rw holiday ([], refl)
    | inr working ↦ rw working (windows-HasEnded q day (rules.working_hours (weekday day)) advances)
  ]

  days_loop-HasEnded :
      (rules : BookingRules) (q : Search) (fuel day : ℕ)
      → IsBounded clock
      → 1 ≤ q.step
      → 1 ≤ fuel
      → q.horizon + 2 ≤ fuel + day
      → HasEnded (days_loop clock rules q fuel day)
  unfolding days_loop
  days_loop-HasEnded rules q zero day bounded advances enough bound = absurd (omega (arith, enough))
  days_loop-HasEnded rules q (suc n) day bounded advances enough bound =
      elim (Bool-cases (ltb (clock.utc q.tz (day * day_seconds)) q.horizon)) [
        | inr late ↦ rw late ([], refl)
        | inl early ↦
            let before = ltb→lt (clock.utc q.tz (day * day_seconds)) q.horizon early in
            let offset = bounded q.tz (day * day_seconds) in
            rw early (
              concat-HasEnded (day_slots clock rules q day) (days_loop clock rules q n (suc day))
                (day_slots-HasEnded rules q day advances)
                (days_loop-HasEnded rules q n (suc day) bounded advances
                  (omega (arith, before, offset, bound)) (omega (arith, bound))))
      ]

  -- Where zones are ahead of UTC by a day at most, the step is at least a minute and the zone exists,
  -- every loop of the search ends, within the fuel of its definition, and gives a list of slots.
  pub candidate_slots-HasEnded :
      (rules : BookingRules) (duration buffer now : ℕ) (earliest : Option ℕ) (days : ℕ)
      (busy : List Range)
      → IsBounded clock
      → clock.has_zone rules.business_timezone ≡ true
      → 1 ≤ rules.slot_step_minutes
      → (out : List Range) × (candidate_slots clock rules duration buffer now earliest days busy
          ≡ ok (some out))
  unfolding candidate_slots
  candidate_slots-HasEnded rules duration buffer now earliest days busy bounded known advances =
      let q = search rules duration buffer now earliest days busy in
      let day = clock.local_day q.tz q.start_bound in
      let (out, run) =
        days_loop-HasEnded rules q (suc (suc q.horizon)) day bounded (omega (arith, advances))
          (omega arith) (omega arith) in
      (out, rw (known, run) refl)
