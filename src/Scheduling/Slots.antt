-- ===== src/Scheduling/Slots.antt =====
-- services/scheduling/src/scheduling_service/slots.py: the free slots of a calendar. A time is a
-- number of seconds, a local time the number of seconds on the clock of its zone; what a zone's
-- clock shows is a parameter, and a working window stands for the two clock times it is written as.
use soomsuite_agent.Prelude.{
  ℕ, zero, suc, ◌+◌, ◌*◌, min, max, String, Bool, not, ◌&&◌, Option, none, some, List, [], ◌∷◌,
  ◌++◌, str_eq, ltb, leb, if◌then◌else◌, any,
}
use soomsuite_agent.Errors.{Result, ok, err, validation_failed}
use Prim.Native.Nat.{◌%◌}

-- A range of time: a slot, or one that is taken.
pub record Range : Type 0 where
  pub starts : ℕ
  pub ends : ℕ

-- A working window of a day, in seconds after its midnight.
pub record Window : Type 0 where
  pub opens : ℕ
  pub closes : ℕ

pub record BookingRules : Type 0 where
  pub business_timezone : String
  pub working_hours : ℕ → List Window
  pub min_notice_minutes : ℕ
  pub max_days_ahead : ℕ
  pub slot_step_minutes : ℕ
  pub holidays : List String

-- A dictionary of rules: a key that is missing and one that holds `None` are both `none`.
pub record RuleLayer : Type 0 where
  pub business_timezone : Option String
  pub working_hours : Option (ℕ → List Window)
  pub min_notice_minutes : Option ℕ
  pub max_days_ahead : Option ℕ
  pub slot_step_minutes : Option ℕ
  pub holidays : Option (List String)

-- `DEFAULT_HOURS`: nine to five, on the five weekdays.
unfoldable pub default_hours : ℕ → List Window
default_hours weekday =
    if ltb weekday 5 then record { opens = 9 * 3600; closes = 17 * 3600 } ∷ [] else []

module _ {A : Type 0} where
  -- `merged.update` with one key of a layer
  abbrev over : Option A → Option A → Option A
  over old none = old
  over old (some new) = some new

  abbrev or_default : Option A → A → A
  or_default none d = d
  or_default (some a) d = a

abbrev empty_layer : RuleLayer
empty_layer = record {
  business_timezone = none;
  working_hours = none;
  min_notice_minutes = none;
  max_days_ahead = none;
  slot_step_minutes = none;
  holidays = none;
}

abbrev merge_layer : RuleLayer → RuleLayer → RuleLayer
merge_layer m l = record {
  business_timezone = over m.business_timezone l.business_timezone;
  working_hours = over m.working_hours l.working_hours;
  min_notice_minutes = over m.min_notice_minutes l.min_notice_minutes;
  max_days_ahead = over m.max_days_ahead l.max_days_ahead;
  slot_step_minutes = over m.slot_step_minutes l.slot_step_minutes;
  holidays = over m.holidays l.holidays;
}

abbrev merge_layers : RuleLayer → List RuleLayer → RuleLayer
merge_layers m [] = m
merge_layers m (l ∷ ls) = merge_layers (merge_layer m l) ls

-- `BookingRules.from_dicts`
unfoldable pub from_dicts : List RuleLayer → BookingRules
unfolding default_hours
from_dicts layers =
    let m = merge_layers empty_layer layers in
    record {
      business_timezone = or_default m.business_timezone "UTC";
      working_hours = or_default m.working_hours default_hours;
      min_notice_minutes = or_default m.min_notice_minutes 120;
      max_days_ahead = or_default m.max_days_ahead 30;
      slot_step_minutes = or_default m.slot_step_minutes 30;
      holidays = or_default m.holidays [];
    }

-- The time zone database and the calendar of the standard library.
pub record Clock : Type 0 where
  -- `ZoneInfo(name)` exists
  pub has_zone : String → Bool
  -- the time at which the zone's clock shows a local time
  pub utc : String → ℕ → ℕ
  -- the local day, by its ordinal, of a time
  pub local_day : String → ℕ → ℕ
  -- `date.isoformat` of an ordinal
  pub isoformat : ℕ → String

abbrev pub overlaps : ℕ → ℕ → ℕ → ℕ → Bool
overlaps a0 a1 b0 b1 = ltb a0 b1 && ltb b0 a1

abbrev pub minutes : ℕ → ℕ
minutes n = n * 60

abbrev pub day_seconds : ℕ
day_seconds = 86400

-- `date.weekday`
abbrev pub weekday : ℕ → ℕ
weekday day = (day + 6) % 7

-- The arguments of a search, as `candidate_slots` computes them first.
pub record Search : Type 0 where
  pub tz : String
  pub duration : ℕ
  pub buffer : ℕ
  pub start_bound : ℕ
  pub horizon : ℕ
  pub step : ℕ
  pub busy : List Range

abbrev earliest_or : ℕ → Option ℕ → ℕ
earliest_or now none = now
earliest_or now (some e) = e

abbrev pub search : BookingRules → (duration buffer now : ℕ) → Option ℕ → ℕ → List Range → Search
search rules duration buffer now earliest days busy = record {
  tz = rules.business_timezone;
  duration = duration;
  buffer = buffer;
  start_bound = max (now + minutes rules.min_notice_minutes) (earliest_or now earliest);
  horizon = now + min days rules.max_days_ahead * day_seconds;
  step = minutes rules.slot_step_minutes;
  busy = busy;
}

abbrev pub add_if : Bool → Range → Option (List Range) → Option (List Range)
add_if c s none = none
add_if c s (some rest) = some (if c then s ∷ rest else rest)

abbrev pub concat : Option (List Range) → Option (List Range) → Option (List Range)
concat none _ = none
concat (some _) none = none
concat (some xs) (some ys) = some (xs ++ ys)

module _ (clock : Clock) where
  abbrev pub slot_at : Search → ℕ → Range
  slot_at q cursor = record {
    starts = clock.utc q.tz cursor;
    ends = clock.utc q.tz (cursor + q.duration);
  }

  -- `_overlaps(s0 - buffer, s1 + buffer, b0, b1)`, with the buffer added on the other side of the
  -- first comparison.
  abbrev pub is_taken : Search → Range → Range → Bool
  is_taken q s b = overlaps s.starts (s.ends + q.buffer) b.starts (b.ends + q.buffer)

  -- The condition of the innermost `if`.
  abbrev pub is_free : Search → Range → Bool
  is_free q s =
      leb q.start_bound s.starts && leb s.ends q.horizon && not (any (is_taken q s) q.busy)

  -- `while cursor + duration <= w1`, on fuel; `none` is a loop that has not ended.
  unfoldable pub window_loop : Search → ℕ → ℕ → ℕ → Option (List Range)
  window_loop q w1 zero cursor = none
  window_loop q w1 (suc n) cursor =
      let rest = window_loop q w1 n (cursor + q.step) in
      if leb (cursor + q.duration) w1
      then add_if (is_free q (slot_at q cursor)) (slot_at q cursor) rest
      else some []

  -- `for window in …`
  unfoldable pub windows : Search → ℕ → List Window → Option (List Range)
  unfolding window_loop
  windows q day [] = some []
  windows q day (w ∷ ws) =
      concat
        (window_loop q (day * day_seconds + w.closes) (suc (suc (day * day_seconds + w.closes)))
          (day * day_seconds + w.opens))
        (windows q day ws)

  abbrev pub is_holiday : BookingRules → ℕ → Bool
  is_holiday rules day = any (str_eq (clock.isoformat day)) rules.holidays

  -- The body of the loop over the days.
  unfoldable pub day_slots : BookingRules → Search → ℕ → Option (List Range)
  unfolding windows
  day_slots rules q day =
      if is_holiday rules day then some [] else windows q day (rules.working_hours (weekday day))

  -- `while datetime.combine(day, time.min, tz) < horizon`, on fuel
  unfoldable pub days_loop : BookingRules → Search → ℕ → ℕ → Option (List Range)
  unfolding day_slots
  days_loop rules q zero day = none
  days_loop rules q (suc n) day =
      let rest = days_loop rules q n (suc day) in
      if ltb (clock.utc q.tz (day * day_seconds)) q.horizon
      then concat (day_slots rules q day) rest
      else some []

  -- `candidate_slots`, whose value is `none` where a loop does not end.
  unfoldable pub candidate_slots :
      BookingRules
      → (duration buffer now : ℕ) → Option ℕ
      → ℕ
      → List Range
      → Result (Option (List Range))
  unfolding days_loop
  candidate_slots rules duration buffer now earliest days busy =
      let q = search rules duration buffer now earliest days busy in
      if clock.has_zone rules.business_timezone
      then ok (days_loop rules q (suc (suc q.horizon)) (clock.local_day q.tz q.start_bound))
      else err (validation_failed "unknown timezone")
