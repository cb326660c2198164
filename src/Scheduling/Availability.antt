-- ===== src/Scheduling/Availability.antt =====
-- services/scheduling/src/scheduling_service/service.py: the availability of `SchedulingService`,
-- which offers slots under signed tokens. How a slot is displayed is left out; the rules that
-- `_rules` merges are an argument.
use soomsuite_agent.Prelude.{
  ℕ, ◌+◌, ◌*◌, min, String, Bool, not, ◌&&◌, Option, none, some, List, ◌++◌, map, if◌then◌else◌,
  find, str_eq,
}
use soomsuite_agent.Errors.{Result, ok, err, or_raise, not_found, validation_failed, ◌>>=◌}
use soomsuite_agent.Security.Crypto.{sign_token}
use soomsuite_agent.Scheduling.Slots.{
  Range, BookingRules, Clock, day_seconds, minutes, candidate_slots,
}
use soomsuite_agent.Scheduling.Spread.{spread}
use soomsuite_agent.Scheduling.Service.{
  AppointmentType, SchedulingDb, SlotClaims, SchedulingExternals, db_busy,
}
use soomsuite_agent.Scheduling.Providers.{provider_for, provider_busy}

pub record AvailabilityRequest : Type 0 where
  pub appointment_type : String
  pub timezone : String
  pub earliest : Option ℕ
  pub days : ℕ
  pub max_slots : ℕ
  pub conversation_id : Option ℕ

pub record SlotOffer : Type 0 where
  pub slot_token : String
  pub starts_at : ℕ
  pub ends_at : ℕ

module _ (ext : SchedulingExternals) where
  abbrev is_active_code : String → AppointmentType → Bool
  is_active_code code t = str_eq t.code code && t.active

  -- `_type`
  unfoldable pub type_of : String → SchedulingDb → Result AppointmentType
  type_of code db =
      or_raise (find (is_active_code code) db.types) (not_found "unknown appointment type")

  -- The payload of a slot token.
  abbrev pub offer_claims :
      (tenant exp : ℕ) → AppointmentType → AvailabilityRequest → Range → SlotClaims
  offer_claims tenant exp t req r = record {
    tenant = tenant;
    type_id = t.id;
    calendar = t.calendar_id;
    starts = r.starts;
    ends = r.ends;
    tz = req.timezone;
    conversation = req.conversation_id;
    exp = exp;
  }

  unfoldable pub offer :
      (tenant exp : ℕ) → AppointmentType → AvailabilityRequest → Range → SlotOffer
  unfolding sign_token
  offer tenant exp t req r = record {
    slot_token = sign_token ext.codec ext.slot_key (offer_claims tenant exp t req r);
    starts_at = r.starts;
    ends_at = r.ends;
  }

  unfoldable pub offers :
      (tenant exp : ℕ)
      → AppointmentType
      → AvailabilityRequest
      → Option (List Range)
      → Option (List SlotOffer)
  unfolding offer spread
  offers tenant exp t req none = none
  offers tenant exp t req (some slots) =
      some (map (offer tenant exp t req) (spread slots req.max_slots))

  module _ (clock : Clock) (rules_of : AppointmentType → BookingRules) (offer_ttl : ℕ) where
    abbrev pub horizon : ℕ → AppointmentType → AvailabilityRequest → ℕ
    horizon now t req = now + min req.days (rules_of t).max_days_ahead * day_seconds

    unfoldable pub slots_for :
        ℕ → AppointmentType → AvailabilityRequest → List Range → Result (Option (List Range))
    unfolding candidate_slots
    slots_for now t req busy =
        candidate_slots clock (rules_of t) (minutes t.duration_minutes) (minutes t.buffer_minutes)
          now req.earliest req.days busy

    -- `availability`, whose value is `none` where the search for slots does not end.
    unfoldable pub availability :
        (tenant now : ℕ) → AvailabilityRequest → SchedulingDb → Result (Option (List SlotOffer))
    unfolding type_of provider_for db_busy offers slots_for
    availability tenant now req db =
        if not (clock.has_zone req.timezone) then err (validation_failed "unknown timezone") else do
          t ← type_of req.appointment_type db
          p ← provider_for ext t db
          remote ← provider_busy ext p t.calendar_id now (horizon now t req)
          slots ←
              slots_for now t req (remote ++ db_busy t.calendar_id now (horizon now t req) none db)
          ok (offers tenant (now + offer_ttl) t req slots)
