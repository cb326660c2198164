-- ===== src/Scheduling/Providers.antt =====
-- services/scheduling/src/scheduling_service/service.py: the methods of `SchedulingService` that
-- verify offers and choose a calendar provider, and the local one of providers.py.
use soomsuite_agent.Prelude.{
  ℕ, String, Bool, false, not, ◌||◌, Option, none, some, List, [], str_eq, str_append, non_empty,
  or_empty, ltb, ◌==◌, opt_eq, if◌then◌else◌, find,
}
use soomsuite_agent.Errors.{Result, ok, err, conflict, validation_failed, upstream_unavailable}
use soomsuite_agent.Schemas.Scheduling.{appointment_status_enum}
use soomsuite_agent.Security.Crypto.{verify_token}
use soomsuite_agent.Scheduling.Slots.{Range}
use soomsuite_agent.Scheduling.Service.{
  AppointmentType, Integration, SchedulingDb, SlotClaims, Provider, local, google, microsoft365,
  EventSpec, SchedulingExternals, is_integration,
}

-- `claims.get("cv") and str(conversation_id) != claims["cv"]`
abbrev pub is_foreign : Option ℕ → Option ℕ → Bool
is_foreign none conversation = false
is_foreign (some cv) conversation = not (opt_eq conversation (some cv))

module _ (ext : SchedulingExternals) where
  abbrev pub verify_claims : ℕ → Option ℕ → ℕ → Option SlotClaims → Result SlotClaims
  verify_claims tenant conversation now none = err (validation_failed "invalid slot selection")
  verify_claims tenant conversation now (some c) =
      if not (c.tenant == tenant)
      then err (validation_failed "invalid slot selection")
      else if ltb c.exp now
      then err (conflict "this time slot offer has expired; please request availability again")
      else if is_foreign c.conversation conversation
      then err (validation_failed "slot offer belongs to a different conversation")
      else ok c

  -- `_verify_slot`
  unfoldable pub verify_slot : String → ℕ → Option ℕ → ℕ → Result SlotClaims
  unfolding verify_token
  verify_slot token tenant conversation now =
      verify_claims tenant conversation now (verify_token ext.codec ext.slot_key token)

  abbrev of_creds : String → Result String → Result Provider
  of_creds kind (err e) = err e
  of_creds kind (ok creds) =
      ok (if str_eq kind "calendar.google" then google creds else microsoft365 creds)

  abbrev of_secret : String → Option String → Result Provider
  of_secret kind ref =
      if non_empty (or_empty ref)
      then of_creds kind (ext.secret (or_empty ref))
      else err (upstream_unavailable "calendar credentials are not configured")

  abbrev of_integration : Option Integration → Result Provider
  of_integration none = err (upstream_unavailable "calendar integration unavailable")
  of_integration (some i) =
      if not (str_eq i.status "active")
        || not (str_eq i.kind "calendar.google" || str_eq i.kind "calendar.microsoft365")
      then err (upstream_unavailable "calendar integration unavailable")
      else of_secret i.kind i.secret_ref

  abbrev of_cached : Option Provider → Option Integration → Result Provider
  of_cached none i = of_integration i
  of_cached (some p) i = ok p

  abbrev pub provider_of : Option ℕ → SchedulingDb → Result Provider
  provider_of none db = ok local
  provider_of (some id) db = of_cached (ext.cached id) (find (is_integration id) db.integrations)

  unfoldable pub provider_for : AppointmentType → SchedulingDb → Result Provider
  provider_for t db = provider_of t.calendar_integration_id db

  abbrev pub provider_busy : Provider → String → ℕ → ℕ → Result (List Range)
  provider_busy local calendar start finish = ok []
  provider_busy p calendar start finish = ext.remote_busy p calendar start finish

  abbrev pub create_event : Provider → String → EventSpec → Result String
  create_event local calendar spec = ok (str_append "local-" spec.event_key)
  create_event p calendar spec = ext.remote_create p calendar spec

  abbrev pub cancel_event : Provider → String → String → Result (Unit {0})
  cancel_event local calendar event = ok tt
  cancel_event p calendar event = ext.remote_cancel p calendar event
