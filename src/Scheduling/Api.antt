-- ===== src/Scheduling/Api.antt =====
-- services/scheduling/src/scheduling_service/api.py: the routes that change appointments, in their
-- sessions. Audit records, metrics, notices and the calls of the CRM and the notification service
-- that follow a change are left out.
use soomsuite_agent.Prelude.{ℕ, String, Bool, not, ◌&&◌, ◌||◌, Option, none, is_some, opt_eq}
use soomsuite_agent.Errors.{forbidden}
use soomsuite_agent.Security.Principal.{Principal, is_customer}
use soomsuite_agent.Security.Rbac.{appointment_manage, appointment_request}
use soomsuite_agent.Security.ServiceAuth.{RequestContext}
use soomsuite_agent.Security.Policy.{check}
use soomsuite_agent.Store.{Action, raise_when, transaction, ◌>>=◌, ◌>>◌}
use soomsuite_agent.Scheduling.Service.{Appointment, SchedulingDb, SchedulingExternals}
use soomsuite_agent.Scheduling.Bookings.{BookRequest, book, get_owned, cancel, reschedule}

-- `_can_manage`
unfoldable pub can_manage : RequestContext → Bool
unfolding check
can_manage ctx = (check ctx appointment_manage none none).allowed

-- The condition of `_require_request_or_manage`.
unfoldable pub may_use : RequestContext → Bool
unfolding check can_manage
may_use ctx = can_manage ctx || (check ctx appointment_request none none).allowed

-- `p.is_customer and p.contact_id and p.contact_id != body.contact_id`
unfoldable pub is_for_another : Principal → Option ℕ → Bool
unfolding is_customer
is_for_another p contact_id =
    is_customer p && is_some p.contact_id && not (opt_eq p.contact_id contact_id)

module _ (ext : SchedulingExternals) where
  -- `book`
  unfoldable pub book_route :
      (now uuid : ℕ) → RequestContext → BookRequest → Action SchedulingDb (Appointment × Bool)
  unfolding book
  book_route now uuid ctx req = do
    raise_when (not (may_use ctx)) (forbidden "")
    raise_when (is_for_another ctx.principal req.contact_id) (forbidden "")
    transaction (book ext now uuid ctx.principal.tenant_id req)

  -- `_owned`
  unfoldable pub owned_by : RequestContext → ℕ → Option ℕ → Action SchedulingDb Appointment
  unfolding get_owned
  owned_by ctx id conversation_id =
      get_owned ext id ctx.principal.contact_id conversation_id (can_manage ctx)

  unfoldable pub cancel_session :
      ℕ → RequestContext → ℕ → Option ℕ → String → Action SchedulingDb Appointment
  unfolding owned_by cancel
  cancel_session now ctx id conversation_id reason = do
    a ← owned_by ctx id conversation_id
    cancel ext now a reason

  -- `cancel`
  unfoldable pub cancel_route :
      ℕ → RequestContext → ℕ → Option ℕ → String → Action SchedulingDb Appointment
  unfolding cancel_session
  cancel_route now ctx id conversation_id reason = do
    raise_when (not (may_use ctx)) (forbidden "")
    transaction (cancel_session now ctx id conversation_id reason)

  unfoldable pub reschedule_session :
      (now uuid : ℕ) → RequestContext → ℕ → BookRequest → Action SchedulingDb Appointment
  unfolding owned_by reschedule
  reschedule_session now uuid ctx id req = do
    a ← owned_by ctx id req.conversation_id
    reschedule ext now uuid ctx.principal.tenant_id a req

  -- `reschedule`
  unfoldable pub reschedule_route :
      (now uuid : ℕ) → RequestContext → ℕ → BookRequest → Action SchedulingDb Appointment
  unfolding reschedule_session
  reschedule_route now uuid ctx id req = do
    raise_when (not (may_use ctx)) (forbidden "")
    transaction (reschedule_session now uuid ctx id req)
