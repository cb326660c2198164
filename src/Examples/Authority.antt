-- ===== src/Examples/Authority.antt =====
-- A decision by way of the admin gateway, and the refusal of a caller of the customer side.
use soomsuite_agent.Prelude.{◌≡◌, refl, true, none, some, [], ◌∷◌}
use soomsuite_agent.Security.Principal.{
  Principal, user, security_engineer, tenant_admin, is_customer,
}
use soomsuite_agent.Security.Rbac.{permissions_for, role_permissions, mfa_required}
use soomsuite_agent.Security.Acl.{
  Service, gateway_admin, gateway_public, approvals, ceiling_for, accepted_callers, all_human,
}
use soomsuite_agent.Security.ServiceAuth.{RequestContext, is_accepted}
use soomsuite_agent.Security.Policy.{check, require, effective_permissions}
use soomsuite_agent.Store.{transaction}
use soomsuite_agent.Approvals.Service.{get}
use soomsuite_agent.Approvals.Policies.{policy_for, policies}
use soomsuite_agent.Approvals.Decision.{decide, decide_checks, decide_flush}
use soomsuite_agent.Approvals.Api.{
  World, DecideIn, CreateIn, decide_session, decide_handler, consume_handler, create_handler,
  preapproved_handler, cancel_handler,
}
use soomsuite_agent.Approvals.Api.Authority.{
  IsAuthorizedDecision, decide_handler-IsAuthorizedDecision, handlers_isolated, refused,
}
use soomsuite_agent.Examples.Approvals.{externals, payload, waiting_db}

abbrev pub bob : Principal
bob = record {
  subject = "bob";
  tenant_id = 1;
  actor_type = user;
  roles = tenant_admin ∷ security_engineer ∷ [];
  session_id = some "s";
  mfa = true;
  contact_id = none;
  display_name = none;
}

abbrev pub from : Service → RequestContext
from caller = record {
  caller = caller;
  receiver = approvals;
  principal = bob;
  request_id = "r";
  source_ip = none;
  agent_run_id = none;
}

abbrev start : World
start = record { db = waiting_db; audit = [] }

abbrev approve : DecideIn
approve = record { approve = true; payload_hash = "198.51.100.7"; comment = none }

decide_handler-IsAuthorizedDecision_example :
    IsAuthorizedDecision externals (from gateway_admin) 7 approve waiting_db
unfolding decide_handler decide_session transaction get policy_for policies require check
    effective_permissions permissions_for role_permissions ceiling_for all_human mfa_required
    is_accepted accepted_callers is_customer decide decide_checks decide_flush
decide_handler-IsAuthorizedDecision_example =
    decide_handler-IsAuthorizedDecision externals (from gateway_admin) 110 7 approve start refl

abbrev creation : CreateIn
creation = record {
  action_type = "scan.execute";
  payload = payload;
  reason = "assessment";
  target_type = none;
  target_id = none;
  on_behalf_of = none;
}

handlers_isolated_example :
    (decide_handler externals (from gateway_public) 110 7 approve start ≡ refused start)
    × (consume_handler externals (from gateway_public) 110 7 "scan.execute" payload "x" start
        ≡ refused start)
    × (create_handler externals (from gateway_public) 7 110 "x" creation start ≡ refused start)
    × (preapproved_handler externals (from gateway_public) 7 110 creation start ≡ refused start)
    × (cancel_handler externals (from gateway_public) 7 start ≡ refused start)
handlers_isolated_example =
    handlers_isolated externals (from gateway_public) 110 7 start approve creation "scan.execute"
      payload "x" refl
