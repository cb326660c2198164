-- ===== src/Examples/Security.antt =====
-- Permissions, callers and tools on concrete requests.
use soomsuite_agent.Prelude.{◌≡◌, ◌↔◌, refl, true, none, some, [], ◌∷◌}
use soomsuite_agent.Security.Principal.{samiir, anonymous_customer, security_engineer, is_customer}
use soomsuite_agent.Security.Rbac.{
  p_enum, permissions_for, role_permissions, mfa_required, scan_request, samiir_chat,
}
use soomsuite_agent.Security.Acl.{
  gateway_public, gateway_admin, samiir_agent, ceiling_for, customer_permissions, agent_for_service,
}
use soomsuite_agent.Security.Acl.Isolation.{within_customer}
use soomsuite_agent.Security.ServiceAuth.{RequestContext}
use soomsuite_agent.Security.Policy.{check, effective_permissions}
use soomsuite_agent.Security.Policy.Check.{IsPermitted, check-iff-IsPermitted}
use soomsuite_agent.Security.Policy.Confinement.{check_confined}
use soomsuite_agent.Security.Tools.{authorize_tool, tool_registry}
use soomsuite_agent.Security.Tools.Registry.{IsAuthorized, authorize_tool-IsAuthorized}
use soomsuite_agent.Examples.Authority.{bob, from}

check-iff-IsPermitted_example :
    ((check (from gateway_admin) scan_request (some 1) none).allowed ≡ true)
    ↔ IsPermitted (from gateway_admin) scan_request (some 1) none
check-iff-IsPermitted_example =
    check-iff-IsPermitted (from gateway_admin) scan_request (some 1) none

-- An engineer's session misused by the public gateway.
abbrev customer : RequestContext
customer = record (from gateway_public) {
  principal = record bob { roles = security_engineer ∷ anonymous_customer ∷ [] };
}

check_confined_example : within_customer samiir_chat ≡ true
unfolding check effective_permissions permissions_for role_permissions ceiling_for mfa_required
    customer_permissions is_customer
check_confined_example = check_confined customer samiir_chat none none refl refl

abbrev chat : RequestContext
chat = record (from samiir_agent) { principal = record bob { roles = anonymous_customer ∷ [] } }

authorize_tool-IsAuthorized_example : IsAuthorized chat samiir_agent samiir "pricing.lookup"
unfolding authorize_tool tool_registry effective_permissions permissions_for role_permissions
    ceiling_for customer_permissions is_customer agent_for_service
authorize_tool-IsAuthorized_example =
    authorize_tool-IsAuthorized chat samiir_agent samiir "pricing.lookup" refl
