-- ===== src/Security/Policy/Confinement.antt =====
-- What a caller of the customer side can be allowed, whatever principal it presents.
use soomsuite_agent.Prelude.{ℕ, ◌≡◌, true, Option, contains}
use soomsuite_agent.Security.Rbac.{P, p_enum}
use soomsuite_agent.Security.Acl.{service_enum, samiir_side}
use soomsuite_agent.Security.Acl.Isolation.{within_customer, ceiling-samiir_side}
use soomsuite_agent.Security.ServiceAuth.{RequestContext}
use soomsuite_agent.Security.Policy.{check}
use soomsuite_agent.Security.Policy.Check.{check_sound}

-- A permission that the engine allows to a caller of the customer side is a customer's permission
-- or the internal one, even if the request claims the roles of a security engineer.
pub check_confined :
    (ctx : RequestContext) (p : P) (tenant owner : Option ℕ)
    → contains samiir_side ctx.caller ≡ true
    → (check ctx p tenant owner).allowed ≡ true
    → within_customer p ≡ true
check_confined ctx p tenant owner side h =
    ceiling-samiir_side ctx.caller p side (check_sound ctx p tenant owner h).within_ceiling
