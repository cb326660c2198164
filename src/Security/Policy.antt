-- ===== src/Security/Policy.antt =====
-- packages/platform-core/src/platform_core/security/policy.py: the deterministic policy engine.
pub mod Check
pub mod Confinement
use soomsuite_agent.Prelude.{
  ℕ, ◌≡◌, Bool, true, false, not, ◌&&◌, ◌||◌, Option, none, some, List, ◌==◌, if◌then◌else◌, opt_eq,
  any, contains, inter, ◌=?◌,
}
use soomsuite_agent.Errors.{PlatformError, not_found, forbidden, Result, ok, err, raise_if}
use soomsuite_agent.Security.Principal.{ActorType, user, is_customer}
use soomsuite_agent.Security.Rbac.{P, p_enum, mfa_required, permissions_for}
use soomsuite_agent.Security.Acl.{ceiling_for}
use soomsuite_agent.Security.ServiceAuth.{RequestContext}

pub data RiskLevel : Type 0 where
  low medium high critical : RiskLevel

-- The texts that `Decision.reason` takes.
pub data Reason : Type 0 where
  tenant_mismatch permission_missing mfa_missing not_owner allowed_reason : Reason
  service_not_bound_to_agent tool_not_registered_for_agent customers_cannot_invoke_security_tools
        principal_lacks_tool_permission allowlisted :
      Reason

pub record Decision : Type 0 where
  pub allowed : Bool
  pub reason : Reason
  pub requires_approval : Bool
  pub risk : RiskLevel

abbrev pub deny : Reason → Decision
deny r = record { allowed = false; reason = r; requires_approval = false; risk = low }

abbrev pub allow : Decision
allow = record { allowed = true; reason = allowed_reason; requires_approval = false; risk = low }

abbrev pub is_user : ActorType → Bool
is_user user = true
is_user _ = false

-- `tenant_id is not None and tenant_id != own`
abbrev pub is_other : Option ℕ → ℕ → Bool
is_other none own = false
is_other (some t) own = not (t == own)

abbrev pub is_other_owner : Option ℕ → Option ℕ → Bool
is_other_owner none own = false
is_other_owner (some o) own = not (opt_eq own (some o))

unfoldable pub effective_permissions : RequestContext → List P
effective_permissions ctx = inter (permissions_for ctx.principal.roles) (ceiling_for ctx.caller)

unfoldable pub check : RequestContext → P → Option ℕ → Option ℕ → Decision
check ctx permission tenant_id owner_contact_id =
    if is_other tenant_id ctx.principal.tenant_id
    then deny tenant_mismatch
    else if not (contains (effective_permissions ctx) permission)
    then deny permission_missing
    else if contains mfa_required permission
        && is_user ctx.principal.actor_type
        && not ctx.principal.mfa
    then deny mfa_missing
    else if is_customer ctx.principal && is_other_owner owner_contact_id ctx.principal.contact_id
    then deny not_owner
    else allow

abbrev pub refusal : Reason → PlatformError
refusal tenant_mismatch = not_found ""
refusal not_owner = not_found ""
refusal mfa_missing = forbidden "step-up authentication required"
refusal _ = forbidden ""

unfoldable pub require : RequestContext → P → Option ℕ → Option ℕ → Result (Unit {0})
require ctx permission tenant_id owner_contact_id =
    let decision = check ctx permission tenant_id owner_contact_id in
    raise_if (not decision.allowed) (refusal decision.reason)

unfoldable pub require_any : RequestContext → List P → Result (Unit {0})
require_any ctx permissions =
    raise_if (not (any (λ p. (check ctx p none none).allowed) permissions)) (forbidden "")
