-- ===== src/Security/Policy/Check.antt =====
-- `check` against an independent description of what is permitted, and the errors of `require`.
use soomsuite_agent.Prelude.{
  ℕ, ◌≡◌, ◌↔◌, ◌⊎◌, true, false, ◌&&◌, Option, none, some, arith, contains, contains-inter,
}
use soomsuite_agent.Errors.{not_found, forbidden, ok, err}
use soomsuite_agent.Security.Principal.{is_customer}
use soomsuite_agent.Security.Rbac.{P, p_enum, mfa_required, permissions_for}
use soomsuite_agent.Security.Acl.{ceiling_for}
use soomsuite_agent.Security.ServiceAuth.{RequestContext}
use soomsuite_agent.Security.Policy.{
  check, require, effective_permissions, is_user, is_other, is_other_owner,
}

pub record IsPermitted (ctx : RequestContext) (p : P) (tenant owner : Option ℕ) : Type 0 where
  pub same_tenant : (tenant ≡ none) ⊎ (tenant ≡ some ctx.principal.tenant_id)
  pub granted : contains (permissions_for ctx.principal.roles) p ≡ true
  pub within_ceiling : contains (ceiling_for ctx.caller) p ≡ true
  pub stepped_up :
      (contains mfa_required p ≡ false)
      ⊎ (ctx.principal.mfa ≡ true)
      ⊎ (is_user ctx.principal.actor_type ≡ false)
  pub owned :
      (owner ≡ none) ⊎ (is_customer ctx.principal ≡ false) ⊎ (ctx.principal.contact_id ≡ owner)

effective :
    (ctx : RequestContext) (p : P)
    → contains (effective_permissions ctx) p
      ≡ (contains (permissions_for ctx.principal.roles) p && contains (ceiling_for ctx.caller) p)
unfolding effective_permissions
effective ctx p = contains-inter (permissions_for ctx.principal.roles) (ceiling_for ctx.caller) p

pub check_sound :
    (ctx : RequestContext) (p : P) (tenant owner : Option ℕ)
    → (check ctx p tenant owner).allowed ≡ true
    → IsPermitted ctx p tenant owner
unfolding check
check_sound ctx p tenant owner h = ground (arith, effective ctx p)

check_complete :
    (ctx : RequestContext) (p : P) (tenant owner : Option ℕ)
    → IsPermitted ctx p tenant owner
    → (check ctx p tenant owner).allowed ≡ true
unfolding check
check_complete ctx p tenant owner h = ground (arith, effective ctx p)

-- The engine allows a request exactly when the five conditions of `IsPermitted` hold: the object's
-- tenant is the principal's, a role grants the permission, the caller's ceiling contains it, a
-- user's session has MFA where that is required, and a customer owns the object.
pub check-iff-IsPermitted :
    (ctx : RequestContext) (p : P) (tenant owner : Option ℕ)
    → ((check ctx p tenant owner).allowed ≡ true) ↔ IsPermitted ctx p tenant owner
check-iff-IsPermitted ctx p tenant owner =
    (check_sound ctx p tenant owner, check_complete ctx p tenant owner)

-- How `require` ends: it returns, and the request is permitted; or it raises the bare `NotFound` of
-- a missing object, and the object is another tenant's or another customer's; or it raises
-- `Forbidden`, which never happens for another tenant's object.
pub require_outcomes :
    (ctx : RequestContext) (p : P) (tenant owner : Option ℕ)
    → ((require ctx p tenant owner ≡ ok tt) × IsPermitted ctx p tenant owner)
      ⊎ ((require ctx p tenant owner ≡ err (not_found ""))
          × ((is_other tenant ctx.principal.tenant_id ≡ true)
              ⊎ (is_other_owner owner ctx.principal.contact_id ≡ true)))
      ⊎ (((require ctx p tenant owner ≡ err (forbidden ""))
            ⊎ (require ctx p tenant owner ≡ err (forbidden "step-up authentication required")))
          × (is_other tenant ctx.principal.tenant_id ≡ false))
unfolding require check
require_outcomes ctx p tenant owner = ground (arith, effective ctx p)
