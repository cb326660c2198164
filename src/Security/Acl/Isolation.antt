-- ===== src/Security/Acl/Isolation.antt =====
-- The trust graph keeps the customer side apart from the security side.
use soomsuite_agent.Prelude.{
  ◌≡◌, refl, Bool, true, ◌||◌, [], ◌∷◌, contains, implies, implies_mp, all, all-values, ◌=?◌, =?→eq,
  ◌&&◌, and_true,
}
use soomsuite_agent.Security.Rbac.{P, p_enum, internal_execute}
use soomsuite_agent.Security.Acl.{
  Service, service_enum, gateway_public, security_ingest, samiir_side, fatma_side, accepted_callers,
  ceiling_for, customer_permissions,
}

-- What a caller of the customer side may exercise at most: a customer's permissions and the
-- internal one.
abbrev pub within_customer : P → Bool
within_customer p = contains customer_permissions p || contains (internal_execute ∷ []) p

abbrev ceiling_check : Service → P → Bool
unfolding ceiling_for
ceiling_check caller p =
    implies (contains samiir_side caller)
      (implies (contains (ceiling_for caller) p) (within_customer p))

ceiling_table : all (λ c. all (ceiling_check c) p_enum.values) service_enum.values ≡ true
unfolding ceiling_for
ceiling_table = refl

pub ceiling-samiir_side :
    (caller : Service) (p : P)
    → contains samiir_side caller ≡ true
    → contains (ceiling_for caller) p ≡ true
    → within_customer p ≡ true
unfolding ceiling_for
ceiling-samiir_side caller p h c =
    implies_mp _ _
      (implies_mp _ _
        (all-values (ceiling_check caller)
          (all-values (λ c. all (ceiling_check c) p_enum.values) ceiling_table caller) p)
        h)
      c

-- The test of one receiver and one caller, over all of them.
abbrev reach_check : Service → Service → Bool
unfolding accepted_callers
reach_check receiver caller = implies (contains fatma_side receiver) (
    implies (contains samiir_side caller) (
      implies (contains (accepted_callers receiver) caller)
        ((receiver =? security_ingest) && (caller =? gateway_public))))

reach_table : all (λ r. all (reach_check r) service_enum.values) service_enum.values ≡ true
unfolding accepted_callers
reach_table = refl

-- Security-side receivers accept no caller of the customer side, but for the public gateway's
-- webhooks at `security-ingest`.
pub accepted_callers_isolated :
    (receiver caller : Service)
    → contains fatma_side receiver ≡ true
    → contains samiir_side caller ≡ true
    → contains (accepted_callers receiver) caller ≡ true
    → (receiver ≡ security_ingest) × (caller ≡ gateway_public)
unfolding accepted_callers
accepted_callers_isolated receiver caller hr hc ha =
    let row = all-values (λ r. all (reach_check r) service_enum.values) reach_table receiver in
    let both =
      implies_mp _ _
        (implies_mp _ _ (implies_mp _ _ (all-values (reach_check receiver) row caller) hr) hc) ha in
    let (r, c) = and_true (receiver =? security_ingest) (caller =? gateway_public) both in
    (=?→eq receiver security_ingest r, =?→eq caller gateway_public c)
