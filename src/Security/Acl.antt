-- ===== src/Security/Acl.antt =====
-- packages/platform-core/src/platform_core/security/service_acl.py: which services accept which
-- callers, and the permissions that a caller may exercise at most.
pub mod Isolation
use soomsuite_agent.Prelude.{
  ℕ, ◌≡◌, refl, Bool, not, Option, none, some, List, [], ◌∷◌, ◌++◌, Enum, get_elem?, keep, contains,
  ◌=?◌,
}
use soomsuite_agent.Security.Principal.{
  AgentName, samiir, fatma, anonymous_customer, authenticated_customer,
}
use soomsuite_agent.Security.Rbac.{P, internal_execute, p_enum, all_permissions, role_permissions}

-- The names of the services. `unregistered` is any other text, for which the tables' `.get` finds
-- nothing.
pub data Service : Type 0 where
  gateway_public gateway_admin samiir_agent fatma_soc crm scheduling notifications knowledge
        whatsapp security_ingest scanner_controller approvals audit unregistered :
      Service

abbrev service_index : Service → ℕ
service_index gateway_public = 0
service_index gateway_admin = 1
service_index samiir_agent = 2
service_index fatma_soc = 3
service_index crm = 4
service_index scheduling = 5
service_index notifications = 6
service_index knowledge = 7
service_index whatsapp = 8
service_index security_ingest = 9
service_index scanner_controller = 10
service_index approvals = 11
service_index audit = 12
service_index unregistered = 13

abbrev pub all_services : List Service
all_services =
    gateway_public ∷ gateway_admin ∷ samiir_agent ∷ fatma_soc ∷ crm ∷ scheduling ∷ notifications
    ∷ knowledge ∷ whatsapp ∷ security_ingest ∷ scanner_controller ∷ approvals ∷ audit ∷ []

pub service_member :
    (s : Service) → get_elem? (all_services ++ (unregistered ∷ [])) (service_index s) ≡ some s
service_member gateway_public = refl
service_member _ = refl

instance abbrev pub service_enum : Enum Service
service_enum = record {
  values = all_services ++ (unregistered ∷ []);
  index = service_index;
  index_values = service_member;
}

abbrev pub samiir_side : List Service
samiir_side = gateway_public ∷ samiir_agent ∷ crm ∷ scheduling ∷ knowledge ∷ whatsapp ∷ []

abbrev pub fatma_side : List Service
fatma_side = fatma_soc ∷ security_ingest ∷ scanner_controller ∷ approvals ∷ []

-- `ACCEPTED_CALLERS.get(receiver, frozenset())`
unfoldable pub accepted_callers : Service → List Service
accepted_callers samiir_agent = gateway_public ∷ gateway_admin ∷ whatsapp ∷ []
accepted_callers crm = samiir_agent ∷ gateway_admin ∷ scheduling ∷ notifications ∷ []
accepted_callers scheduling = samiir_agent ∷ gateway_admin ∷ []
accepted_callers knowledge = samiir_agent ∷ gateway_admin ∷ []
accepted_callers notifications =
    samiir_agent ∷ scheduling ∷ fatma_soc ∷ gateway_admin ∷ whatsapp ∷ []
accepted_callers whatsapp = gateway_public ∷ notifications ∷ gateway_admin ∷ samiir_agent ∷ []
accepted_callers fatma_soc = gateway_admin ∷ security_ingest ∷ scanner_controller ∷ []
accepted_callers security_ingest = gateway_public ∷ gateway_admin ∷ scanner_controller ∷ []
accepted_callers scanner_controller = gateway_admin ∷ fatma_soc ∷ []
accepted_callers approvals = gateway_admin ∷ fatma_soc ∷ scanner_controller ∷ []
accepted_callers audit = keep (λ s. not (s =? audit)) all_services
accepted_callers _ = []

unfoldable pub customer_permissions : List P
unfolding role_permissions
customer_permissions =
    role_permissions anonymous_customer ++ role_permissions authenticated_customer

unfoldable pub all_human : List P
all_human = keep (λ p. not (p =? internal_execute)) all_permissions

-- `CALLER_PERMISSION_CEILING.get(caller, frozenset())`
unfoldable pub ceiling_for : Service → List P
unfolding customer_permissions all_human
ceiling_for gateway_public = customer_permissions
ceiling_for whatsapp = customer_permissions ++ (internal_execute ∷ [])
ceiling_for samiir_agent = customer_permissions ++ (internal_execute ∷ [])
ceiling_for gateway_admin = all_human
ceiling_for scheduling = customer_permissions ++ (internal_execute ∷ [])
ceiling_for notifications = internal_execute ∷ []
ceiling_for fatma_soc = internal_execute ∷ []
ceiling_for security_ingest = internal_execute ∷ []
ceiling_for scanner_controller = internal_execute ∷ []
ceiling_for approvals = internal_execute ∷ []
ceiling_for crm = internal_execute ∷ []
ceiling_for knowledge = []
ceiling_for audit = []
ceiling_for unregistered = []

-- `AGENT_FOR_SERVICE.get(service)`
unfoldable pub agent_for_service : Service → Option AgentName
agent_for_service samiir_agent = some samiir
agent_for_service fatma_soc = some fatma
agent_for_service _ = none
