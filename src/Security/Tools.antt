-- ===== src/Security/Tools.antt =====
-- The agents' tools of packages/platform-core/src/platform_core/security/policy.py: the static
-- registry, its validation at import, and the authorization of a tool call.
pub mod Registry
use soomsuite_agent.Prelude.{
  ℕ, ◌≡◌, refl, String, Bool, true, false, not, ◌&&◌, ◌||◌, Option, none, some, List, [], ◌∷◌, ◌++◌,
  if◌then◌else◌, str_eq, any, find, is_empty, inter, Enum, get_elem?, ◌=?◌,
}
use text.Mathlib.Text.{starts_with}
use soomsuite_agent.Security.Principal.{AgentName, samiir, fatma, is_customer}
use soomsuite_agent.Security.Rbac.{
  P, p_enum, samiir_chat, contact_submit, appointment_request, security_event_read, incident_read,
  incident_triage, finding_read, asset_read, internal_execute,
}
use soomsuite_agent.Security.Acl.{Service, agent_for_service}
use soomsuite_agent.Security.ServiceAuth.{RequestContext}
use soomsuite_agent.Security.Policy.{
  RiskLevel, low, medium, Decision, Reason, service_not_bound_to_agent,
  tool_not_registered_for_agent, customers_cannot_invoke_security_tools,
  principal_lacks_tool_permission, allowlisted, deny, effective_permissions,
}

pub record ToolRule : Type 0 where
  pub name : String
  pub agent : AgentName
  pub any_of : List P
  pub risk : RiskLevel
  pub requires_approval : Bool

abbrev rule : String → AgentName → List P → RiskLevel → ToolRule
rule name agent perms risk = record {
  name = name;
  agent = agent;
  any_of = perms;
  risk = risk;
  requires_approval = false;
}

abbrev agent_index : AgentName → ℕ
agent_index samiir = 0
agent_index fatma = 1

pub agent_member : (a : AgentName) → get_elem? (samiir ∷ fatma ∷ []) (agent_index a) ≡ some a
agent_member samiir = refl
agent_member fatma = refl

instance abbrev pub agent_enum : Enum AgentName
agent_enum = record {
  values = samiir ∷ fatma ∷ [];
  index = agent_index;
  index_values = agent_member;
}

-- The tools of each agent, in the order of the source.
unfoldable pub tool_registry : AgentName → List ToolRule
tool_registry samiir =
    rule "knowledge.search" samiir (samiir_chat ∷ []) low
    ∷ rule "pricing.lookup" samiir (samiir_chat ∷ []) low
    ∷ rule "crm.capture_contact" samiir (contact_submit ∷ []) low
    ∷ rule "crm.qualify_lead" samiir (contact_submit ∷ []) low
    ∷ rule "calendar.check_availability" samiir (appointment_request ∷ []) low
    ∷ rule "calendar.book_appointment" samiir (appointment_request ∷ []) medium
    ∷ rule "calendar.reschedule_appointment" samiir (appointment_request ∷ []) medium
    ∷ rule "calendar.cancel_appointment" samiir (appointment_request ∷ []) medium
    ∷ rule "conversation.escalate_to_human" samiir (samiir_chat ∷ []) low
    ∷ []
tool_registry fatma =
    rule "security.query_events" fatma (security_event_read ∷ internal_execute ∷ []) low
    ∷ rule "incidents.get" fatma (incident_read ∷ internal_execute ∷ []) low
    ∷ rule "incidents.list_open" fatma (incident_read ∷ internal_execute ∷ []) low
    ∷ rule "findings.list" fatma (finding_read ∷ internal_execute ∷ []) low
    ∷ rule "assets.get" fatma (asset_read ∷ internal_execute ∷ []) low
    ∷ rule "incidents.add_note" fatma (incident_triage ∷ internal_execute ∷ []) low
    ∷ rule "defense.recommend_action" fatma (incident_triage ∷ internal_execute ∷ []) medium
    ∷ rule "notifications.notify_security_team" fatma (incident_triage ∷ internal_execute ∷ []) low
    ∷ []

abbrev pub forbidden_tool_prefixes : List String
forbidden_tool_prefixes =
    "shell" ∷ "exec" ∷ "scanner.run" ∷ "waf.apply" ∷ "firewall." ∷ "dns." ∷ "secrets." ∷ "sql."
    ∷ "http.fetch" ∷ "file." ∷ "credentials." ∷ "infra." ∷ []

-- `name.startswith(FORBIDDEN_TOOL_PREFIXES)`
unfoldable pub has_forbidden_prefix : String → Bool
has_forbidden_prefix name = any (starts_with name) forbidden_tool_prefixes

-- The inner loop of `_validate_registry` over one agent's tools: `none` is a `RuntimeError`, and
-- otherwise the names seen are returned.
unfoldable pub validate_tools : AgentName → List ToolRule → List String → Option (List String)
validate_tools agent [] seen = some seen
validate_tools agent (r ∷ rs) seen =
    let rest = validate_tools agent rs (r.name ∷ seen) in
    if not (r.agent =? agent) || any (str_eq r.name) seen || has_forbidden_prefix r.name
    then none
    else rest

unfoldable pub validate_registry : Option (List String)
unfolding validate_tools tool_registry has_forbidden_prefix
validate_registry = elim (validate_tools samiir (tool_registry samiir) []) [
  | none ↦ none
  | some seen ↦ validate_tools fatma (tool_registry fatma) seen
]

abbrev is_bound : Option AgentName → AgentName → Bool
is_bound none agent = false
is_bound (some bound) agent = bound =? agent

abbrev authorize_rule : RequestContext → AgentName → Option ToolRule → Decision
authorize_rule ctx agent none = deny tool_not_registered_for_agent
authorize_rule ctx agent (some r) =
    if (agent =? fatma) && is_customer ctx.principal
    then deny customers_cannot_invoke_security_tools
    else if is_empty (inter r.any_of (effective_permissions ctx))
    then deny principal_lacks_tool_permission
    else record {
      allowed = true;
      reason = allowlisted;
      requires_approval = r.requires_approval;
      risk = r.risk;
    }

unfoldable pub authorize_tool : RequestContext → Service → AgentName → String → Decision
authorize_tool ctx executing_service agent tool_name =
    if not (is_bound (agent_for_service executing_service) agent)
    then deny service_not_bound_to_agent
    else authorize_rule ctx agent (find (λ r. str_eq r.name tool_name) (tool_registry agent))
