-- ===== src/Security/ServiceAuth.antt =====
-- packages/platform-core/src/platform_core/security/service_auth.py: the verified context of an
-- internal request.
use soomsuite_agent.Prelude.{
  ℕ, ◌≡◌, sym, ◌∙◌, String, Bool, true, Option, none, some, List, contains, inter, contains-inter,
  and_true,
}
use soomsuite_agent.Security.Principal.{Principal, AgentName}
use soomsuite_agent.Security.Acl.{Service, service_enum, agent_for_service, accepted_callers}

pub record RequestContext : Type 0 where
  pub caller : Service
  pub receiver : Service
  pub principal : Principal
  pub request_id : String
  pub source_ip : Option String
  pub agent_run_id : Option ℕ

unfoldable pub calling_agent : RequestContext → Option AgentName
unfolding agent_for_service
calling_agent ctx = agent_for_service ctx.caller

-- Whether `verify` accepts a caller at a receiver whose route allows only some callers
-- (`internal_caller`): `accepted_callers(receiver) & allowed_callers`.
unfoldable pub is_accepted : Service → Option (List Service) → Service → Bool
is_accepted receiver none caller = contains (accepted_callers receiver) caller
is_accepted receiver (some allowed) caller =
    contains (inter (accepted_callers receiver) allowed) caller

pub is_accepted-allowed :
    (receiver caller : Service) (allowed : List Service)
    → is_accepted receiver (some allowed) caller ≡ true
    → (contains (accepted_callers receiver) caller ≡ true) × (contains allowed caller ≡ true)
unfolding is_accepted
is_accepted-allowed receiver caller allowed h =
    and_true _ _ (sym (contains-inter (accepted_callers receiver) allowed caller) ∙ h)
