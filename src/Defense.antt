-- ===== src/Defense.antt =====
-- Defensive actions (services/fatma-soc/src/fatma_soc/defense.py): the row of an action, and what the
-- workflow takes from outside. The rows are one tenant's.
pub mod Target
pub mod Service
pub mod Changes
pub mod Safety
use soomsuite_agent.Prelude.{ℕ, String, Bool, Option, List}
use soomsuite_agent.Errors.{Result}
use soomsuite_agent.Schemas.Defense.{DefenseActionType, DefenseActionStatus, FatmaMode}
use soomsuite_agent.Security.Policy.{RiskLevel}

-- `WafAction.mode`: the tenant's mode, or the text "human_approved".
pub data ActionMode : Type 0 where
  tenant_mode : FatmaMode → ActionMode
  human_approved : ActionMode

-- `WafAction`; of its parameters only the confidence is kept, a float that stands for its bits.
pub record WafAction : Type 0 where
  pub id : ℕ
  pub incident_id : Option ℕ
  pub approval_id : Option ℕ
  pub provider : String
  pub action_type : DefenseActionType
  pub target : String
  pub confidence : ℕ
  pub payload_hash : String
  pub risk_level : RiskLevel
  pub rationale : String
  pub mode : ActionMode
  pub status : DefenseActionStatus
  pub ttl_seconds : Option ℕ
  pub expires_at : Option ℕ
  pub executed_at : Option ℕ
  pub executed_by : Option String
  pub provider_ref : Option String
  pub error : Option String
  pub created_by : String

-- `action_payload`: the exact action that an approval is bound to.
pub record ActionPayload : Type 0 where
  pub tenant_id : ℕ
  pub action_type : String
  pub waf_action_id : ℕ
  pub provider : String
  pub target : String
  pub ttl_seconds : Option ℕ
  pub confidence : ℕ

-- What `ipaddress.ip_network(target, strict=False)` tells.
pub record Network : Type 0 where
  pub is_global : Bool
  pub is_documentation : Bool
  pub is_v4 : Bool
  pub num_addresses : ℕ
  pub text : String
  pub network_address : String

-- `network` answers a `ValueError` of `ipaddress` by the error that the server makes of it; `apply`
-- and `revert` are those of the provider of a name; the last three are calls of the approval service.
pub record DefenseExternals : Type 0 where
  pub network : String → Result Network
  pub is_alpha : String → Bool
  pub upper : String → String
  pub round3 : ℕ → ℕ
  pub sha256_json : ActionPayload → String
  pub apply : String → WafAction → Result String
  pub revert : String → WafAction → Result (Unit {0})
  pub allow_documentation_ranges : Bool
  pub default_provider : String
  pub request_approval : ActionPayload → String → Result ℕ
  pub preapprove : ActionPayload → String → Result ℕ
  pub consume : ℕ → ActionPayload → Result (Unit {0})

pub record DefenseDb : Type 0 where
  pub actions : List WafAction
  pub fatma_mode : Option FatmaMode
