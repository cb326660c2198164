-- ===== src/Approvals.antt =====
-- services/approvals: human approval of risky actions. This file has the stored request and what
-- the service takes from outside; the children have the policies, the service and its API.
pub mod Policies
pub mod Service
pub mod Decision
pub mod Evolution
pub mod Steps
pub mod Trace
pub mod SingleUse
pub mod Race
pub mod Expiry
pub mod Soundness
pub mod Api
use soomsuite_agent.Prelude.{ℕ, String, Bool, Option, List}
use soomsuite_agent.Schemas.Approval.{ApprovalStatus}
use soomsuite_agent.Schemas.Defense.{FatmaMode}
use soomsuite_agent.Security.Policy.{RiskLevel}

-- A UUID, a time in seconds and a float are numbers: a UUID stands for its canonical text, and a
-- float for its bit pattern, which only `below_0_9` reads.

-- The payload's dictionary, by the keys that the service reads; `rest` is all other content.
pub record Payload : Type 0 where
  pub tenant_id : Option ℕ
  pub action_type : Option String
  pub ttl_seconds : ℕ
  pub target : String
  pub confidence : ℕ
  pub rest : String

-- A row of `approval_requests` (packages/platform-core/src/platform_core/db/models.py).
pub record ApprovalRequest : Type 0 where
  pub id : ℕ
  pub tenant_id : ℕ
  pub action_type : String
  pub action_payload : Payload
  pub payload_hash : String
  pub target_type : Option String
  pub target_id : Option ℕ
  pub requested_by : String
  pub requested_by_type : String
  pub requested_via : String
  pub requested_at : ℕ
  pub reason : String
  pub risk_level : RiskLevel
  pub expires_at : ℕ
  pub status : ApprovalStatus
  pub approved_by : Option String
  pub approved_at : Option ℕ
  pub decision_comment : Option String
  pub approval_signature : Option String
  pub consumed_at : Option ℕ
  pub consumed_by : Option String

-- The settings of a tenant that `preapprove` reads.
pub record TenantSettings : Type 0 where
  pub tenant_id : ℕ
  pub fatma_mode : Option FatmaMode
  pub preapproved_actions : List String

pub record Db : Type 0 where
  pub requests : List ApprovalRequest
  pub tenants : List TenantSettings

-- What is signed: the fields of the message of `_sign`.
pub record SignedMessage : Type 0 where
  pub id : ℕ
  pub tenant_id : ℕ
  pub action_type : String
  pub payload_hash : String
  pub expires_at : ℕ
  pub approved_by : Option String

-- Code that is not this repository's: the canonical JSON hash of a payload, the Ed25519 signature,
-- the float comparison `x < 0.9`, and `ipaddress.ip_network(…).num_addresses`, with `none` for a
-- `ValueError`.
pub record Externals : Type 0 where
  pub payload_hash : Payload → String
  pub sign : SignedMessage → String
  pub below_0_9 : ℕ → Bool
  pub num_addresses : String → Option ℕ
