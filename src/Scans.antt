-- ===== src/Scans.antt =====
-- The scanner controller (services/scanner-controller/src/scanner_controller): its rows, and the
-- code outside the repository and the services that it calls. The rows are one tenant's: row-level
-- security shows a session no others.
pub mod Gate
pub mod Service
pub mod Findings
pub mod Api
pub mod Lifecycle
use soomsuite_agent.Prelude.{ℕ, String, Bool, Option, List}
use soomsuite_agent.Errors.{Result}
use soomsuite_agent.Schemas.Scan.{ScanStatus, AssetVerificationStatus}

pub record Asset : Type 0 where
  pub id : ℕ
  pub canonical_target : String
  pub allowlisted : Bool
  pub verification_status : AssetVerificationStatus
  pub verified_until : Option ℕ
  pub customer_authorization_ref : Option String
  pub customer_authorization_expires_at : Option ℕ
  pub deleted_at : Option ℕ

-- `ScanJob`; the log of the scanners is left out.
pub record ScanJob : Type 0 where
  pub id : ℕ
  pub asset_id : ℕ
  pub target_url : String
  pub requested_by : String
  pub approval_id : Option ℕ
  pub authorization_ticket : String
  pub customer_authorization_ref : String
  pub profile : String
  pub scanners : List String
  pub status : ScanStatus
  pub workflow_id : Option String
  pub idempotency_key : String
  pub scheduled_for : Option ℕ
  pub started_at : Option ℕ
  pub finished_at : Option ℕ
  pub timeout_seconds : ℕ
  pub attempt : ℕ
  pub retry_of_id : Option ℕ
  pub findings_count : ℕ
  pub error : Option String
  pub created_at : ℕ

-- What a scanner reports of one finding; texts that it may leave out have the code's defaults.
pub record Report : Type 0 where
  pub scanner : String
  pub rule_id : String
  pub title : String
  pub description : String
  pub category : String
  pub severity : String
  pub cwe : Option String
  pub url : Option String
  pub remediation : Option String
  pub fingerprint : String

pub record Finding : Type 0 where
  pub scan_job_id : ℕ
  pub asset_id : ℕ
  pub report : Report
  pub first_seen : ℕ
  pub last_seen : ℕ

pub record ScanDb : Type 0 where
  pub assets : List Asset
  pub jobs : List ScanJob
  pub findings : List Finding

-- `approval_payload`: the exact scan that an approval is bound to.
pub record ScanPayload : Type 0 where
  pub tenant_id : ℕ
  pub scan_job_id : ℕ
  pub asset_id : ℕ
  pub target_url : String
  pub profile : String
  pub scanners : List String
  pub authorization_ticket : String
  pub customer_authorization_ref : String
  pub requested_by : String
  pub timeout_seconds : ℕ

-- The regular expression of tickets, `sorted` and `sorted(set(…))`, `str` of an identifier, and the
-- two calls of the approval service, with their answers.
pub record ScanExternals : Type 0 where
  pub ticket_matches : String → Bool
  pub sorted : List String → List String
  pub sorted_set : List String → List String
  pub show_id : ℕ → String
  pub request_approval : ScanPayload → String → Result ℕ
  pub consume_approval : ℕ → ScanPayload → Result (Unit {0})
  pub max_per_day : ℕ
  pub max_concurrent : ℕ
