-- ===== src/Examples/Scans.antt =====
-- A verified asset, and scans of it.
use soomsuite_agent.Prelude.{
  ◌≡◌, ◌↔◌, refl, true, none, some, List, [], ◌∷◌, find, is_empty, if◌then◌else◌,
}
use soomsuite_agent.Errors.{ok}
use soomsuite_agent.Schemas.Scan.{verified, pending_approval, succeeded, failed, cancelled}
use soomsuite_agent.Security.Principal.{is_customer}
use soomsuite_agent.Security.Rbac.{permissions_for, role_permissions, mfa_required}
use soomsuite_agent.Security.Acl.{gateway_admin, ceiling_for, all_human}
use soomsuite_agent.Security.Policy.{check, require, effective_permissions}
use soomsuite_agent.Store.{transaction}
use soomsuite_agent.Scans.{Asset, ScanJob, Finding, ScanDb, ScanExternals}
use soomsuite_agent.Scans.Gate.{
  evaluate_gate, passed, raise_if_failed, MayScan, evaluate_gate-MayScan,
}
use soomsuite_agent.Scans.Service.{find_job, asset, get, ensure_capacity}
use soomsuite_agent.Scans.Findings.{
  Run, has_fingerprint, errors, persist_findings, Remembers, persist_findings-Remembers,
  persist_findings-status,
}
use soomsuite_agent.Scans.Api.{start_approved, start_session, start_scan, retry_scan}
use soomsuite_agent.Scans.Api.Start.{IsStarted, start_scan-IsStarted}
use soomsuite_agent.Scans.Lifecycle.{IsOwnRetry, retry_scan_self}
use soomsuite_agent.Examples.Authority.{from}

abbrev externals : ScanExternals
externals = record {
  ticket_matches = λ t. true;
  sorted = λ xs. xs;
  sorted_set = λ xs. xs;
  show_id = λ n. "5";
  request_approval = λ p reason. ok 9;
  consume_approval = λ id p. ok tt;
  max_per_day = 10;
  max_concurrent = 2;
}

abbrev site : Asset
site = record {
  id = 3;
  canonical_target = "example.org";
  allowlisted = true;
  verification_status = verified;
  verified_until = some 900;
  customer_authorization_ref = some "SOW-1";
  customer_authorization_expires_at = some 800;
  deleted_at = none;
}

abbrev waiting : ScanJob
waiting = record {
  id = 5;
  asset_id = 3;
  target_url = "https://example.org/";
  requested_by = "bob";
  approval_id = some 7;
  authorization_ticket = "CHG-1";
  customer_authorization_ref = "SOW-1";
  profile = "safe-passive";
  scanners = "zap" ∷ [];
  status = pending_approval;
  workflow_id = none;
  idempotency_key = "key-0000-0000-01";
  scheduled_for = none;
  started_at = none;
  finished_at = none;
  timeout_seconds = 3600;
  attempt = 1;
  retry_of_id = none;
  findings_count = 0;
  error = none;
  created_at = 90;
}

abbrev ended : ScanJob
ended = record waiting { status = cancelled; finished_at = some 95 }

abbrev finding : Finding
finding = record {
  scan_job_id = 1;
  asset_id = 3;
  report = record {
    scanner = "zap";
    rule_id = "10020";
    title = "Missing header";
    description = "";
    category = "vulnerability";
    severity = "low";
    cwe = none;
    url = none;
    remediation = none;
    fingerprint = "f1";
  };
  first_seen = 10;
  last_seen = 10;
}

abbrev db_of : ScanJob → ScanDb
db_of job = record { assets = site ∷ []; jobs = job ∷ []; findings = finding ∷ [] }

abbrev runs : List Run
runs = record { findings = finding.report ∷ []; error = none } ∷ []

evaluate_gate-MayScan_example :
    (passed (evaluate_gate externals (from gateway_admin) site "CHG-1" "safe-passive" 100) ≡ true)
    ↔ MayScan externals (from gateway_admin) site "CHG-1" "safe-passive" 100
evaluate_gate-MayScan_example =
    evaluate_gate-MayScan externals (from gateway_admin) site "CHG-1" "safe-passive" 100

start_scan-IsStarted_example :
    IsStarted externals
      (from gateway_admin)
      100
      5
      (db_of waiting)
      (start_scan externals (from gateway_admin) 100 5 (db_of waiting)).1
unfolding start_scan start_session start_approved transaction get asset ensure_capacity require
    check effective_permissions permissions_for role_permissions ceiling_for all_human mfa_required
    is_customer evaluate_gate passed raise_if_failed
start_scan-IsStarted_example =
    start_scan-IsStarted externals (from gateway_admin) 100 5 (db_of waiting) refl

persist_findings-Remembers_example :
    (g : Finding) × (find
        (has_fingerprint "f1")
        (persist_findings 100 5 runs (db_of waiting)).1.findings
      ≡ some g)
    × Remembers finding g
persist_findings-Remembers_example =
    persist_findings-Remembers 100 5 runs (db_of waiting) "f1" finding refl

-- A cancelled scan that the worker then reports is succeeded.
persist_findings-status_example :
    (j : ScanJob) × (find_job 5 (persist_findings 100 5 runs (db_of ended)).1 ≡ some j)
    × (j.status ≡ (if is_empty (errors runs) then succeeded else failed))
persist_findings-status_example = persist_findings-status 100 5 runs (db_of ended) ended refl

retry_scan_self_example :
    (job : ScanJob) × (db' : ScanDb) × (retry_scan externals
        (from gateway_admin)
        6
        100
        5
        "key-0000-0000-01"
        (db_of ended)
      ≡ (ok job, db'))
    × IsOwnRetry 5 9 ended (db_of ended) job db'
unfolding require check effective_permissions permissions_for role_permissions ceiling_for all_human
    mfa_required is_customer
retry_scan_self_example =
    retry_scan_self externals (from gateway_admin) 6 100 5 9 "key-0000-0000-01" (db_of ended) ended
      refl refl refl refl refl
