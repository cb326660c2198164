-- ===== src/Scans/Api.antt =====
-- services/scanner-controller/src/scanner_controller/api.py: the routes that change assets and
-- scans, in their sessions. Audit records, realtime notices, the workflow starter and the response
-- are left out, and so is the gateway's check of the callers.
pub mod Start
use soomsuite_agent.Prelude.{
  ℕ, ◌+◌, ◌*◌, String, Bool, true, false, not, ◌&&◌, ◌||◌, Option, none, some, List, [], ◌∷◌,
  if◌then◌else◌, str_eq, str_append, or_empty, non_empty, is_some, contains, ◌=?◌,
}
use soomsuite_agent.Errors.{Result, ok, err, conflict}
use soomsuite_agent.Schemas.Scan.{
  ScanStatus, scan_status_enum, pending_approval, queued, running, cancelled, failed, timed_out,
  verified, pending, verification_enum,
}
use soomsuite_agent.Security.Rbac.{scan_request, asset_manage}
use soomsuite_agent.Security.ServiceAuth.{RequestContext}
use soomsuite_agent.Security.Policy.{require}
use soomsuite_agent.Store.{Action, pure, lift, modify, raise_when, transaction, ◌>>=◌, ◌>>◌}
use soomsuite_agent.Scans.{Asset, ScanJob, ScanDb, ScanExternals}
use soomsuite_agent.Scans.Gate.{evaluate_gate, raise_if_failed, is_after}
use soomsuite_agent.Scans.Service.{
  approval_payload, save_job, save_asset, asset, get, target_url, NewScan, create_job,
  ensure_capacity,
}

-- The condition that `allowlist` puts on an asset.
abbrev pub is_allowlistable : ℕ → Asset → Bool
is_allowlistable now a =
    (a.verification_status =? verified)
    && is_after now a.verified_until
    && non_empty (or_empty a.customer_authorization_ref)
    && is_after now a.customer_authorization_expires_at

abbrev allowlist_session : ℕ → ℕ → Bool → Action ScanDb (Unit {0})
allowlist_session now asset_id allowlisted = do
  a ← asset asset_id
  raise_when (allowlisted && not (is_allowlistable now a)) (
      conflict
        "assets must be ownership-verified and have a current customer authorization before allowlisting")
  modify (save_asset asset_id (λ (a : Asset). record a { allowlisted = allowlisted }))

unfoldable pub allowlist : RequestContext → ℕ → ℕ → Bool → Action ScanDb (Unit {0})
allowlist ctx now asset_id allowlisted = do
  lift (require ctx asset_manage none none)
  transaction (allowlist_session now asset_id allowlisted)

-- The second session of `check_verification`, with the checker's answer; the row of the challenge is
-- left out.
abbrev pub verified_for : ℕ → ℕ → Asset → Asset
verified_for now days a = record a {
  verification_status = verified;
  verified_until = some (now + days * 86400);
}

unfoldable pub settle_verification : ℕ → ℕ → ℕ → Bool → Action ScanDb (Unit {0})
settle_verification now days asset_id found = do
  a ← asset asset_id
  modify (λ db. if found then save_asset asset_id (verified_for now days) db else db)

module _ (ext : ScanExternals) where
  abbrev pub set_approval : ℕ → ScanJob → ScanJob
  set_approval approval job = record job { approval_id = some approval }

  -- `job.approval_id = await _request_approval(…)`
  abbrev request_approval : RequestContext → String → ScanJob → Action ScanDb ScanJob
  request_approval ctx reason job = do
    approval ← lift (ext.request_approval (approval_payload ext ctx.principal.tenant_id job) reason)
    modify (save_job job.id (set_approval approval))
    pure (set_approval approval job)

  abbrev unless_requested : RequestContext → String → ScanJob → Action ScanDb ScanJob
  unless_requested ctx reason job db =
      if is_some job.approval_id then (ok job, db) else request_approval ctx reason job db

  abbrev pub request_session : RequestContext → ℕ → ℕ → NewScan → String → Action ScanDb ScanJob
  request_session ctx uuid now body reason = do
    job ← create_job ext ctx uuid now body
    unless_requested ctx reason job

  unfoldable pub request_scan : RequestContext → ℕ → ℕ → NewScan → String → Action ScanDb ScanJob
  request_scan ctx uuid now body reason = do
    lift (require ctx scan_request none none)
    transaction (request_session ctx uuid now body reason)

  abbrev pub queued_as : ScanJob → ScanJob
  queued_as job = record job {
    status = queued;
    workflow_id = some (str_append "scan-" (ext.show_id job.id));
  }

  -- The session of `start_scan` from the approval on, for a job that has one.
  unfoldable pub start_approved : RequestContext → ℕ → ScanJob → ℕ → Action ScanDb ScanJob
  start_approved ctx now job approval = do
    a ← asset job.asset_id
    lift (raise_if_failed (evaluate_gate ext ctx a job.authorization_ticket job.profile now))
    raise_when (not (str_eq job.target_url (target_url a)))
        (conflict "asset target changed since approval")
    ensure_capacity ext
    lift (ext.consume_approval approval (approval_payload ext ctx.principal.tenant_id job))
    modify (save_job job.id queued_as)
    pure (queued_as job)

  abbrev start_found : RequestContext → ℕ → ScanJob → Option ℕ → Action ScanDb ScanJob
  start_found ctx now job none db = (err (conflict "scan is not awaiting start"), db)
  start_found ctx now job (some approval) db = start_approved ctx now job approval db

  unfoldable pub start_session : RequestContext → ℕ → ℕ → Action ScanDb ScanJob
  start_session ctx now job_id = do
    job ← get job_id
    raise_when (not (job.status =? pending_approval)) (conflict "scan is not awaiting start")
    start_found ctx now job job.approval_id

  unfoldable pub start_scan : RequestContext → ℕ → ℕ → Action ScanDb ScanJob
  start_scan ctx now job_id = do
    lift (require ctx scan_request none none)
    transaction (start_session ctx now job_id)

  abbrev pub cancelled_at : ℕ → ScanJob → ScanJob
  cancelled_at now job = record job { status = cancelled; finished_at = some now }

  abbrev pub cancel_session : ℕ → ℕ → Action ScanDb ScanJob
  cancel_session now job_id = do
    job ← get job_id
    raise_when (not (contains (pending_approval ∷ queued ∷ running ∷ []) job.status))
        (conflict "scan is not cancellable")
    modify (save_job job.id (cancelled_at now))
    pure (cancelled_at now job)

  unfoldable pub cancel_scan : RequestContext → ℕ → ℕ → Action ScanDb ScanJob
  cancel_scan ctx now job_id = do
    lift (require ctx scan_request none none)
    transaction (cancel_session now job_id)

  -- The attributes that `retry_scan` sets on the job that `create_job` answered.
  abbrev pub retry_of : ScanJob → ScanJob → ScanJob
  retry_of old job = record job { retry_of_id = some old.id; attempt = old.attempt + 1 }

  abbrev pub again : ScanJob → String → NewScan
  again old key = record {
    asset_id = old.asset_id;
    profile = old.profile;
    ticket = old.authorization_ticket;
    scanners = old.scanners;
    idempotency_key = key;
    scheduled_for = none;
    timeout_seconds = old.timeout_seconds;
  }

  unfoldable pub retry_session : RequestContext → ℕ → ℕ → ℕ → String → Action ScanDb ScanJob
  retry_session ctx uuid now job_id key = do
    old ← get job_id
    raise_when (not (contains (failed ∷ timed_out ∷ cancelled ∷ []) old.status))
        (conflict "only failed, timed-out or cancelled scans can be retried")
    job ← create_job ext ctx uuid now (again old key)
    modify (save_job job.id (retry_of old))
    request_approval ctx (str_append "Retry of scan " (ext.show_id old.id)) (retry_of old job)

  unfoldable pub retry_scan : RequestContext → ℕ → ℕ → ℕ → String → Action ScanDb ScanJob
  retry_scan ctx uuid now job_id key = do
    lift (require ctx scan_request none none)
    transaction (retry_session ctx uuid now job_id key)
