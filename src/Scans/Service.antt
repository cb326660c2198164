-- ===== src/Scans/Service.antt =====
-- services/scanner-controller/src/scanner_controller/service.py: the methods of `ScanService` on
-- assets and jobs.
use soomsuite_agent.Prelude.{
  ℕ, ◌≡◌, sym, subst, ◌+◌, arith, String, Bool, true, not, ◌&&◌, ◌||◌, Option, none, some, List, [],
  ◌∷◌, ◌++◌, ◌==◌, leb, ltb, if◌then◌else◌, str_eq, str_append, or_empty, is_empty, is_some, all,
  find, keep, length, contains, ◌=?◌,
}
use soomsuite_agent.Errors.{
  Result, ok, err, or_raise, not_found, conflict, validation_failed, rate_limited,
}
use soomsuite_agent.Schemas.Scan.{
  ScanStatus, scan_status_enum, pending_approval, queued, running, succeeded, failed, cancelled,
  timed_out,
}
use soomsuite_agent.Security.ServiceAuth.{RequestContext}
use soomsuite_agent.Store.{
  Action, lift, raise_when, update_first, ◌>>=◌, ◌>>◌, find-key, find-update_first_self,
}
use soomsuite_agent.Scans.{Asset, ScanJob, ScanDb, ScanPayload, ScanExternals}
use soomsuite_agent.Scans.Gate.{evaluate_gate, raise_if_failed, is_after}

-- `approval_payload`
unfoldable pub approval_payload : ScanExternals → ℕ → ScanJob → ScanPayload
approval_payload ext tenant_id job = record {
  tenant_id = tenant_id;
  scan_job_id = job.id;
  asset_id = job.asset_id;
  target_url = job.target_url;
  profile = job.profile;
  scanners = ext.sorted job.scanners;
  authorization_ticket = job.authorization_ticket;
  customer_authorization_ref = job.customer_authorization_ref;
  requested_by = job.requested_by;
  timeout_seconds = job.timeout_seconds;
}

abbrev pub has_id : ℕ → ScanJob → Bool
has_id id j = j.id == id

abbrev pub find_job : ℕ → ScanDb → Option ScanJob
find_job id db = find (has_id id) db.jobs

abbrev pub find_asset : ℕ → ScanDb → Option Asset
find_asset id db = find (λ a. a.id == id) db.assets

-- The flush of a changed job.
abbrev pub save_job : ℕ → (ScanJob → ScanJob) → ScanDb → ScanDb
save_job id f db = record db { jobs = update_first (has_id id) f db.jobs }

abbrev pub save_asset : ℕ → (Asset → Asset) → ScanDb → ScanDb
save_asset id f db = record db { assets = update_first (λ a. a.id == id) f db.assets }

abbrev kept_or_raise : Option Asset → Result Asset
kept_or_raise none = err (not_found "")
kept_or_raise (some a) = if is_some a.deleted_at then err (not_found "") else ok a

unfoldable pub asset : ℕ → Action ScanDb Asset
asset asset_id db = (kept_or_raise (find_asset asset_id db), db)

unfoldable pub get : ℕ → Action ScanDb ScanJob
get job_id db = (or_raise (find_job job_id db) (not_found ""), db)

abbrev pub target_url : Asset → String
target_url a = str_append "https://" (str_append a.canonical_target "/")

-- `set(scanners) <= SCANNERS`
abbrev pub supported : List String → Bool
supported = all (λ x. str_eq x "nuclei" || str_eq x "zap")

-- `scheduled_for and scheduled_for > now + timedelta(days=30)`
abbrev pub too_far : ℕ → Option ℕ → Bool
too_far now scheduled_for = is_after (now + 2592000) scheduled_for

-- The count of jobs created in the last day.
abbrev pub todays : ℕ → ScanDb → ℕ
todays now db = length (keep (λ j. ltb now (j.created_at + 86400)) db.jobs)

-- The arguments of `create_job`.
pub record NewScan : Type 0 where
  pub asset_id : ℕ
  pub profile : String
  pub ticket : String
  pub scanners : List String
  pub idempotency_key : String
  pub scheduled_for : Option ℕ
  pub timeout_seconds : ℕ

module _ (ext : ScanExternals) where
  abbrev pub new_job : RequestContext → ℕ → ℕ → NewScan → Asset → ScanJob
  new_job ctx uuid now new a = record {
    id = uuid;
    asset_id = a.id;
    target_url = target_url a;
    requested_by = ctx.principal.subject;
    approval_id = none;
    authorization_ticket = new.ticket;
    customer_authorization_ref = or_empty a.customer_authorization_ref;
    profile = new.profile;
    scanners = ext.sorted_set new.scanners;
    status = pending_approval;
    workflow_id = none;
    idempotency_key = new.idempotency_key;
    scheduled_for = new.scheduled_for;
    started_at = none;
    finished_at = none;
    timeout_seconds = new.timeout_seconds;
    attempt = 1;
    retry_of_id = none;
    findings_count = 0;
    error = none;
    created_at = now;
  }

  abbrev pub add_job : ScanJob → Action ScanDb ScanJob
  add_job j db = (ok j, record db { jobs = db.jobs ++ (j ∷ []) })

  abbrev pub limit_per_day : ℕ → Action ScanDb (Unit {0})
  limit_per_day now db =
      (if leb ext.max_per_day (todays now db) then err (rate_limited 3600) else ok tt, db)

  -- `create_job` for a key that no job has.
  unfoldable pub create_new : RequestContext → ℕ → ℕ → NewScan → Action ScanDb ScanJob
  create_new ctx uuid now new = do
    a ← asset new.asset_id
    lift (raise_if_failed (evaluate_gate ext ctx a new.ticket new.profile now))
    raise_when (is_empty new.scanners || not (supported new.scanners))
        (validation_failed "unsupported scanner")
    limit_per_day now
    raise_when (too_far now new.scheduled_for)
        (validation_failed "scans can be scheduled at most 30 days ahead")
    add_job (new_job ctx uuid now new a)

  abbrev reuse : Option ScanJob → NewScan → Action ScanDb ScanJob → Action ScanDb ScanJob
  reuse none new create db = create db
  reuse (some existing) new create db = (
    if not (existing.asset_id == new.asset_id) || not (str_eq existing.profile new.profile)
        then err (conflict "idempotency key reused with different parameters")
        else ok existing,
    db,
  )

  unfoldable pub create_job : RequestContext → ℕ → ℕ → NewScan → Action ScanDb ScanJob
  unfolding create_new
  create_job ctx uuid now new db =
      reuse (find (λ j. str_eq j.idempotency_key new.idempotency_key) db.jobs) new
        (create_new ctx uuid now new) db

  abbrev pub occupied : ScanDb → ℕ
  occupied db = length (keep (λ j. contains (queued ∷ running ∷ []) j.status) db.jobs)

  unfoldable pub ensure_capacity : Action ScanDb (Unit {0})
  ensure_capacity db =
      (if leb ext.max_concurrent (occupied db) then err (rate_limited 300) else ok tt, db)

abbrev pub terminal : List ScanStatus
terminal = succeeded ∷ failed ∷ cancelled ∷ timed_out ∷ []

-- The assignments of `set_status`, in their order.
abbrev pub with_status : ℕ → ScanStatus → Option String → ScanJob → ScanJob
with_status now status error job = record job {
  status = status;
  started_at = if status =? running then some now else job.started_at;
  finished_at = if contains terminal status then some now else job.finished_at;
  error = if contains terminal status then error else job.error;
}

abbrev set_found : ℕ → ScanStatus → Option String → Option ScanJob → Action ScanDb ScanJob
set_found now status error none db = (err (not_found ""), db)
set_found now status error (some job) db =
    if contains terminal job.status && not (status =? job.status)
    then (ok job, db)
    else (ok (with_status now status error job), save_job job.id (with_status now status error) db)

unfoldable pub set_status : ℕ → ℕ → ScanStatus → Option String → Action ScanDb ScanJob
set_status now job_id status error db = set_found now status error (find_job job_id db) db

pub find_job-id : (id : ℕ) (db : ScanDb) (job : ScanJob) → find_job id db ≡ some job → job.id ≡ id
find_job-id id db job found =
    let key : (job.id == id) ≡ true = find-key (has_id id) db.jobs job found in ground arith

-- The job that is saved is the one that is found next.
pub find_job-save_job :
    (id : ℕ) (db : ScanDb) (job : ScanJob) (f : ScanJob → ScanJob)
    → ((j : ScanJob) → has_id id (f j) ≡ has_id id j)
    → find_job id db ≡ some job
    → find_job id (save_job job.id f db) ≡ some (f job)
find_job-save_job id db job f keeps found =
    subst (λ k. find_job id (save_job k f db) ≡ some (f job)) (sym (find_job-id id db job found))
      (find-update_first_self (has_id id) f db.jobs job keeps found)
