-- ===== src/Scans/Lifecycle.antt =====
-- How the status of a scan may change.
use soomsuite_agent.Prelude.{
  ℕ, ◌+◌, Bool, List, ◌∙◌, length, ==_refl, ◌≡◌, refl, inl, inr, sym, subst, str_eq_iff, String,
  true, false, not, ◌&&◌, Option, none, some, arith, Bool-cases, Option-cases, contains, str_eq,
  find, ==_iff, =?→eq, ◌=?◌, str_append, [], ◌∷◌,
}
use soomsuite_agent.Errors.{ok}
use soomsuite_agent.Schemas.Scan.{ScanStatus, scan_status_enum, failed, timed_out, cancelled}
use soomsuite_agent.Security.Rbac.{scan_request}
use soomsuite_agent.Security.ServiceAuth.{RequestContext}
use soomsuite_agent.Security.Policy.{require}
use soomsuite_agent.Store.{transaction, find-update_first, update_first}
use soomsuite_agent.Scans.{ScanJob, ScanDb, ScanExternals}
use soomsuite_agent.Scans.Service.{
  approval_payload, find_job, find_job-id, find_job-save_job, save_job, has_id, get, set_status,
  terminal, with_status, create_job,
}
use soomsuite_agent.Scans.Api.{retry_session, retry_scan, retry_of, again, set_approval}

-- A write that `set_status` makes to a scan that has ended repeats the status that it has.
rewritten_same :
    (id : ℕ) (status : ScanStatus) (db : ScanDb) (k : ℕ) (job changed : ScanJob)
    → find_job k db ≡ some job
    → find_job id db ≡ some changed
    → has_id changed.id job ≡ true
    → contains terminal job.status ≡ true
    → (contains terminal changed.status && not (status =? changed.status)) ≡ false
    → status ≡ job.status
rewritten_same id status db k job changed found target hit ended written =
    let e1 : job.id ≡ changed.id = (==_iff job.id changed.id).0 hit in
    let e2 : k ≡ id =
      omega (arith, e1, find_job-id k db job found, find_job-id id db changed target) in
    let here : some job ≡ some changed = rw (← found, ← target, e2) refl in
    let same : job ≡ changed = cc in
    let done : (contains terminal job.status && not (status =? job.status)) ≡ false =
      subst (λ (j : ScanJob). (contains terminal j.status && not (status =? j.status)) ≡ false)
        (sym same) written in
    =?→eq status job.status (ground arith)

-- A scan that has ended keeps its status whatever status a worker sets, on this or another scan.
pub set_status-terminal :
    (now id : ℕ) (status : ScanStatus) (error : Option String) (db : ScanDb) (k : ℕ) (job : ScanJob)
    → find_job k db ≡ some job
    → contains terminal job.status ≡ true
    → (j : ScanJob) × (find_job k (set_status now id status error db).1 ≡ some j)
      × (j.status ≡ job.status)
unfolding set_status
set_status-terminal now id status error db k job found ended =
    elim (Option-cases (find_job id db)) [
      | inl missing ↦ (job, rw missing found, refl)
      | inr (changed, target) ↦
          elim (Bool-cases (contains terminal changed.status && not (status =? changed.status))) [
            | inl kept ↦ (job, rw (target, kept) found, refl)
            | inr written ↦
                elim (find-update_first (has_id k) (has_id changed.id)
                  (with_status now status error) (λ j. refl) db.jobs job found) [
                    | inl other ↦ (job, rw (target, written) other, refl)
                    | inr (hit, saved) ↦ (
                      with_status now status error job,
                      rw (target, written) saved,
                      rewritten_same id status db k job changed found target hit ended written,
                    )
                  ]
          ]
    ]

length-update_first :
    (test : ScanJob → Bool) (f : ScanJob → ScanJob) (rows : List ScanJob)
    → length (update_first test f rows) ≡ length rows
length-update_first test f [] = refl
length-update_first test f (r ∷ rows) = ground (arith, length-update_first test f rows)

create_job-reuse :
    (ext : ScanExternals) (ctx : RequestContext) (uuid now : ℕ) (key : String) (db : ScanDb)
    (old : ScanJob)
    → find (λ (j : ScanJob). str_eq j.idempotency_key key) db.jobs ≡ some old
    → create_job ext ctx uuid now (again ext old key) db ≡ (ok old, db)
unfolding create_job
create_job-reuse ext ctx uuid now key db old same =
    let profile : str_eq old.profile old.profile ≡ true =
      (str_eq_iff old.profile old.profile).1 refl in
    rw (same, ==_refl old.asset_id, profile) refl

-- What a scan has become that was retried as itself: found under its identifier, in the status in
-- which it had ended, as a further attempt at itself and with another approval; no scan was added.
abbrev pub IsOwnRetry : ℕ → ℕ → ScanJob → ScanDb → ScanJob → ScanDb → Type 0
IsOwnRetry id approval old db job db' =
    (find_job id db' ≡ some job)
    × (job.status ≡ old.status)
    × (job.retry_of_id ≡ some job.id)
    × (job.attempt ≡ old.attempt + 1)
    × (job.approval_id ≡ some approval)
    × (length db'.jobs ≡ length db.jobs)

-- A retry under the idempotency key of the retried scan itself makes no new scan: the failed scan
-- is answered and stored as its own retry, still in the status in which it had ended, with the new
-- approval in place of its own.
pub retry_scan_self :
    (ext : ScanExternals) (ctx : RequestContext) (uuid now id approval : ℕ) (key : String)
    (db : ScanDb) (old : ScanJob)
    → require ctx scan_request none none ≡ ok tt
    → find_job id db ≡ some old
    → contains (failed ∷ timed_out ∷ cancelled ∷ []) old.status ≡ true
    → find (λ (j : ScanJob). str_eq j.idempotency_key key) db.jobs ≡ some old
    → ext.request_approval
        (approval_payload ext ctx.principal.tenant_id (retry_of ext old old))
        (str_append "Retry of scan " (ext.show_id old.id))
      ≡ ok approval
    → (job : ScanJob) × (db' : ScanDb) × (retry_scan ext ctx uuid now id key db ≡ (ok job, db'))
      × IsOwnRetry id approval old db job db'
unfolding retry_scan retry_session transaction get
retry_scan_self ext ctx uuid now id approval key db old allowed found ended same answered =
    let reused = create_job-reuse ext ctx uuid now key db old same in
    let first = save_job old.id (retry_of ext old) db in
    let final = save_job old.id (set_approval ext approval) first in
    let once : find_job id first ≡ some (retry_of ext old old) =
      find_job-save_job id db old (retry_of ext old) (λ j. refl) found in
    let twice : find_job id final ≡ some (set_approval ext approval (retry_of ext old old)) =
      find_job-save_job id first (retry_of ext old old) (set_approval ext approval) (λ j. refl)
        once in
    (
      set_approval ext approval (retry_of ext old old),
      final,
      ground (arith, reused),
      (
        twice,
        refl,
        refl,
        refl,
        refl,
        length-update_first (has_id old.id) (set_approval ext approval) first.jobs
            ∙ length-update_first (has_id old.id) (retry_of ext old) db.jobs,
      ),
    )
