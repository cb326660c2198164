-- ===== src/Scans/Api/Start.antt =====
-- What the start of a scan has established.
use soomsuite_agent.Prelude.{
  ℕ, ◌<◌, ◌≡◌, refl, inl, inr, true, false, some, arith, Bool-cases, Option-cases, str_eq, is_some,
  leb, ◌=?◌, =?→eq, sym, ◌∙◌, subst,
}
use soomsuite_agent.Errors.{Result, ok, err, is_ok}
use soomsuite_agent.Schemas.Scan.{scan_status_enum, pending_approval}
use soomsuite_agent.Security.ServiceAuth.{RequestContext}
use soomsuite_agent.Store.{transaction}
use soomsuite_agent.Scans.{Asset, ScanJob, ScanDb, ScanExternals}
use soomsuite_agent.Scans.Gate.{
  evaluate_gate, passed, raise_if_failed, MayScan, evaluate_gate-MayScan,
}
use soomsuite_agent.Scans.Service.{
  find_job-save_job, approval_payload, find_job, find_asset, save_job, asset, get, target_url,
  ensure_capacity, occupied,
}
use soomsuite_agent.Scans.Api.{start_approved, start_session, start_scan, queued_as}

module _ (ext : ScanExternals) where
  -- What stood when a scan was started, and what it became.
  pub record IsStarted (ctx : RequestContext) (now job_id : ℕ) (db db' : ScanDb) : Type 0 where
    pub job : ScanJob
    pub found : find_job job_id db ≡ some job
    pub awaiting : job.status ≡ pending_approval
    pub approval : ℕ
    pub requested : job.approval_id ≡ some approval
    pub target : Asset
    pub target_found : find_asset job.asset_id db ≡ some target
    pub gate : MayScan ext ctx target job.authorization_ticket job.profile now
    pub same_target : str_eq job.target_url (target_url target) ≡ true
    pub capacity : occupied ext db < ext.max_concurrent
    pub consumed :
        ext.consume_approval approval (approval_payload ext ctx.principal.tenant_id job) ≡ ok tt
    pub saved : find_job job_id db' ≡ some (queued_as ext job)

  ok_tt : (r : Result (Unit {0})) → is_ok r ≡ true → r ≡ ok tt
  ok_tt (ok tt) h = refl
  ok_tt (err e) h = cc

  start_approved-steps :
      (ctx : RequestContext) (now : ℕ) (job : ScanJob) (approval : ℕ) (db : ScanDb)
      → is_ok (start_approved ext ctx now job approval db).0 ≡ true
      → (a : Asset) × (find_asset job.asset_id db ≡ some a)
        × (passed (evaluate_gate ext ctx a job.authorization_ticket job.profile now) ≡ true)
        × (str_eq job.target_url (target_url a) ≡ true)
        × (leb ext.max_concurrent (occupied ext db) ≡ false)
        × (is_ok (ext.consume_approval approval (approval_payload ext ctx.principal.tenant_id job))
            ≡ true)
  unfolding start_approved asset ensure_capacity raise_if_failed
  start_approved-steps ctx now job approval db h =
      elim (Option-cases (find_asset job.asset_id db)) [
        | inl missing ↦ absurd (ground arith)
        | inr (a, found) ↦ elim (Bool-cases (is_some a.deleted_at)) [
          | inl gone ↦ absurd (ground arith)
          | inr kept ↦ (a, found, ground arith, ground arith, ground arith, ground arith)
        ]
      ]

  start_approved-ok :
      (ctx : RequestContext) (now : ℕ) (job : ScanJob) (approval : ℕ) (db : ScanDb)
      → is_ok (start_approved ext ctx now job approval db).0 ≡ true
      → (start_approved ext ctx now job approval db).1 ≡ save_job job.id (queued_as ext) db
  unfolding start_approved asset ensure_capacity
  start_approved-ok ctx now job approval db h = ground arith

  start_scan-steps :
      (ctx : RequestContext) (now job_id : ℕ) (db : ScanDb)
      → is_ok (start_scan ext ctx now job_id db).0 ≡ true
      → (job : ScanJob) × (approval : ℕ) × (find_job job_id db ≡ some job)
        × (job.approval_id ≡ some approval)
        × ((job.status =? pending_approval) ≡ true)
        × (is_ok (start_approved ext ctx now job approval db).0 ≡ true)
        × ((start_scan ext ctx now job_id db).1 ≡ (start_approved ext ctx now job approval db).1)
  unfolding start_scan transaction start_session get
  start_scan-steps ctx now job_id db h = elim (Option-cases (find_job job_id db)) [
    | inl missing ↦ absurd (ground arith)
    | inr (job, found) ↦ elim (Option-cases job.approval_id) [
      | inl none_yet ↦ absurd (ground arith)
      | inr (approval, requested) ↦
          (job, approval, found, requested, ground arith, ground arith, ground arith)
    ]
  ]

  -- A scan starts only from a job that awaits its start, on an asset that meets every condition at
  -- that moment and still has the approved target, below the limit of concurrent scans, and after
  -- the approval service consumed the job's approval for exactly this scan; it is then queued.
  pub start_scan-IsStarted :
      (ctx : RequestContext) (now job_id : ℕ) (db : ScanDb)
      → is_ok (start_scan ext ctx now job_id db).0 ≡ true
      → IsStarted ctx now job_id db (start_scan ext ctx now job_id db).1
  start_scan-IsStarted ctx now job_id db h =
      let (job, approval, found, requested, awaiting, started, state) =
        start_scan-steps ctx now job_id db h in
      let (a, target_found, gate, same, room, consumed) =
        start_approved-steps ctx now job approval db started in
      record {
        job = job;
        found = found;
        awaiting = =?→eq job.status pending_approval awaiting;
        approval = approval;
        requested = requested;
        target = a;
        target_found = target_found;
        gate = (evaluate_gate-MayScan ext ctx a job.authorization_ticket job.profile now).0 gate;
        same_target = same;
        capacity = ground arith;
        consumed = ok_tt _ consumed;
        saved =
            subst (λ s. find_job job_id s ≡ some (queued_as ext job))
              (sym (state ∙ start_approved-ok ctx now job approval db started))
              (find_job-save_job job_id db job (queued_as ext) (λ j. refl) found);
      }
