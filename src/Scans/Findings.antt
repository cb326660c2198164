-- ===== src/Scans/Findings.antt =====
-- services/scanner-controller/src/scanner_controller/service.py, `persist_findings`: the results of
-- a scan's runs, merged into the findings by fingerprint. The log lines are left out.
use soomsuite_agent.Prelude.{
  ℕ, ◌≡◌, refl, inl, inr, String, Bool, Option, none, some, List, [], ◌∷◌, ◌++◌, if◌then◌else◌,
  str_eq, str_take, join, or_none, or_empty, non_empty, is_empty, map, keep, find, any, take,
  length, ◌∙◌, Bool-cases, Option-cases,
}
use soomsuite_agent.Errors.{ok, err, not_found}
use soomsuite_agent.Schemas.Scan.{succeeded, failed}
use soomsuite_agent.Store.{Action, update_first, find-append, find-update_first}
use soomsuite_agent.Scans.{ScanJob, Report, Finding, ScanDb}
use soomsuite_agent.Scans.Service.{find_job, save_job, find_job-save_job}

-- A run of one scanner, as the worker reports it.
pub record Run : Type 0 where
  pub findings : List Report
  pub error : Option String

abbrev pub has_fingerprint : String → Finding → Bool
has_fingerprint fp f = str_eq f.report.fingerprint fp

-- The update that `on_conflict_do_update` makes.
abbrev pub seen_again : ℕ → ScanJob → Finding → Finding
seen_again now job f = record f { last_seen = now; scan_job_id = job.id }

abbrev pub first_report : ℕ → ScanJob → Report → Finding
first_report now job r = record {
  scan_job_id = job.id;
  asset_id = job.asset_id;
  report = r;
  first_seen = now;
  last_seen = now;
}

-- `insert(Finding) … on_conflict_do_update` on the fingerprint.
unfoldable pub upsert : ℕ → ScanJob → Report → List Finding → List Finding
upsert now job r fs =
    if any (has_fingerprint r.fingerprint) fs
    then update_first (has_fingerprint r.fingerprint) (seen_again now job) fs
    else fs ++ (first_report now job r ∷ [])

unfoldable pub upsert_all : ℕ → ScanJob → List Report → List Finding → List Finding
upsert_all now job [] fs = fs
upsert_all now job (r ∷ rs) fs = upsert_all now job rs (upsert now job r fs)

unfoldable pub reports : List Run → List Report
reports [] = []
reports (run ∷ runs) = take 5000 run.findings ++ reports runs

-- `[r.get("error") for r in runs if r.get("error")]`
unfoldable pub errors : List Run → List String
errors runs = keep non_empty (map (λ (r : Run). or_empty r.error) runs)

-- The job after its results.
unfoldable pub finished : ℕ → List Run → ScanJob → ScanJob
finished now runs job = record job {
  findings_count = length (reports runs);
  status = if is_empty (errors runs) then succeeded else failed;
  error = or_none (str_take 1000 (join "; " (errors runs)));
  finished_at = some now;
}

abbrev persist_found : ℕ → List Run → Option ScanJob → Action ScanDb ℕ
persist_found now runs none db = (err (not_found ""), db)
persist_found now runs (some job) db = (
  ok (length (reports runs)),
  record (save_job job.id (finished now runs) db) {
    findings = upsert_all now job (reports runs) db.findings;
  },
)

unfoldable pub persist_findings : ℕ → ℕ → List Run → Action ScanDb ℕ
persist_findings now job_id runs db = persist_found now runs (find_job job_id db) db

-- What one upsert leaves of a finding that was there: what was first reported, and when.
pub record Remembers (f g : Finding) : Type 0 where
  pub same_report : f.report ≡ g.report
  pub same_asset : f.asset_id ≡ g.asset_id
  pub same_first_seen : f.first_seen ≡ g.first_seen

Remembers-self : (f : Finding) → Remembers f f
Remembers-self f = record { same_report = refl; same_asset = refl; same_first_seen = refl }

upsert-Remembers :
    (now : ℕ) (job : ScanJob) (r : Report) (fp : String) (fs : List Finding) (f : Finding)
    → find (has_fingerprint fp) fs ≡ some f
    → (g : Finding) × (find (has_fingerprint fp) (upsert now job r fs) ≡ some g) × Remembers f g
unfolding upsert
upsert-Remembers now job r fp fs f h = elim (Bool-cases (any (has_fingerprint r.fingerprint) fs)) [
  | inr new ↦ (
    f,
    rw new (find-append (has_fingerprint fp) fs f (first_report now job r) h),
    Remembers-self f,
  )
  | inl known ↦
      elim (find-update_first (has_fingerprint fp) (has_fingerprint r.fingerprint)
        (seen_again now job) (λ g. refl) fs f h) [
          | inl same ↦ (f, rw known same, Remembers-self f)
          | inr (_, changed) ↦ (
            seen_again now job f,
            rw known changed,
            record { same_report = refl; same_asset = refl; same_first_seen = refl },
          )
        ]
]

upsert_all-Remembers :
    (now : ℕ) (job : ScanJob) (rs : List Report) (fp : String) (fs : List Finding) (f : Finding)
    → find (has_fingerprint fp) fs ≡ some f
    → (g : Finding) × (find (has_fingerprint fp) (upsert_all now job rs fs) ≡ some g)
      × Remembers f g
unfolding upsert_all
upsert_all-Remembers now job [] fp fs f h = (f, h, Remembers-self f)
upsert_all-Remembers now job (r ∷ rs) fp fs f h =
    let (g, found, first) = upsert-Remembers now job r fp fs f h in
    let (k, last, second) = upsert_all-Remembers now job rs fp (upsert now job r fs) g found in
    (
      k,
      last,
      record {
        same_report = first.same_report ∙ second.same_report;
        same_asset = first.same_asset ∙ second.same_asset;
        same_first_seen = first.same_first_seen ∙ second.same_first_seen;
      },
    )

-- A finding that is on record stays on record whatever a scan reports: under its fingerprint there
-- is still a finding with the same report, asset and first sight.
pub persist_findings-Remembers :
    (now job_id : ℕ) (runs : List Run) (db : ScanDb) (fp : String) (f : Finding)
    → find (has_fingerprint fp) db.findings ≡ some f
    → (g : Finding) × (find (has_fingerprint fp) (persist_findings now job_id runs db).1.findings
        ≡ some g)
      × Remembers f g
unfolding persist_findings
persist_findings-Remembers now job_id runs db fp f h = elim (Option-cases (find_job job_id db)) [
  | inl missing ↦ (f, rw missing h, Remembers-self f)
  | inr (job, found) ↦
      let (g, kept, same) = upsert_all-Remembers now job (reports runs) fp db.findings f h in
      (g, rw found kept, same)
]

-- Reporting the results of a scan ends it whatever its status was, a cancelled scan included: it
-- becomes succeeded, or failed if a run has an error.
pub persist_findings-status :
    (now job_id : ℕ) (runs : List Run) (db : ScanDb) (job : ScanJob)
    → find_job job_id db ≡ some job
    → (j : ScanJob) × (find_job job_id (persist_findings now job_id runs db).1 ≡ some j)
      × (j.status ≡ (if is_empty (errors runs) then succeeded else failed))
unfolding persist_findings finished
persist_findings-status now job_id runs db job found = (
  finished now runs job,
  rw found (find_job-save_job job_id db job (finished now runs) (λ j. refl) found),
  refl,
)
