-- ===== src/Approvals/Expiry.antt =====
-- What a decision on a request that is due leaves behind.
use soomsuite_agent.Prelude.{ℕ, ◌≡◌, String, Bool, true, Option, some, leb, arith}
use soomsuite_agent.Errors.{err, conflict}
use soomsuite_agent.Schemas.Approval.{approval_status_enum, pending}
use soomsuite_agent.Store.{transaction}
use soomsuite_agent.Approvals.{ApprovalRequest, Db, Externals}
use soomsuite_agent.Approvals.Service.{find_row, get}
use soomsuite_agent.Approvals.Decision.{decide, decide_checks}

-- A decision on a pending request that is past its time answers that it has expired, but leaves the
-- stored request pending: the transaction that the error ends takes the new status back.
pub decide_rolled_back :
    (ext : Externals) (tenant now id : ℕ) (approve : Bool) (approver hash : String)
    (comment : Option String) (db : Db) (r : ApprovalRequest)
    → find_row tenant id db ≡ some r
    → r.status ≡ pending
    → leb r.expires_at now ≡ true
    → transaction (decide ext tenant now id approve approver hash comment) db
      ≡ (err (conflict "approval request has expired"), db)
unfolding transaction decide decide_checks get
decide_rolled_back ext tenant now id approve approver hash comment db r found waiting due =
    ground arith
