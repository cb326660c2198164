-- ===== src/Approvals/Decision.antt =====
-- services/approvals/src/approval_service/service.py: the methods of `ApprovalService` that decide a
-- request, redeem it, cancel it and expire it.
use soomsuite_agent.Prelude.{
  ℕ, String, Bool, not, ◌&&◌, ◌||◌, Option, none, some, if◌then◌else◌, leb, ltb, str_eq, str_take,
  or_none, or_empty, keep, length, ◌=?◌,
}
use soomsuite_agent.Errors.{ok, err, forbidden, conflict}
use soomsuite_agent.Schemas.Approval.{
  approval_status_enum, pending, approved, rejected, expired, executed, cancelled,
}
use soomsuite_agent.Store.{Action, pure, gets, modify, raise_when, update_all, ◌>>=◌, ◌>>◌}
use soomsuite_agent.Approvals.{Payload, ApprovalRequest, Db, Externals}
use soomsuite_agent.Approvals.Service.{find_row, save_row, sign, get}

abbrev pub decision :
    Externals → Bool → ℕ → String → Option String → ApprovalRequest → ApprovalRequest
decision ext approve now approver comment req =
    let decided = record req {
      status = if approve then approved else rejected;
      approved_by = some approver;
      approved_at = some now;
      decision_comment = or_none (str_take 1000 (or_empty comment));
    } in
    if approve then record decided { approval_signature = some (sign ext decided) } else decided

abbrev pub redeemed : ℕ → String → ApprovalRequest → ApprovalRequest
redeemed now consumer r = record r {
  status = executed;
  consumed_at = some now;
  consumed_by = some consumer;
}

module _ (ext : Externals) (tenant : ℕ) where
  -- `if req.expires_at <= now: req.status = EXPIRED; raise Conflict(…)`
  abbrev pub expire_if_due : ℕ → ApprovalRequest → Action Db (Unit {0})
  expire_if_due now req db =
      if leb req.expires_at now
      then (
        err (conflict "approval request has expired"),
        save_row tenant req.id (λ r. record r { status = expired }) db,
      )
      else (ok tt, db)

  -- The part of `decide` that checks the request as it was loaded.
  unfoldable pub decide_checks : ℕ → ApprovalRequest → String → String → Action Db (Unit {0})
  decide_checks now req approver echoed_hash = do
    raise_when (not (req.status =? pending)) (conflict "approval request is not pending")
    expire_if_due now req
    raise_when (not (str_eq echoed_hash req.payload_hash))
        (conflict "the reviewed payload does not match the request (it may have changed)")
    raise_when (str_eq approver req.requested_by)
        (forbidden "requesters cannot approve their own requests")

  -- The flush of the fields that `decide` assigns, on the row as it then is.
  unfoldable pub decide_flush : Bool → ℕ → ℕ → String → Option String → Action Db (Unit {0})
  decide_flush approve now approval_id approver comment =
      modify (save_row tenant approval_id (decision ext approve now approver comment))

  unfoldable pub decide :
      (now approval_id : ℕ) (approve : Bool) (approver echoed_hash : String)
      (comment : Option String)
      → Action Db ApprovalRequest
  unfolding get decide_checks decide_flush
  decide now approval_id approve approver echoed_hash comment = do
    req ← get ext tenant approval_id
    decide_checks now req approver echoed_hash
    decide_flush approve now approval_id approver comment
    pure (decision ext approve now approver comment req)

  abbrev pub is_redeemable : ℕ → ApprovalRequest → Bool
  is_redeemable now r = (r.status =? approved) && ltb now r.expires_at

  abbrev redeem_row : ℕ → ℕ → String → Option ApprovalRequest → Action Db (Unit {0})
  redeem_row now approval_id consumer none db =
      (err (conflict "approval is not valid for execution (pending, used, or expired)"), db)
  redeem_row now approval_id consumer (some r) db =
      if is_redeemable now r
      then (ok tt, save_row tenant approval_id (redeemed now consumer) db)
      else (err (conflict "approval is not valid for execution (pending, used, or expired)"), db)

  -- The `UPDATE … WHERE … RETURNING` of `consume`, one atomic statement on the row of the primary
  -- key.
  unfoldable pub redeem : (now approval_id : ℕ) (consumer : String) → Action Db (Unit {0})
  redeem now approval_id consumer db =
      redeem_row now approval_id consumer (find_row tenant approval_id db) db

  unfoldable pub consume :
      (now approval_id : ℕ) (action_type : String) (payload : Payload) (consumer : String)
      → Action Db ApprovalRequest
  unfolding get redeem
  consume now approval_id action_type payload consumer = do
    req ← get ext tenant approval_id
    raise_when
        (not (str_eq req.action_type action_type)
          || not (str_eq (ext.payload_hash payload) req.payload_hash))
        (forbidden "action parameters differ from the approved payload")
    redeem now approval_id consumer
    get ext tenant approval_id

  unfoldable pub cancel : (approval_id : ℕ) (actor : String) → Action Db ApprovalRequest
  unfolding get
  cancel approval_id actor = do
    req ← get ext tenant approval_id
    raise_when (not (req.status =? pending)) (conflict "only pending requests can be cancelled")
    raise_when (not (str_eq req.requested_by actor)) (forbidden "")
    modify (save_row tenant approval_id (λ r. record r { status = cancelled }))
    pure (record req { status = cancelled })

-- `app_expire_approvals()` (packages/database/alembic/versions/0002_service_roles.py), across all
-- tenants; the number of rows changed is its result.
abbrev pub is_due : ℕ → ApprovalRequest → Bool
is_due now r = ((r.status =? pending) || (r.status =? approved)) && leb r.expires_at now

unfoldable pub expire_all : ℕ → Action Db ℕ
expire_all now = do
  n ← gets (λ (db : Db). length (keep (is_due now) db.requests))
  modify (λ (db : Db). record db {
    requests = update_all (is_due now) (λ r. record r { status = expired }) db.requests;
  })
  pure n
