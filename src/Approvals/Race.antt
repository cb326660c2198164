-- ===== src/Approvals/Race.antt =====
-- Two sessions of `ApprovalService.decide` (services/approvals/src/approval_service/service.py) that
-- overlap: each loads and checks the request before the other writes it. The load takes no lock, and
-- the write asks for no status.
use soomsuite_agent.Prelude.{
  ℕ, ◌≡◌, refl, inl, inr, String, true, false, Option, none, some, arith, str_eq, leb, ltb,
  Bool-cases,
}
use soomsuite_agent.Errors.{ok, is_ok}
use soomsuite_agent.Schemas.Approval.{approval_status_enum, approved}
use soomsuite_agent.Store.{Action, transaction, find-update_first_self, ◌>>=◌}
use soomsuite_agent.Approvals.{Payload, ApprovalRequest, Db, Externals}
use soomsuite_agent.Approvals.Service.{find_row, save_row, is_row, get}
use soomsuite_agent.Approvals.Decision.{
  decision, redeemed, redeem, consume, decide_checks, decide_flush,
}
use soomsuite_agent.Approvals.SingleUse.{attempt}

module _ (ext : Externals) (tenant : ℕ) where
  -- The first half of `decide`: the load and the checks.
  unfoldable pub begin : (now id : ℕ) (approver echoed_hash : String) → Action Db (Unit {0})
  unfolding get decide_checks
  begin now id approver echoed_hash = do
    req ← get ext tenant id
    decide_checks ext tenant now req approver echoed_hash

  begin-in_time :
      (now id : ℕ) (approver echoed_hash : String) (db : Db) (r : ApprovalRequest)
      → find_row tenant id db ≡ some r
      → (begin now id approver echoed_hash db).0 ≡ ok tt
      → leb r.expires_at now ≡ false
  unfolding begin get decide_checks
  begin-in_time now id approver echoed_hash db r found h =
      elim (Bool-cases (leb r.expires_at now)) [
        | inr current ↦ current
        | inl late ↦ absurd (ground arith)
      ]

  -- An approved request that is in time is redeemed.
  attempt-ok :
      (now id : ℕ) (action_type : String) (payload : Payload) (consumer : String) (db : Db)
      (r : ApprovalRequest)
      → find_row tenant id db ≡ some r
      → str_eq r.action_type action_type ≡ true
      → str_eq (ext.payload_hash payload) r.payload_hash ≡ true
      → r.status ≡ approved
      → leb r.expires_at now ≡ false
      → (is_ok (attempt ext tenant now id action_type payload consumer db).0 ≡ true)
        × (find_row tenant id (attempt ext tenant now id action_type payload consumer db).1
            ≡ some (redeemed now consumer r))
  unfolding consume redeem transaction get
  attempt-ok now id action_type payload consumer db r found same hashed granted current =
      let fresh : ltb now r.expires_at ≡ true = ground arith in
      let stored : find_row tenant id (save_row tenant id (redeemed now consumer) db)
          ≡ some (redeemed now consumer r) =
        find-update_first_self (is_row tenant id) (redeemed now consumer) db.requests r (λ r. refl)
          found in
      (ground arith, ground arith)

  flushed :
      (now id : ℕ) (approver : String) (comment : Option String) (db : Db) (r : ApprovalRequest)
      → find_row tenant id db ≡ some r
      → find_row tenant id (decide_flush ext tenant true now id approver comment db).1
        ≡ some (decision ext true now approver comment r)
  unfolding decide_flush
  flushed now id approver comment db r found =
      find-update_first_self (is_row tenant id) (decision ext true now approver comment) db.requests
        r (λ r. refl) found

  -- One approval is written, the approved action is run, and then the other approval is written.
  abbrev pub between :
      (now id : ℕ) (action_type : String) (payload : Payload) (consumer : String)
      → (first second : String) → Db
      → Db
  between now id action_type payload consumer first second db =
      (decide_flush ext tenant true now id second none
        (attempt ext tenant now id action_type payload consumer
          (decide_flush ext tenant true now id first none db).1).1).1

  -- Where two approvers have both passed the checks of `decide` before either's decision is written,
  -- the approval serves twice for the payload it was given for: it is redeemed after the first write, and the second write makes a
  -- request that was executed approved again, so that it is redeemed once more.
  pub begin-twice :
      (now id : ℕ) (first second echoed echoed' action_type : String) (payload : Payload)
      (consumer consumer' : String) (db : Db) (r : ApprovalRequest)
      → find_row tenant id db ≡ some r
      → (begin now id first echoed db).0 ≡ ok tt
      → (begin now id second echoed' db).0 ≡ ok tt
      → str_eq r.action_type action_type ≡ true
      → str_eq (ext.payload_hash payload) r.payload_hash ≡ true
      → (is_ok
            (attempt ext tenant now id action_type payload consumer
              (decide_flush ext tenant true now id first none db).1).0
          ≡ true)
        × (is_ok
              (attempt ext tenant now id action_type payload consumer'
                (between now id action_type payload consumer first second db)).0
            ≡ true)
  begin-twice now id first second echoed echoed' action_type payload consumer consumer' db r found
        started started' same hashed =
      let current = begin-in_time now id first echoed db r found started in
      let approved_row = decision ext true now first none r in
      let once = decide_flush ext tenant true now id first none db in
      let (done, executed_row) =
        attempt-ok now id action_type payload consumer once.1 approved_row
          (flushed now id first none db r found) same hashed refl current in
      let used = attempt ext tenant now id action_type payload consumer once.1 in
      let again =
        flushed now id second none used.1 (redeemed now consumer approved_row) executed_row in
      let (done_again, _) =
        attempt-ok now id action_type payload consumer'
          (decide_flush ext tenant true now id second none used.1).1
          (decision ext true now second none (redeemed now consumer approved_row)) again same hashed
          refl current in
      (done, done_again)
