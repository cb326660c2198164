-- ===== src/Approvals/Trace.antt =====
-- The service over time: any sequence of calls, by any tenants, each in its own transaction.
use soomsuite_agent.Prelude.{
  ℕ, ◌≡◌, ap, inl, inr, String, Bool, true, false, Option, none, some, List, [], ◌∷◌, arith,
  Option-cases,
}
use soomsuite_agent.Schemas.Approval.{ApprovalStatus, pending, approved}
use soomsuite_agent.Store.{transaction}
use soomsuite_agent.Approvals.{Payload, ApprovalRequest, Db, Externals}
use soomsuite_agent.Approvals.Service.{find_row, create, preapprove}
use soomsuite_agent.Approvals.Decision.{decide, consume, cancel, expire_all}
use soomsuite_agent.Approvals.Evolution.{
  Evolves, stays, decided, executes, cancels, expires, Evolution,
}
use soomsuite_agent.Approvals.Steps.Creating.{create-Evolution}
use soomsuite_agent.Approvals.Steps.Preapproving.{preapprove-Evolution}
use soomsuite_agent.Approvals.Steps.Deciding.{decide-Evolution, cancel-Evolution}
use soomsuite_agent.Approvals.Steps.Redeeming.{consume-Evolution, expire_all-Evolution}

-- A call of the service, with the tenant of its session.
pub data Call : Type 0 where
  create_call :
      (tenant uuid now : ℕ) (action_type : String) (payload : Payload) (reason : String)
      (target_type : Option String) (target_id : Option ℕ) (by by_type via : String)
      → Call
  preapprove_call :
      (tenant uuid now : ℕ) (action_type : String) (payload : Payload) (reason : String)
      (target_type : Option String) (target_id : Option ℕ) (by : String)
      → Call
  decide_call :
      (tenant now id : ℕ) (approve : Bool) (approver hash : String) (comment : Option String) → Call
  consume_call :
      (tenant now id : ℕ) (action_type : String) (payload : Payload) (consumer : String) → Call
  cancel_call : (tenant id : ℕ) (actor : String) → Call
  expire_call : (now : ℕ) → Call

module _ (ext : Externals) where
  -- The state after the call's transaction has ended.
  unfoldable pub perform : Call → Db → Db
  perform (create_call t uuid now at payload reason tt' ti by by_type via) db =
      (transaction (create ext t uuid now at payload reason tt' ti by by_type via) db).1
  perform (preapprove_call t uuid now at payload reason tt' ti by) db =
      (transaction (preapprove ext t uuid now at payload reason tt' ti by) db).1
  perform (decide_call t now id approve approver hash comment) db =
      (transaction (decide ext t now id approve approver hash comment) db).1
  perform (consume_call t now id at payload consumer) db =
      (transaction (consume ext t now id at payload consumer) db).1
  perform (cancel_call t id actor) db = (transaction (cancel ext t id actor) db).1
  perform (expire_call now) db = (transaction (expire_all now) db).1

  unfoldable pub run : List Call → Db → Db
  run [] db = db
  run (c ∷ cs) db = run cs (perform c db)

  -- Every call moves every request, its own and all others of all tenants, by at most one step of
  -- the relation `Evolves`, and adds only requests that satisfy `IsNew`; it deletes none.
  pub perform-Evolution :
      (c : Call) (db : Db) (t i : ℕ) → Evolution ext (find_row t i db) (find_row t i (perform c db))
  unfolding perform
  perform-Evolution (create_call t uuid now at payload reason tt' ti by by_type via) db x i =
      create-Evolution ext t uuid now at payload reason tt' ti by by_type via db x i
  perform-Evolution (preapprove_call t uuid now at payload reason tt' ti by) db x i =
      preapprove-Evolution ext t uuid now at payload reason tt' ti by db x i
  perform-Evolution (decide_call t now id approve approver hash comment) db x i =
      decide-Evolution ext t now id approve approver hash comment db x i
  perform-Evolution (consume_call t now id at payload consumer) db x i =
      consume-Evolution ext t now id at payload consumer db x i
  perform-Evolution (cancel_call t id actor) db x i = cancel-Evolution ext t id actor db x i
  perform-Evolution (expire_call now) db x i = expire_all-Evolution ext 0 now db x i

  abbrev pub is_terminal : ApprovalStatus → Bool
  is_terminal pending = false
  is_terminal approved = false
  is_terminal _ = true

  Evolves-terminal :
      (r r' : ApprovalRequest) → is_terminal r.status ≡ true → Evolves ext r r' → r' ≡ r
  Evolves-terminal r r' h (stays e) = e
  Evolves-terminal r r' h (decided a n p c s l o e) = ground arith
  Evolves-terminal r r' h (executes n c s l e) = ground arith
  Evolves-terminal r r' h (cancels a s o e) = ground arith
  Evolves-terminal r r' h (expires n s l e) = ground arith

  perform_terminal :
      (c : Call) (db : Db) (t i : ℕ) (r : ApprovalRequest)
      → is_terminal r.status ≡ true
      → find_row t i db ≡ some r
      → find_row t i (perform c db) ≡ some r
  perform_terminal c db t i r h found =
      let moved : Evolution ext (some r) (find_row t i (perform c db)) =
        rw found at (perform-Evolution c db t i) in
      elim (Option-cases (find_row t i (perform c db))) [
        | inl lost ↦ let gone : Evolution ext (some r) none = rw lost at moved in absurd gone
        | inr (r', now_found) ↦
            let step : Evolution ext (some r) (some r') = rw now_found at moved in
            rw now_found (ap some (Evolves-terminal r r' h step))
      ]

  -- A request that was rejected, has expired, was executed or was cancelled stays exactly as it is,
  -- whatever calls follow.
  pub run_terminal :
      (cs : List Call) (db : Db) (t i : ℕ) (r : ApprovalRequest)
      → is_terminal r.status ≡ true
      → find_row t i db ≡ some r
      → find_row t i (run cs db) ≡ some r
  unfolding run
  run_terminal [] db t i r h found = found
  run_terminal (c ∷ cs) db t i r h found =
      run_terminal cs (perform c db) t i r h (perform_terminal c db t i r h found)
