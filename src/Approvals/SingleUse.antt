-- ===== src/Approvals/SingleUse.antt =====
-- Redemption: what a successful `consume` needs, and that an approval serves once.
use soomsuite_agent.Prelude.{
  ℕ, ◌<◌, ◌≡◌, refl, inl, inr, String, true, false, some, List, arith, str_eq, ltb→lt, Option-cases,
  Bool-cases, and_true, =?→eq,
}
use soomsuite_agent.Errors.{Result, ok, is_ok}
use soomsuite_agent.Schemas.Approval.{approval_status_enum, approved, executed}
use soomsuite_agent.Store.{transaction, find-update_first_self}
use soomsuite_agent.Approvals.{Payload, ApprovalRequest, Db, Externals}
use soomsuite_agent.Approvals.Service.{find_row, save_row, is_row}
use soomsuite_agent.Approvals.Decision.{is_redeemable, redeemed, redeem, consume}
use soomsuite_agent.Approvals.Trace.{Call, run, run_terminal}

module _ (ext : Externals) (tenant : ℕ) where
  abbrev pub attempt : ℕ → ℕ → String → Payload → String → Db → Result ApprovalRequest × Db
  attempt now id action_type payload consumer db =
      transaction (consume ext tenant now id action_type payload consumer) db

  -- What holds before and after a redemption that succeeds.
  pub record IsRedeemed (now id : ℕ) (action_type : String) (payload : Payload) (consumer : String)
      (db db' : Db) (out : ApprovalRequest) : Type 0 where
    pub request : ApprovalRequest
    pub found : find_row tenant id db ≡ some request
    pub same_action : str_eq request.action_type action_type ≡ true
    pub same_payload : str_eq (ext.payload_hash payload) request.payload_hash ≡ true
    pub granted : request.status ≡ approved
    pub in_time : now < request.expires_at
    pub result : out ≡ redeemed now consumer request
    pub stored : find_row tenant id db' ≡ some (redeemed now consumer request)

  redeemed_row :
      (now id : ℕ) (consumer : String) (db : Db) (r : ApprovalRequest)
      → find_row tenant id db ≡ some r
      → find_row tenant id (save_row tenant id (redeemed now consumer) db)
        ≡ some (redeemed now consumer r)
  redeemed_row now id consumer db r found =
      find-update_first_self (is_row tenant id) (redeemed now consumer) db.requests r (λ r. refl)
        found

  pub consume-IsRedeemed :
      (now id : ℕ) (action_type : String) (payload : Payload) (consumer : String) (db : Db)
      (out : ApprovalRequest)
      → (attempt now id action_type payload consumer db).0 ≡ ok out
      → IsRedeemed now id action_type payload consumer db
          (attempt now id action_type payload consumer db).1
          out
  unfolding consume redeem transaction
  consume-IsRedeemed now id action_type payload consumer db out h =
      elim (Option-cases (find_row tenant id db)) [
        | inl missing ↦ absurd (ground arith)
        | inr (r, found) ↦
            let saved = redeemed_row now id consumer db r found in
            let same = str_eq r.action_type action_type in
            let hashed = str_eq (ext.payload_hash payload) r.payload_hash in
            elim (Bool-cases same) [
              | inr other ↦ absurd (ground arith)
              | inl a ↦ elim (Bool-cases hashed) [
                | inr other ↦ absurd (ground arith)
                | inl p ↦ elim (Bool-cases (is_redeemable ext tenant now r)) [
                  | inr unfit ↦ absurd (ground arith)
                  | inl fit ↦ record {
                    request = r;
                    found = found;
                    same_action = a;
                    same_payload = p;
                    granted = =?→eq _ _ (and_true _ _ fit).0;
                    in_time = ltb→lt _ _ (and_true _ _ fit).1;
                    result = ground arith;
                    stored = ground arith;
                  }
                ]
              ]
            ]
      ]

  consume_executed :
      (now id : ℕ) (action_type : String) (payload : Payload) (consumer : String) (db : Db)
      (r : ApprovalRequest)
      → find_row tenant id db ≡ some r
      → r.status ≡ executed
      → is_ok (attempt now id action_type payload consumer db).0 ≡ false
  unfolding consume redeem transaction
  consume_executed now id action_type payload consumer db r found done = ground arith

  -- An approval that was consumed once is never consumed again by calls that run one after another:
  -- after the first success, and after any calls of any tenants, every further attempt on it fails,
  -- whatever it presents.
  pub consume_once :
      (now id : ℕ) (action_type : String) (payload : Payload) (consumer : String) (db : Db)
      (out : ApprovalRequest) (calls : List Call) (now' : ℕ) (action_type' : String)
      (payload' : Payload) (consumer' : String)
      → (attempt now id action_type payload consumer db).0 ≡ ok out
      → is_ok
          (attempt now' id action_type' payload' consumer'
            (run ext calls (attempt now id action_type payload consumer db).1)).0
        ≡ false
  consume_once now id action_type payload consumer db out calls now' action_type' payload' consumer'
        h =
      let first = consume-IsRedeemed now id action_type payload consumer db out h in
      let kept =
        run_terminal ext calls _ tenant id (redeemed now consumer first.request) refl
          first.stored in
      consume_executed now' id action_type' payload' consumer' _ _ kept refl
