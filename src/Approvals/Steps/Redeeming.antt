-- ===== src/Approvals/Steps/Redeeming.antt =====
-- Redemption and expiry keep to the relation of `Evolution`.
use soomsuite_agent.Prelude.{
  ℕ, ◌≡◌, refl, ◌⊎◌, inl, inr, String, true, ◌||◌, some, arith, ltb→lt, leb→le, Bool-cases,
  Option-cases, and_true, ◌=?◌, =?→eq,
}
use soomsuite_agent.Schemas.Approval.{
  ApprovalStatus, approval_status_enum, pending, approved, expired,
}
use soomsuite_agent.Store.{find-update_all, find-update_all-none, transaction}
use soomsuite_agent.Approvals.{Payload, ApprovalRequest, Db, Externals}
use soomsuite_agent.Approvals.Service.{is_row, find_row, save_row}
use soomsuite_agent.Approvals.Decision.{
  redeemed, is_redeemable, is_due, redeem, consume, expire_all,
}
use soomsuite_agent.Approvals.Steps.Deciding.{save_row-Evolution}
use soomsuite_agent.Approvals.Evolution.{stays, executes, expires, Evolution, Evolution-same}

open_cases :
    (s : ApprovalStatus)
    → ((s =? pending) || (s =? approved)) ≡ true
    → (s ≡ pending) ⊎ (s ≡ approved)
open_cases s h = ground arith

module _ (ext : Externals) (tenant : ℕ) where
  redeem_effect :
      (now id : ℕ) (consumer : String) (db : Db)
      → let db' = (redeem ext tenant now id consumer db).1 in
        (db' ≡ db)
        ⊎ ((r : ApprovalRequest) × (find_row tenant id db ≡ some r)
            × (is_redeemable ext tenant now r ≡ true)
            × (db' ≡ save_row tenant id (redeemed now consumer) db))
  unfolding redeem
  redeem_effect now id consumer db = elim (Option-cases (find_row tenant id db)) [
    | inl missing ↦ inl (ground arith)
    | inr (r, found) ↦ elim (Bool-cases (is_redeemable ext tenant now r)) [
      | inl fit ↦ inr (r, found, fit, ground arith)
      | inr unfit ↦ inl (ground arith)
    ]
  ]

  pub redeem-Evolution :
      (now id : ℕ) (consumer : String) (db : Db) (t i : ℕ)
      → Evolution ext (find_row t i db) (find_row t i (redeem ext tenant now id consumer db).1)
  redeem-Evolution now id consumer db t i = elim (redeem_effect now id consumer db) [
    | inl same ↦ rw same (Evolution-same ext _)
    | inr (r, found, fit, eq) ↦
        let (is_approved, timely) = and_true _ _ fit in
        rw eq (
          save_row-Evolution ext tenant id _ db r t i (λ t i r. refl) found
            (executes now consumer (=?→eq _ _ is_approved) (ltb→lt _ _ timely) refl))
  ]

  pub expire_all-Evolution :
      (now : ℕ) (db : Db) (t i : ℕ)
      → Evolution ext (find_row t i db) (find_row t i (transaction (expire_all now) db).1)
  unfolding expire_all transaction
  expire_all-Evolution now db t i = elim (Option-cases (find_row t i db)) [
    | inl none_found ↦
        rw
          (
            none_found,
            find-update_all-none (is_row t i) (is_due now) (λ r. record r { status = expired })
                (λ r. refl) db.requests none_found,
          )
          tt
    | inr (r, found) ↦
        rw
          (
            found,
            find-update_all (is_row t i) (is_due now) (λ r. record r { status = expired })
                (λ r. refl) db.requests r found,
          )
          (elim (Bool-cases (is_due now r)) [
            | inr early ↦ rw early (stays refl)
            | inl due ↦
                let (open_status, late) = and_true _ _ due in
                rw due (expires now (open_cases r.status open_status) (leb→le _ _ late) refl)
          ])
  ]

  consume_effect :
      (now id : ℕ) (action_type : String) (payload : Payload) (consumer : String) (db : Db)
      → let db' = (transaction (consume ext tenant now id action_type payload consumer) db).1 in
        (db' ≡ db) ⊎ (db' ≡ (redeem ext tenant now id consumer db).1)
  unfolding consume transaction
  consume_effect now id action_type payload consumer db = ground arith

  pub consume-Evolution :
      (now id : ℕ) (action_type : String) (payload : Payload) (consumer : String) (db : Db)
      (t i : ℕ)
      → Evolution ext
          (find_row t i db)
          (find_row t i (transaction (consume ext tenant now id action_type payload consumer) db).1)
  consume-Evolution now id action_type payload consumer db t i =
      elim (consume_effect now id action_type payload consumer db) [
        | inl same ↦ rw same (Evolution-same ext _)
        | inr eq ↦ rw eq (redeem-Evolution now id consumer db t i)
      ]
