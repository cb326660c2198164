-- ===== src/Approvals/Steps/Deciding.antt =====
-- Decisions and cancellations keep to the relation of `Evolution`.
use soomsuite_agent.Prelude.{
  ℕ, ◌≡◌, refl, sym, ◌∙◌, subst, ◌⊎◌, inl, inr, String, Bool, true, false, Option, some, arith,
  str_eq, leb, Bool-cases, Option-cases, and_true, ==_iff, ◌=?◌, =?→eq,
}
use soomsuite_agent.Schemas.Approval.{approval_status_enum, pending, cancelled}
use soomsuite_agent.Store.{find-key, find-update_first, find-update_first-none, transaction}
use soomsuite_agent.Approvals.{ApprovalRequest, Db, Externals}
use soomsuite_agent.Approvals.Service.{is_row, find_row, save_row}
use soomsuite_agent.Approvals.Decision.{decision, decide, cancel}
use soomsuite_agent.Approvals.Evolution.{
  Evolves, stays, decided, cancels, Evolution, Evolution-same,
}

-- A write to the row that `(tenant, id)` finds, by a function that keeps the key, moves that row
-- alone.
module _ (ext : Externals) (tenant : ℕ) where
  -- `f` keeps the key of every row.
  abbrev Keeps : (ApprovalRequest → ApprovalRequest) → Type 0
  Keeps f = (t i : ℕ) (r : ApprovalRequest) → is_row t i (f r) ≡ is_row t i r

  same_row :
      (id t i : ℕ) (db : Db) (r : ApprovalRequest)
      → find_row t i db ≡ some r
      → is_row tenant id r ≡ true
      → find_row tenant id db ≡ some r
  same_row id t i db r found met =
      let (i_eq, t_eq) = and_true _ _ (find-key (is_row t i) db.requests r found) in
      let (id_eq, tenant_eq) = and_true _ _ met in
      let e : i ≡ id = sym ((==_iff _ _).0 i_eq) ∙ (==_iff _ _).0 id_eq in
      let e' : t ≡ tenant = sym ((==_iff _ _).0 t_eq) ∙ (==_iff _ _).0 tenant_eq in
      rw (← e, ← e') found

  pub save_row-Evolution :
      (id : ℕ) (f : ApprovalRequest → ApprovalRequest) (db : Db) (r : ApprovalRequest) (t i : ℕ)
      → Keeps f
      → find_row tenant id db ≡ some r
      → Evolves ext r (f r)
      → Evolution ext (find_row t i db) (find_row t i (save_row tenant id f db))
  save_row-Evolution id f db r t i keeps own moves = elim (Option-cases (find_row t i db)) [
    | inl none_found ↦
        rw
          (
            none_found,
            find-update_first-none (is_row t i) (is_row tenant id) f (keeps t i) db.requests
                none_found,
          )
          tt
    | inr (x, found) ↦
        elim (find-update_first (is_row t i) (is_row tenant id) f (keeps t i) db.requests x found) [
          | inl same ↦ rw (found, same) (stays refl)
          | inr (met, moved) ↦
              let both : some x ≡ some r = sym (same_row id t i db x found met) ∙ own in
              let eq : r ≡ x = cc in rw (found, moved) (subst (λ y. Evolves ext y (f y)) eq moves)
        ]
  ]

  -- What `decide` leaves behind: the state as it was, or the decision on a request that waits, is
  -- in time, and was made by another.
  pub decide_effect :
      (now id : ℕ) (approve : Bool) (approver hash : String) (comment : Option String) (db : Db)
      → let db' = (transaction (decide ext tenant now id approve approver hash comment) db).1 in
        (db' ≡ db)
        ⊎ ((r : ApprovalRequest) × (find_row tenant id db ≡ some r)
            × ((r.status =? pending) ≡ true)
            × (leb r.expires_at now ≡ false)
            × (str_eq approver r.requested_by ≡ false)
            × (db' ≡ save_row tenant id (decision ext approve now approver comment) db))
  unfolding decide transaction
  decide_effect now id approve approver hash comment db =
      elim (Option-cases (find_row tenant id db)) [
        | inl missing ↦ inl (ground arith)
        | inr (r, found) ↦ elim (Bool-cases (r.status =? pending)) [
          | inr late ↦ inl (ground arith)
          | inl waits ↦ elim (Bool-cases (leb r.expires_at now)) [
            | inl due ↦ inl (ground arith)
            | inr timely ↦ elim (Bool-cases (str_eq hash r.payload_hash)) [
              | inr differs ↦ inl (ground arith)
              | inl same ↦ elim (Bool-cases (str_eq approver r.requested_by)) [
                | inl own ↦ inl (ground arith)
                | inr other ↦ inr (r, found, waits, timely, other, ground arith)
              ]
            ]
          ]
        ]
      ]

  decision-Keeps :
      (approve : Bool) (now : ℕ) (approver : String) (comment : Option String)
      → Keeps (decision ext approve now approver comment)
  decision-Keeps true now approver comment t i r = refl
  decision-Keeps false now approver comment t i r = refl

  pub decide-Evolution :
      (now id : ℕ) (approve : Bool) (approver hash : String) (comment : Option String) (db : Db)
      (t i : ℕ)
      → Evolution ext
          (find_row t i db)
          (find_row t i (transaction (decide ext tenant now id approve approver hash comment) db).1)
  decide-Evolution now id approve approver hash comment db t i =
      elim (decide_effect now id approve approver hash comment db) [
        | inl same ↦ rw same (Evolution-same ext _)
        | inr (r, found, waits, timely, other, eq) ↦ rw eq (
            save_row-Evolution id _ db r t i (decision-Keeps approve now approver comment) found
              (decided approve now approver comment (=?→eq _ _ waits) (ground arith) other refl))
      ]

  cancel_effect :
      (id : ℕ) (actor : String) (db : Db)
      → let db' = (transaction (cancel ext tenant id actor) db).1 in
        (db' ≡ db)
        ⊎ ((r : ApprovalRequest) × (find_row tenant id db ≡ some r)
            × ((r.status =? pending) ≡ true)
            × (str_eq r.requested_by actor ≡ true)
            × (db' ≡ save_row tenant id (λ r. record r { status = cancelled }) db))
  unfolding cancel transaction
  cancel_effect id actor db = elim (Option-cases (find_row tenant id db)) [
    | inl missing ↦ inl (ground arith)
    | inr (r, found) ↦ elim (Bool-cases (r.status =? pending)) [
      | inr late ↦ inl (ground arith)
      | inl waits ↦ elim (Bool-cases (str_eq r.requested_by actor)) [
        | inr other ↦ inl (ground arith)
        | inl own ↦ inr (r, found, waits, own, ground arith)
      ]
    ]
  ]

  pub cancel-Evolution :
      (id : ℕ) (actor : String) (db : Db) (t i : ℕ)
      → Evolution ext
          (find_row t i db)
          (find_row t i (transaction (cancel ext tenant id actor) db).1)
  cancel-Evolution id actor db t i = elim (cancel_effect id actor db) [
    | inl same ↦ rw same (Evolution-same ext _)
    | inr (r, found, waits, own, eq) ↦ rw eq (
        save_row-Evolution id _ db r t i (λ t i r. refl) found
          (cancels actor (=?→eq _ _ waits) own refl))
  ]
