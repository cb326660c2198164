-- ===== src/Approvals/Steps/Creating.antt =====
-- New requests keep to the relation of `Evolution`.
use soomsuite_agent.Prelude.{
  ℕ, ◌≡◌, refl, ◌⊎◌, inl, inr, String, true, false, Option, none, some, [], ◌∷◌, ◌++◌, arith, ◌==◌,
  any, Bool-cases, Option-cases, and_true, opt_eq→eq, if◌then◌else◌,
}
use soomsuite_agent.Errors.{PlatformError, ok, err, validation_failed, bad_request}
use soomsuite_agent.Schemas.Approval.{approval_status_enum}
use soomsuite_agent.Store.{find-append, find-append_new, transaction}
use soomsuite_agent.Approvals.{Payload, ApprovalRequest, Db, Externals}
use soomsuite_agent.Approvals.Service.{is_row, find_row, embeds, new_request, create}
use soomsuite_agent.Approvals.Policies.{policy_for}
use soomsuite_agent.Approvals.Evolution.{stays, IsNew, Evolution, Evolution-same}

-- A write to the row that `(tenant, id)` finds, by a function that keeps the key, moves that row
-- alone.
module _ (ext : Externals) (tenant : ℕ) where
  -- `create` raises and writes nothing, or appends a new request under a free identifier.
  pub create_outcome :
      (uuid now : ℕ) (action_type : String) (payload : Payload) (reason : String)
      (target_type : Option String) (target_id : Option ℕ) (by by_type via : String) (db : Db)
      → let run =
          create ext tenant uuid now action_type payload reason target_type target_id by by_type via
            db in
        ((e : PlatformError) × (run ≡ (err e, db)))
        ⊎ ((req : ApprovalRequest) × IsNew ext req
            × (any (λ r. r.id == uuid) db.requests ≡ false)
            × (run ≡ (ok req, record db { requests = db.requests ++ (req ∷ []) })))
  unfolding create
  create_outcome uuid now action_type payload reason target_type target_id by by_type via db =
      elim (Option-cases (policy_for action_type)) [
        | inl unknown ↦ inl (validation_failed "unknown action type", ground arith)
        | inr (pol, known) ↦ elim (Bool-cases (embeds ext tenant payload action_type)) [
          | inr loose ↦
              inl
                (validation_failed "payload must embed its tenant_id and action_type", ground arith)
          | inl bound ↦ elim (Bool-cases (any (λ r. r.id == uuid) db.requests)) [
            | inl taken ↦ inl (bad_request "IntegrityError", ground arith)
            | inr free ↦ inr (
              new_request ext tenant uuid now pol action_type payload reason target_type target_id
                  by by_type via,
              record {
                hashed = refl;
                bound = opt_eq→eq _ _ (and_true _ _ bound).0;
                unused = refl;
                waiting = inl (refl, refl, refl);
              },
              free,
              ground arith,
            )
          ]
        ]
      ]

  pub append-Evolution :
      (db : Db) (req : ApprovalRequest) (t i : ℕ)
      → IsNew ext req
      → Evolution ext
          (find_row t i db)
          (find_row t i (record db { requests = db.requests ++ (req ∷ []) }))
  append-Evolution db req t i fresh = elim (Option-cases (find_row t i db)) [
    | inl none_found ↦
        rw (none_found, find-append_new (is_row t i) db.requests req none_found)
          (born (Bool-cases (is_row t i req)))
    | inr (r, found) ↦ rw (found, find-append (is_row t i) db.requests r req found) (stays refl)
  ]
    where
      born :
          ((is_row t i req ≡ true) ⊎ (is_row t i req ≡ false))
          → Evolution ext none (if is_row t i req then some req else none)
      born (inl own) = rw own fresh
      born (inr other) = rw other tt

  pub create-Evolution :
      (uuid now : ℕ) (action_type : String) (payload : Payload) (reason : String)
      (target_type : Option String) (target_id : Option ℕ) (by by_type via : String) (db : Db)
      (t i : ℕ)
      → Evolution ext (find_row t i db) (
          find_row t i
            (transaction
              (create ext tenant uuid now action_type payload reason target_type target_id by
                by_type via)
              db).1)
  unfolding transaction
  create-Evolution uuid now action_type payload reason target_type target_id by by_type via db t i =
      elim (create_outcome uuid now action_type payload reason target_type target_id by by_type via
        db) [
          | inl (e, eq) ↦ rw eq (Evolution-same ext _)
          | inr (req, fresh, free, eq) ↦ rw eq (append-Evolution db req t i fresh)
        ]
