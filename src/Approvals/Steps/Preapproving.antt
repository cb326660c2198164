-- ===== src/Approvals/Steps/Preapproving.antt =====
-- What a pre-approval establishes, and that it keeps to the relation of `Evolution`.
use soomsuite_agent.Prelude.{
  ℕ, ◌≤◌, ◌≡◌, refl, ◌∙◌, ◌⊎◌, inl, inr, String, true, false, Option, some, [], ◌∷◌, ◌++◌, arith,
  ◌==◌, str_eq, find, any, Bool-cases, Option-cases, and_true,
}
use soomsuite_agent.Errors.{PlatformError, Result-cases, ok, err, is_ok, validation_failed}
use soomsuite_agent.Schemas.Approval.{approval_status_enum}
use soomsuite_agent.Store.{
  transaction, find-append, find-append_new, find-any, find-update_first, find-update_first-none,
}
use soomsuite_agent.Approvals.{Payload, ApprovalRequest, TenantSettings, Db, Externals}
use soomsuite_agent.Approvals.Service.{
  is_row, find_row, save_row, approve_automatically, preapprove, preapproval_checks,
  is_preapproved_mode, mode_of, allowed_actions, single_target,
}
use soomsuite_agent.Approvals.Policies.{ApprovalPolicy, policy_for}
use soomsuite_agent.Approvals.Evolution.{Evolution-same, stays, IsNew, Evolution}
use soomsuite_agent.Approvals.Steps.Creating.{create_outcome}

module _ (ext : Externals) (tenant : ℕ) where
  -- What the tenant's pre-approval has to establish.
  pub record IsPreapprovable (pol : ApprovalPolicy) (action_type : String) (payload : Payload)
      (db : Db) : Type 0 where
    pub low_risk : pol.preapprovable ≡ true
    pub enabled :
        is_preapproved_mode (mode_of (find (λ t. t.tenant_id == tenant) db.tenants)) ≡ true
    pub listed :
        any (str_eq action_type) (allowed_actions (find (λ t. t.tenant_id == tenant) db.tenants))
        ≡ true
    pub bounded :
        (60 ≤ payload.ttl_seconds) × (payload.ttl_seconds ≤ pol.max_preapproved_ttl_seconds)
    pub single : single_target (ext.num_addresses payload.target) action_type ≡ true
    pub confident : ext.below_0_9 payload.confidence ≡ false

  preapproval_checks_state :
      (pol : ApprovalPolicy) (settings : Option TenantSettings) (action_type : String)
      (payload : Payload) (db : Db)
      → (preapproval_checks ext tenant pol settings action_type payload db).1 ≡ db
  unfolding preapproval_checks
  preapproval_checks_state pol settings action_type payload db = ground arith

  preapproval_checks-IsPreapprovable :
      (pol : ApprovalPolicy) (action_type : String) (payload : Payload) (db : Db)
      → (preapproval_checks ext tenant pol
          (find (λ t. t.tenant_id == tenant) db.tenants)
          action_type
          payload
          db).0
        ≡ ok tt
      → IsPreapprovable pol action_type payload db
  unfolding preapproval_checks
  preapproval_checks-IsPreapprovable pol action_type payload db h = ground arith

  abbrev pub approved_rows : ℕ → ℕ → ApprovalRequest → Db → Db
  approved_rows uuid now req db =
      save_row tenant uuid (approve_automatically ext now)
        (record db { requests = db.requests ++ (req ∷ []) })

  -- `preapprove` raises and leaves the state alone, or appends a request and approves it, and then
  -- all that the pre-approval asks for holds.
  pub preapprove_outcome :
      (uuid now : ℕ) (action_type : String) (payload : Payload) (reason : String)
      (target_type : Option String) (target_id : Option ℕ) (by : String) (db : Db)
      → let run =
          preapprove ext tenant uuid now action_type payload reason target_type target_id by db in
        ((e : PlatformError) × (run ≡ (err e, db)))
        ⊎ ((pol : ApprovalPolicy) × (req : ApprovalRequest) × (policy_for action_type ≡ some pol)
            × IsPreapprovable pol action_type payload db
            × IsNew ext req
            × (any (λ r. r.id == uuid) db.requests ≡ false)
            × (run ≡ (ok (approve_automatically ext now req), approved_rows uuid now req db)))
  unfolding preapprove
  preapprove_outcome uuid now action_type payload reason target_type target_id by db =
      elim (Option-cases (policy_for action_type)) [
        | inl unknown ↦ inl (validation_failed "unknown action type", ground arith)
        | inr (pol, known) ↦
            let settings = find (λ t. t.tenant_id == tenant) db.tenants in
            let checks = preapproval_checks ext tenant pol settings action_type payload db in
            let kept = preapproval_checks_state pol settings action_type payload db in
            elim (Result-cases checks.0) [
              | inr (e, refused) ↦ inl (e, ground arith)
              | inl (_, passed) ↦
                  elim (create_outcome ext tenant uuid now action_type payload reason target_type
                    target_id by "agent" "fatma-soc" db) [
                      | inl (e, eq) ↦ inl (e, ground arith)
                      | inr (req, fresh, free, eq) ↦ inr (
                        pol,
                        req,
                        known,
                        preapproval_checks-IsPreapprovable pol action_type payload db passed,
                        fresh,
                        free,
                        ground arith,
                      )
                    ]
            ]
      ]

  pub approved-IsNew :
      (now : ℕ) (req : ApprovalRequest)
      → IsNew ext req
      → IsNew ext (approve_automatically ext now req)
  approved-IsNew now req h = record {
    hashed = h.hashed;
    bound = h.bound;
    unused = h.unused;
    waiting = inr (refl, refl, refl);
  }

  pub approved_rows-Evolution :
      (uuid now : ℕ) (db : Db) (req : ApprovalRequest) (t i : ℕ)
      → IsNew ext req
      → any (λ r. r.id == uuid) db.requests ≡ false
      → Evolution ext (find_row t i db) (find_row t i (approved_rows uuid now req db))
  approved_rows-Evolution uuid now db req t i fresh free = elim (Option-cases (find_row t i db)) [
    | inr (r, found) ↦ elim (updated r (find-append (is_row t i) db.requests r req found)) [
      | inl same ↦ rw (found, same) (stays refl)
      | inr (met, _) ↦
          let taken = (and_true (r.id == uuid) (r.tenant_id == tenant) met).0 in
          let clear = find-any (is_row t i) (λ r. r.id == uuid) db.requests r found free in
          absurd (cc)
    ]
    | inl none_found ↦ elim (Bool-cases (is_row t i req)) [
      | inl own ↦
          elim (updated req (find-append_new (is_row t i) db.requests req none_found ∙ rw own)) [
            | inl same ↦ rw (none_found, same) fresh
            | inr (_, changed) ↦ rw (none_found, changed) (approved-IsNew now req fresh)
          ]
      | inr other ↦
          rw
            (
              none_found,
              find-update_first-none (is_row t i) (is_row tenant uuid)
                  (approve_automatically ext now) (λ r. refl) (db.requests ++ (req ∷ []))
                  (find-append_new (is_row t i) db.requests req none_found ∙ rw other),
            )
            tt
    ]
  ]
    where
      updated :
          (r : ApprovalRequest)
          → find (is_row t i) (db.requests ++ (req ∷ [])) ≡ some r
          → (find_row t i (approved_rows uuid now req db) ≡ some r)
            ⊎ ((is_row tenant uuid r ≡ true)
                × (find_row t i (approved_rows uuid now req db)
                    ≡ some (approve_automatically ext now r)))
      updated r h =
          find-update_first (is_row t i) (is_row tenant uuid) (approve_automatically ext now)
            (λ r. refl) (db.requests ++ (req ∷ [])) r h

  pub preapprove-Evolution :
      (uuid now : ℕ) (action_type : String) (payload : Payload) (reason : String)
      (target_type : Option String) (target_id : Option ℕ) (by : String) (db : Db) (t i : ℕ)
      → Evolution ext (find_row t i db) (
          find_row t i
            (transaction
              (preapprove ext tenant uuid now action_type payload reason target_type target_id by)
              db).1)
  unfolding transaction
  preapprove-Evolution uuid now action_type payload reason target_type target_id by db t i =
      elim (preapprove_outcome uuid now action_type payload reason target_type target_id by db) [
        | inl (e, eq) ↦ rw eq (Evolution-same ext _)
        | inr (pol, req, known, checked, fresh, free, eq) ↦
            rw eq (approved_rows-Evolution uuid now db req t i fresh free)
      ]

  -- A request is approved without a human only if the tenant has opted in for that action type, its
  -- policy counts it as of low risk, the time to live is from one minute to the policy's bound, the
  -- target is a single one, and the confidence is not below 0.9.
  pub preapprove-IsPreapprovable :
      (uuid now : ℕ) (action_type : String) (payload : Payload) (reason : String)
      (target_type : Option String) (target_id : Option ℕ) (by : String) (db : Db)
      → is_ok
          (preapprove ext tenant uuid now action_type payload reason target_type target_id by db).0
        ≡ true
      → (pol : ApprovalPolicy) × (policy_for action_type ≡ some pol)
        × IsPreapprovable pol action_type payload db
  preapprove-IsPreapprovable uuid now action_type payload reason target_type target_id by db h =
      elim (preapprove_outcome uuid now action_type payload reason target_type target_id by db) [
        | inl (e, raised) ↦
            let clash : is_ok
                  (preapprove ext tenant uuid now action_type payload reason target_type target_id
                    by db).0
                ≡ false =
              rw raised refl in
            absurd (cc)
        | inr (pol, req, known, may, _, _, _) ↦ (pol, known, may)
      ]
