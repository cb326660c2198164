-- ===== src/Approvals/Soundness.antt =====
-- What holds of every request that the service has ever stored: the approval behind an execution.
use soomsuite_agent.Prelude.{
  ℕ, ◌<◌, ◌≡◌, refl, inl, inr, String, Bool, true, false, not, ◌||◌, Option, none, some, List, [],
  ◌∷◌, arith, str_eq, Option-cases,
}
use soomsuite_agent.Schemas.Approval.{ApprovalStatus, approved, executed}
use soomsuite_agent.Approvals.{ApprovalRequest, Db, Externals}
use soomsuite_agent.Approvals.Service.{preapproval_actor, find_row, sign}
use soomsuite_agent.Approvals.Evolution.{
  Evolves, stays, decided, executes, cancels, expires, IsNew, Evolution,
}
use soomsuite_agent.Approvals.Trace.{Call, perform, run, perform-Evolution}

-- The four-eyes rule, by the text of the approver; the tenant's standing policy is its exception.
abbrev pub is_foreign : Option String → String → Bool
is_foreign none requester = false
is_foreign (some a) requester = str_eq a preapproval_actor || not (str_eq a requester)

abbrev pub is_granted : ApprovalStatus → Bool
is_granted approved = true
is_granted executed = true
is_granted _ = false

abbrev pub is_executed : ApprovalStatus → Bool
is_executed executed = true
is_executed _ = false

module _ (ext : Externals) where
  pub record IsSound (r : ApprovalRequest) : Type 0 where
    pub hashed : r.payload_hash ≡ ext.payload_hash r.action_payload
    pub bound : r.action_payload.tenant_id ≡ some r.tenant_id
    pub signed : is_granted r.status ≡ true → r.approval_signature ≡ some (sign ext r)
    pub four_eyes : is_granted r.status ≡ true → is_foreign r.approved_by r.requested_by ≡ true
    pub in_time : r.status ≡ executed → (c : ℕ) × (r.consumed_at ≡ some c) × (c < r.expires_at)
    pub unused : is_executed r.status ≡ false → r.consumed_at ≡ none

  IsNew-IsSound : (r : ApprovalRequest) → IsNew ext r → IsSound r
  IsNew-IsSound r h = ground arith

  Evolves-IsSound : (r r' : ApprovalRequest) → IsSound r → Evolves ext r r' → IsSound r'
  Evolves-IsSound r r' h (stays e) = ground arith
  Evolves-IsSound r r' h (decided true n p c s l o e) = ground arith
  Evolves-IsSound r r' h (decided false n p c s l o e) = ground arith
  Evolves-IsSound r r' h (executes n c s l e) = rw e (record {
    hashed = h.hashed;
    bound = h.bound;
    signed = λ _. h.signed (ground arith);
    four_eyes = λ _. h.four_eyes (ground arith);
    in_time = λ _. (n, refl, l);
    unused = λ x. absurd (cc);
  })
  Evolves-IsSound r r' h (cancels a s o e) = ground arith
  Evolves-IsSound r r' h (expires n s l e) = ground arith

  -- Every stored request is sound.
  abbrev pub AllSound : Db → Type 0
  AllSound db = (t i : ℕ) (r : ApprovalRequest) → find_row t i db ≡ some r → IsSound r

  perform-AllSound : (c : Call) (db : Db) → AllSound db → AllSound (perform ext c db)
  perform-AllSound c db sound t i r' found' = elim (Option-cases (find_row t i db)) [
    | inl absent ↦
        let birth : Evolution ext none (some r') =
          rw found' at (rw absent at (perform-Evolution ext c db t i)) in
        IsNew-IsSound r' birth
    | inr (r, found) ↦
        let step : Evolution ext (some r) (some r') =
          rw found' at (rw found at (perform-Evolution ext c db t i)) in
        Evolves-IsSound r r' (sound t i r found) step
  ]

  run-AllSound : (cs : List Call) (db : Db) → AllSound db → AllSound (run ext cs db)
  unfolding run
  run-AllSound [] db sound = sound
  run-AllSound (c ∷ cs) db sound = run-AllSound cs (perform ext c db) (perform-AllSound c db sound)

  -- After any sequence of calls on a database without requests, every request carries the hash of
  -- its own payload, which names its tenant; one that is approved or executed carries the service's
  -- signature over its fields, and as its approver the name of the tenant's standing policy or
  -- another text than its requester; one that is executed was consumed before it expired, and any
  -- other was never consumed.
  pub run-IsSound :
      (cs : List Call) (db : Db) (t i : ℕ) (r : ApprovalRequest)
      → db.requests ≡ []
      → find_row t i (run ext cs db) ≡ some r
      → IsSound r
  run-IsSound cs db t i r empty found =
      run-AllSound cs db (λ t i r h. let clash : none ≡ some r = rw empty at h in absurd (cc)) t i r
        found
