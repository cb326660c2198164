-- ===== src/Approvals/Evolution.antt =====
-- The life of an approval request as a relation, independent of the code: what one operation may
-- do to a request, and what a new request looks like.
use soomsuite_agent.Prelude.{
  ℕ, ◌≤◌, ◌<◌, ◌≡◌, refl, ◌⊎◌, String, Bool, true, false, Option, none, some, str_eq,
}
use soomsuite_agent.Schemas.Approval.{pending, approved, expired, cancelled}
use soomsuite_agent.Approvals.{ApprovalRequest, Externals}
use soomsuite_agent.Approvals.Service.{preapproval_actor, sign}
use soomsuite_agent.Approvals.Decision.{decision, redeemed}

module _ (ext : Externals) where
  pub data Evolves (r r' : ApprovalRequest) : Type 0 where
    stays : r' ≡ r → Evolves r r'
    decided :
        (approve : Bool) (now : ℕ) (approver : String) (comment : Option String)
        → r.status ≡ pending
        → now < r.expires_at
        → str_eq approver r.requested_by ≡ false
        → r' ≡ decision ext approve now approver comment r
        → Evolves r r'
    executes :
        (now : ℕ) (consumer : String)
        → r.status ≡ approved
        → now < r.expires_at
        → r' ≡ redeemed now consumer r
        → Evolves r r'
    cancels :
        (actor : String)
        → r.status ≡ pending
        → str_eq r.requested_by actor ≡ true
        → r' ≡ record r { status = cancelled }
        → Evolves r r'
    expires :
        (now : ℕ)
        → ((r.status ≡ pending) ⊎ (r.status ≡ approved))
        → r.expires_at ≤ now
        → r' ≡ record r { status = expired }
        → Evolves r r'

  -- A new request waits for a decision, or is approved by the tenant's standing policy. Its hash is
  -- that of its payload, and the payload names its tenant.
  pub record IsNew (r : ApprovalRequest) : Type 0 where
    pub hashed : r.payload_hash ≡ ext.payload_hash r.action_payload
    pub bound : r.action_payload.tenant_id ≡ some r.tenant_id
    pub unused : r.consumed_at ≡ none
    pub waiting :
        (r.status ≡ pending) × (r.approved_by ≡ none) × (r.approval_signature ≡ none)
        ⊎ (r.status ≡ approved)
          × (r.approved_by ≡ some preapproval_actor)
          × (r.approval_signature ≡ some (sign ext r))

  -- What one operation does to the row of one identifier, present or not.
  abbrev pub Evolution : Option ApprovalRequest → Option ApprovalRequest → Type 0
  Evolution none none = Unit
  Evolution none (some r) = IsNew r
  Evolution (some r) none = ⊥
  Evolution (some r) (some r') = Evolves r r'

  pub Evolution-same : (o : Option ApprovalRequest) → Evolution o o
  Evolution-same none = tt
  Evolution-same (some r) = stays refl
