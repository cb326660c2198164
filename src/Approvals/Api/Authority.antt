-- ===== src/Approvals/Api/Authority.antt =====
-- Who can reach the approval service, and who can decide.
use soomsuite_agent.Prelude.{
  ℕ, ◌≡◌, refl, inl, inr, String, true, false, none, some, List, [], ◌∷◌, arith, str_eq, contains,
  Bool-cases, Option-cases,
}
use soomsuite_agent.Errors.{Result, ok, err, is_ok, Result-cases, forbidden}
use soomsuite_agent.Security.Rbac.{P, p_enum}
use soomsuite_agent.Security.Acl.{
  Service, service_enum, samiir_side, fatma_soc, scanner_controller, gateway_admin, approvals,
}
use soomsuite_agent.Security.Acl.Isolation.{accepted_callers_isolated}
use soomsuite_agent.Security.ServiceAuth.{RequestContext, is_accepted, is_accepted-allowed}
use soomsuite_agent.Security.Policy.{is_user, require}
use soomsuite_agent.Security.Policy.Check.{IsPermitted, require_outcomes}
use soomsuite_agent.Store.{transaction}
use soomsuite_agent.Approvals.{Payload, ApprovalRequest, Db, Externals}
use soomsuite_agent.Approvals.Policies.{ApprovalPolicy, policy_for}
use soomsuite_agent.Approvals.Service.{find_row, get}
use soomsuite_agent.Approvals.Decision.{decide}
use soomsuite_agent.Approvals.Api.{
  World, DecideIn, CreateIn, decide_session, decide_handler, consume_handler, create_handler,
  preapproved_handler, cancel_handler,
}

-- A route's answer to a caller that it does not allow.
abbrev pub refused : World → Result ApprovalRequest × World
refused w = (err (forbidden "caller not permitted"), w)

-- The approval service accepts no caller of the customer side.
isolated :
    (caller : Service) (allowed : List Service)
    → contains samiir_side caller ≡ true
    → is_accepted approvals (some allowed) caller ≡ false
isolated caller allowed side = elim (Bool-cases (is_accepted approvals (some allowed) caller)) [
  | inr refusal ↦ refusal
  | inl accepted ↦
      let known = (is_accepted-allowed approvals caller allowed accepted).0 in
      let clash = (accepted_callers_isolated approvals caller refl side known).0 in absurd (cc)
]

module _ (ext : Externals) where
  -- What a decision that went through had to establish.
  pub record IsAuthorizedDecision (ctx : RequestContext) (id : ℕ) (body : DecideIn) (db : Db)
      : Type 0 where
    pub via_admin : contains (gateway_admin ∷ []) ctx.caller ≡ true
    pub human : is_user ctx.principal.actor_type ≡ true
    pub request : ApprovalRequest
    pub found : find_row ctx.principal.tenant_id id db ≡ some request
    pub policy : ApprovalPolicy
    pub known : policy_for request.action_type ≡ some policy
    pub permitted : IsPermitted ctx policy.approver_permission none none
    pub four_eyes : str_eq ctx.principal.subject request.requested_by ≡ false
    pub reviewed : str_eq body.payload_hash request.payload_hash ≡ true

  decide_checked :
      (ctx : RequestContext) (now id : ℕ) (body : DecideIn) (db : Db) (r : ApprovalRequest)
      → find_row ctx.principal.tenant_id id db ≡ some r
      → is_ok
          (decide ext ctx.principal.tenant_id now id body.approve ctx.principal.subject
            body.payload_hash body.comment db).0
        ≡ true
      → (str_eq ctx.principal.subject r.requested_by ≡ false)
        × (str_eq body.payload_hash r.payload_hash ≡ true)
  unfolding decide
  decide_checked ctx now id body db r found h = ground arith

  decide_session_steps :
      (ctx : RequestContext) (now id : ℕ) (body : DecideIn) (db : Db)
      → is_ok (decide_session ext ctx now id body db).0 ≡ true
      → (r : ApprovalRequest) × (pol : ApprovalPolicy) × (find_row ctx.principal.tenant_id id db
          ≡ some r)
        × (policy_for r.action_type ≡ some pol)
        × (require ctx pol.approver_permission none none ≡ ok tt)
        × (is_ok
              (decide ext ctx.principal.tenant_id now id body.approve ctx.principal.subject
                body.payload_hash body.comment db).0
            ≡ true)
  unfolding decide_session get
  decide_session_steps ctx now id body db h =
      elim (Option-cases (find_row ctx.principal.tenant_id id db)) [
        | inl missing ↦ absurd (ground arith)
        | inr (r, found) ↦ elim (Option-cases (policy_for r.action_type)) [
          | inl unknown ↦ absurd (ground arith)
          | inr (pol, known) ↦ elim (Result-cases (require ctx pol.approver_permission none none)) [
            | inr (e, refused) ↦ absurd (ground arith)
            | inl (_, passed) ↦ (r, pol, found, known, passed, ground arith)
          ]
        ]
      ]

  decide_handler_session :
      (ctx : RequestContext) (now id : ℕ) (body : DecideIn) (w : World)
      → is_ok (decide_handler ext ctx now id body w).0 ≡ true
      → (is_accepted approvals (some (gateway_admin ∷ [])) ctx.caller ≡ true)
        × (is_user ctx.principal.actor_type ≡ true)
        × (is_ok (decide_session ext ctx now id body w.db).0 ≡ true)
  unfolding decide_handler transaction
  decide_handler_session ctx now id body w h = ground arith

  IsPermitted-of_require :
      (ctx : RequestContext) (p : P) → require ctx p none none ≡ ok tt → IsPermitted ctx p none none
  IsPermitted-of_require ctx p h = elim (require_outcomes ctx p none none) [
    | inl (_, permitted) ↦ permitted
    | inr refused ↦ absurd (ground arith)
  ]

  -- A decision goes through only if it comes by the admin gateway from a human, on a request of the
  -- human's tenant that the human did not make, with the hash of its payload echoed, and the policy
  -- engine permits the human the approver's permission of that action type.
  pub decide_handler-IsAuthorizedDecision :
      (ctx : RequestContext) (now id : ℕ) (body : DecideIn) (w : World)
      → is_ok (decide_handler ext ctx now id body w).0 ≡ true
      → IsAuthorizedDecision ctx id body w.db
  decide_handler-IsAuthorizedDecision ctx now id body w h =
      let (accepted, human, session) = decide_handler_session ctx now id body w h in
      let (r, pol, found, known, passed, decided) =
        decide_session_steps ctx now id body w.db session in
      let (other, echoed) = decide_checked ctx now id body w.db r found decided in
      record {
        via_admin = (is_accepted-allowed approvals ctx.caller (gateway_admin ∷ []) accepted).1;
        human = human;
        request = r;
        found = found;
        policy = pol;
        known = known;
        permitted = IsPermitted-of_require ctx pol.approver_permission passed;
        four_eyes = other;
        reviewed = echoed;
      }

  -- A caller of the customer side gets no answer but a refusal from the routes that create,
  -- pre-approve, decide, consume and cancel requests, and leaves requests and audit log as they were.
  pub handlers_isolated :
      (ctx : RequestContext) (now id : ℕ) (w : World) (decide_body : DecideIn)
      (create_body : CreateIn) (action_type : String) (payload : Payload) (name : String)
      → contains samiir_side ctx.caller ≡ true
      → (decide_handler ext ctx now id decide_body w ≡ refused w)
        × (consume_handler ext ctx now id action_type payload name w ≡ refused w)
        × (create_handler ext ctx id now name create_body w ≡ refused w)
        × (preapproved_handler ext ctx id now create_body w ≡ refused w)
        × (cancel_handler ext ctx id w ≡ refused w)
  unfolding decide_handler consume_handler create_handler preapproved_handler cancel_handler
  handlers_isolated ctx now id w decide_body create_body action_type payload name side = (
    rw (isolated ctx.caller (gateway_admin ∷ []) side) refl,
    rw (isolated ctx.caller (fatma_soc ∷ scanner_controller ∷ []) side) refl,
    rw (isolated ctx.caller (fatma_soc ∷ scanner_controller ∷ []) side) refl,
    rw (isolated ctx.caller (fatma_soc ∷ []) side) refl,
    rw (isolated ctx.caller (gateway_admin ∷ []) side) refl,
  )
