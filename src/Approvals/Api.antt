-- ===== src/Approvals/Api.antt =====
-- services/approvals/src/approval_service/api.py: the handlers, with their callers, permissions,
-- transaction and audit record. Realtime notices and the response's shape are left out.
pub mod Authority
use soomsuite_agent.Prelude.{
  ℕ, ◌≡◌, String, Bool, true, false, not, Option, none, some, List, [], ◌∷◌, ◌++◌, if◌then◌else◌,
  str_append, ◌=?◌,
}
use soomsuite_agent.Errors.{PlatformError, Result, ok, err, forbidden}
use soomsuite_agent.Security.Rbac.{
  P, internal_execute, defense_request, scan_request, defense_execute,
}
use soomsuite_agent.Security.Acl.{Service, gateway_admin, fatma_soc, scanner_controller, approvals}
use soomsuite_agent.Security.ServiceAuth.{RequestContext, is_accepted}
use soomsuite_agent.Security.Policy.{is_user, require, require_any}
use soomsuite_agent.Store.{Action, lift, transaction, ◌>>=◌, ◌>>◌}
use soomsuite_agent.Approvals.{Payload, ApprovalRequest, Db, Externals}
use soomsuite_agent.Approvals.Service.{policy_or_raise, get, create, preapprove}
use soomsuite_agent.Approvals.Decision.{decide, consume, cancel}

-- What the handlers record by `rt.audit.record`, in the sink that keeps events in memory.
pub record AuditEvent : Type 0 where
  pub action : String
  pub result : String
  pub actor_id : String
  pub approval_id : Option ℕ

pub record World : Type 0 where
  pub db : Db
  pub audit : List AuditEvent

abbrev event : RequestContext → String → String → Option ℕ → AuditEvent
event ctx action result approval_id = record {
  action = action;
  result = result;
  actor_id = ctx.principal.subject;
  approval_id = approval_id;
}

-- How a handler ends: the session's result and state, and the event of a success, if there is one,
-- or of a failure.
abbrev finish :
    World
    → (ApprovalRequest → List AuditEvent)
    → List AuditEvent
    → Result ApprovalRequest × Db
    → Result ApprovalRequest × World
finish w on_ok on_err (ok out, db) = (ok out, record { db = db; audit = w.audit ++ on_ok out })
finish w on_ok on_err (err e, db) = (err e, record { db = db; audit = w.audit ++ on_err })

-- The body of `DecideIn`: `decision == "approve"`, the echoed hash and the comment.
pub record DecideIn : Type 0 where
  pub approve : Bool
  pub payload_hash : String
  pub comment : Option String

abbrev on_behalf : String → Option String → String × String
on_behalf caller_name none = (str_append "agent:" caller_name, "agent")
on_behalf caller_name (some user) = (user, "user")

-- `_requester`: who asks, and as what. The caller's text is its service's name.
abbrev requester : RequestContext → String → Option String → String × String
requester ctx caller_name on_behalf_of =
    if is_user ctx.principal.actor_type
    then (ctx.principal.subject, "user")
    else on_behalf caller_name on_behalf_of

-- The body of `CreateIn`.
pub record CreateIn : Type 0 where
  pub action_type : String
  pub payload : Payload
  pub reason : String
  pub target_type : Option String
  pub target_id : Option ℕ
  pub on_behalf_of : Option String

abbrev after :
    Result (Unit {0}) → World → Result ApprovalRequest × World → Result ApprovalRequest × World
after (err e) w body = (err e, w)
after (ok _) w body = body

-- A route's checks before its session: the callers that it allows, then its permission.
abbrev guarded :
    List Service
    → RequestContext
    → Result (Unit {0})
    → World
    → Result ApprovalRequest × World
    → Result ApprovalRequest × World
guarded allowed ctx permitted w body =
    if is_accepted approvals (some allowed) ctx.caller
    then after permitted w body
    else (err (forbidden "caller not permitted"), w)

module _ (ext : Externals) where
  -- The session of `decide`.
  unfoldable pub decide_session : RequestContext → ℕ → ℕ → DecideIn → Action Db ApprovalRequest
  decide_session ctx now approval_id body = do
    existing ← get ext ctx.principal.tenant_id approval_id
    pol ← policy_or_raise existing.action_type
    lift (require ctx pol.approver_permission none none)
    decide ext ctx.principal.tenant_id now approval_id body.approve ctx.principal.subject
        body.payload_hash body.comment

  unfoldable pub decide_handler : RequestContext → ℕ → ℕ → DecideIn → Action World ApprovalRequest
  decide_handler ctx now approval_id body w =
      if not (is_accepted approvals (some (gateway_admin ∷ [])) ctx.caller)
      then (err (forbidden "caller not permitted"), w)
      else if not (is_user ctx.principal.actor_type)
      then (err (forbidden "approvals require a human decision"), w)
      else finish w
          (λ out.
            event ctx (if body.approve then "approval.approve" else "approval.reject") "success"
              (some approval_id)
            ∷ [])
          [] (transaction (decide_session ctx now approval_id body) w.db)

  unfoldable pub consume_handler :
      RequestContext → ℕ → ℕ → String → Payload → String → Action World ApprovalRequest
  consume_handler ctx now approval_id action_type payload caller_name w =
      guarded (fatma_soc ∷ scanner_controller ∷ []) ctx
        (require_any ctx (internal_execute ∷ defense_execute ∷ scan_request ∷ [])) w
        (finish w (λ out. event ctx "approval.consume" "success" (some approval_id) ∷ [])
          (event ctx "approval.consume" "denied" (some approval_id) ∷ [])
          (transaction
            (consume ext ctx.principal.tenant_id now approval_id action_type payload caller_name)
            w.db))

  -- `uuid` and `now` are the identifier and the time that the session draws.
  unfoldable pub create_handler :
      RequestContext → ℕ → ℕ → String → CreateIn → Action World ApprovalRequest
  create_handler ctx uuid now caller_name body w =
      let (by, by_type) = requester ctx caller_name body.on_behalf_of in
      guarded (fatma_soc ∷ scanner_controller ∷ []) ctx
        (require_any ctx (internal_execute ∷ defense_request ∷ scan_request ∷ [])) w
        (finish w (λ out. event ctx "approval.request" "pending" (some out.id) ∷ []) []
          (transaction
            (create ext ctx.principal.tenant_id uuid now body.action_type body.payload body.reason
              body.target_type body.target_id by by_type caller_name)
            w.db))

  unfoldable pub preapproved_handler :
      RequestContext → ℕ → ℕ → CreateIn → Action World ApprovalRequest
  preapproved_handler ctx uuid now body w =
      guarded (fatma_soc ∷ []) ctx (require ctx internal_execute none none) w (
        finish w (λ out. event ctx "approval.preapproved" "success" (some out.id) ∷ []) []
          (transaction
            (preapprove ext ctx.principal.tenant_id uuid now body.action_type body.payload
              body.reason body.target_type body.target_id "agent:FATMA")
            w.db))

  -- This route asks for no permission: the service lets only the requester cancel.
  unfoldable pub cancel_handler : RequestContext → ℕ → Action World ApprovalRequest
  cancel_handler ctx approval_id w = guarded (gateway_admin ∷ []) ctx (ok tt) w (
      finish w (λ out. []) []
        (transaction (cancel ext ctx.principal.tenant_id approval_id ctx.principal.subject) w.db))
