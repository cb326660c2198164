-- ===== src/Approvals/Service.antt =====
-- services/approvals/src/approval_service/service.py: the methods of `ApprovalService`. The
-- parameters are the external code, the tenant of the database session (row-level security hides
-- all other rows), and the clock.
use soomsuite_agent.Prelude.{
  ℕ, ◌+◌, String, Bool, true, false, not, ◌&&◌, ◌||◌, Option, none, some, List, [], ◌∷◌, ◌++◌, ◌==◌,
  leb, opt_eq, str_eq, str_take, any, find,
}
use soomsuite_agent.Errors.{ok, err, bad_request, not_found, forbidden, validation_failed}
use soomsuite_agent.Schemas.Approval.{approval_status_enum, pending, approved}
use soomsuite_agent.Schemas.Defense.{FatmaMode, preapproved_low_risk}
use soomsuite_agent.Store.{Action, pure, gets, modify, raise_when, update_first, ◌>>=◌, ◌>>◌}
use soomsuite_agent.Approvals.{Payload, ApprovalRequest, TenantSettings, Db, Externals}
use soomsuite_agent.Approvals.Policies.{ApprovalPolicy, policy_for}

abbrev pub preapproval_actor : String
preapproval_actor = "policy:tenant-preapproved-low-risk"

-- `_policy`
abbrev pub policy_or_raise : String → Action Db ApprovalPolicy
policy_or_raise action_type db = elim (policy_for action_type) [
  | none ↦ (err (validation_failed "unknown action type"), db)
  | some pol ↦ (ok pol, db)
]

abbrev pub is_row : ℕ → ℕ → ApprovalRequest → Bool
is_row tenant id r = r.id == id && r.tenant_id == tenant

abbrev pub find_row : ℕ → ℕ → Db → Option ApprovalRequest
find_row tenant id db = find (is_row tenant id) db.requests

-- The flush of a changed object: the row of its identifier is rewritten.
abbrev pub save_row : ℕ → ℕ → (ApprovalRequest → ApprovalRequest) → Db → Db
save_row tenant id f db = record db { requests = update_first (is_row tenant id) f db.requests }

abbrev row_or_raise : Option ApprovalRequest → Action Db ApprovalRequest
row_or_raise none db = (err (not_found ""), db)
row_or_raise (some r) db = (ok r, db)

abbrev opt_str_eq : Option String → String → Bool
opt_str_eq none s = false
opt_str_eq (some t) s = str_eq t s

-- `_sign`
abbrev pub sign : Externals → ApprovalRequest → String
sign ext req = ext.sign (record {
  id = req.id;
  tenant_id = req.tenant_id;
  action_type = req.action_type;
  payload_hash = req.payload_hash;
  expires_at = req.expires_at;
  approved_by = req.approved_by;
})

abbrev pub mode_of : Option TenantSettings → Option FatmaMode
mode_of none = none
mode_of (some t) = t.fatma_mode

abbrev pub allowed_actions : Option TenantSettings → List String
allowed_actions none = []
allowed_actions (some t) = t.preapproved_actions

abbrev pub is_preapproved_mode : Option FatmaMode → Bool
is_preapproved_mode (some preapproved_low_risk) = true
is_preapproved_mode _ = false

-- The `try` around `ip_network`: `none` is its `ValueError`.
abbrev pub single_target : Option ℕ → String → Bool
single_target (some n) action_type = n == 1
single_target none action_type =
    str_eq action_type "defense.rate_limit_path" || str_eq action_type "defense.revoke_app_session"

abbrev pub approve_automatically : Externals → ℕ → ApprovalRequest → ApprovalRequest
approve_automatically ext now req =
    let approved_req = record req {
      status = approved;
      approved_by = some preapproval_actor;
      approved_at = some now;
      decision_comment = some "auto-approved under tenant low-risk pre-approval policy";
    } in
    record approved_req { approval_signature = some (sign ext approved_req) }

module _ (ext : Externals) (tenant : ℕ) where
  unfoldable pub get : ℕ → Action Db ApprovalRequest
  get approval_id db = row_or_raise (find_row tenant approval_id db) db

  abbrev pub embeds : Payload → String → Bool
  embeds payload action_type =
      opt_eq payload.tenant_id (some tenant) && opt_str_eq payload.action_type action_type

  abbrev pub new_request :
      ℕ
      → ℕ
      → ApprovalPolicy
      → String
      → Payload
      → String
      → Option String
      → Option ℕ
      → String
      → String
      → String
      → ApprovalRequest
  new_request uuid now pol action_type payload reason target_type target_id by by_type via =
      record {
        id = uuid;
        tenant_id = tenant;
        action_type = action_type;
        action_payload = payload;
        payload_hash = ext.payload_hash payload;
        target_type = target_type;
        target_id = target_id;
        requested_by = by;
        requested_by_type = by_type;
        requested_via = via;
        requested_at = now;
        reason = str_take 2000 reason;
        risk_level = pol.risk;
        expires_at = now + pol.ttl;
        status = pending;
        approved_by = none;
        approved_at = none;
        decision_comment = none;
        approval_signature = none;
        consumed_at = none;
        consumed_by = none;
      }

  -- `uuid` is the identifier drawn for the row. The flush appends the row; an identifier that is
  -- taken, in any tenant, violates the primary key, and the session fails.
  unfoldable pub create :
      (uuid now : ℕ) (action_type : String) (payload : Payload) (reason : String)
      (target_type : Option String) (target_id : Option ℕ)
      (requested_by requested_by_type requested_via : String)
      → Action Db ApprovalRequest
  create uuid now action_type payload reason target_type target_id by by_type via = do
    pol ← policy_or_raise action_type
    raise_when (not (embeds payload action_type))
        (validation_failed "payload must embed its tenant_id and action_type")
    let req =
        new_request uuid now pol action_type payload reason target_type target_id by by_type via
    taken ← gets (λ (db : Db). any (λ r. r.id == uuid) db.requests)
    raise_when taken (bad_request "IntegrityError")
    modify (λ (db : Db). record db { requests = db.requests ++ (req ∷ []) })
    pure req

  -- The refusals of `preapprove`, in their order.
  unfoldable pub preapproval_checks :
      ApprovalPolicy → Option TenantSettings → String → Payload → Action Db (Unit {0})
  preapproval_checks pol settings action_type payload = do
    raise_when (not (is_preapproved_mode (mode_of settings)))
        (forbidden "tenant is in recommend-only mode")
    raise_when (not pol.preapprovable || not (any (str_eq action_type) (allowed_actions settings)))
        (forbidden "action type is not pre-approved for this tenant")
    raise_when
        (not
          (leb 60 payload.ttl_seconds && leb payload.ttl_seconds pol.max_preapproved_ttl_seconds))
        (forbidden "pre-approved actions must be time-bounded")
    raise_when (not (single_target (ext.num_addresses payload.target) action_type))
        (forbidden "pre-approved actions must target a single address")
    raise_when (ext.below_0_9 payload.confidence)
        (forbidden "pre-approval requires verified malicious evidence (confidence ≥ 0.9)")

  unfoldable pub preapprove :
      (uuid now : ℕ) (action_type : String) (payload : Payload) (reason : String)
      (target_type : Option String) (target_id : Option ℕ) (requested_by : String)
      → Action Db ApprovalRequest
  preapprove uuid now action_type payload reason target_type target_id by = do
    pol ← policy_or_raise action_type
    settings ← gets (λ (db : Db). find (λ t. t.tenant_id == tenant) db.tenants)
    preapproval_checks pol settings action_type payload
    req ← create uuid now action_type payload reason target_type target_id by "agent" "fatma-soc"
    modify (save_row tenant uuid (approve_automatically ext now))
    pure (approve_automatically ext now req)
