-- ===== src/Defense/Service.antt =====
-- services/fatma-soc/src/fatma_soc: `DefenseService` (defense.py), `try_preapproved`
-- (preapproval.py) and the sessions of the routes on actions (api.py). Audit records and notices
-- are left out.
use soomsuite_agent.Prelude.{
  ℕ, ◌+◌, String, Bool, true, false, not, ◌&&◌, ◌||◌, Option, none, some, [], ◌∷◌, ◌++◌, ltb, ◌==◌,
  if◌then◌else◌, str_eq, str_take, contains, find, ◌=?◌,
}
use soomsuite_agent.Errors.{
  Result, ok, err, or_raise, not_found, conflict, validation_failed, forbidden,
  upstream_unavailable, message,
}
use soomsuite_agent.Schemas.Defense.{
  DefenseActionType, defense_action_enum, low_risk_defense_actions, FatmaMode, recommend_only,
  preapproved_low_risk, defense_status_enum, recommended, pending_approval, approved, executing,
  active, expired, failed, reverted, dismissed,
}
use soomsuite_agent.Security.Policy.{medium, high}
use soomsuite_agent.Store.{Action, pure, lift, modify, raise_when, update_first, ◌>>=◌, ◌>>◌}
use soomsuite_agent.Defense.{
  ActionMode, tenant_mode, human_approved, WafAction, DefenseExternals, DefenseDb,
}
use soomsuite_agent.Defense.Target.{action_payload, validate_target}

abbrev pub is_low : DefenseActionType → Bool
is_low = contains low_risk_defense_actions

-- `MAX_TTL[low]`
abbrev pub max_ttl : Bool → ℕ
max_ttl low = if low then 3600 else 604800

-- `ttl_seconds or (900 if low else None)`
abbrev pub ttl_or_default : Bool → Option ℕ → Option ℕ
ttl_or_default low none = if low then some 900 else none
ttl_or_default low (some t) = if t == 0 then (if low then some 900 else none) else some t

-- `ttl is not None and not 60 <= ttl <= MAX_TTL[low]`
abbrev pub is_bad_ttl : Bool → Option ℕ → Bool
is_bad_ttl low none = false
is_bad_ttl low (some t) = ltb t 60 || ltb (max_ttl low) t

abbrev pub has_id : ℕ → WafAction → Bool
has_id id a = a.id == id

abbrev pub find_action : ℕ → DefenseDb → Option WafAction
find_action id db = find (has_id id) db.actions

-- The flush of a changed action, to the row that was read by its identifier.
abbrev pub save : ℕ → WafAction → DefenseDb → DefenseDb
save id a db = record db { actions = update_first (has_id id) (λ _. a) db.actions }

unfoldable pub get : ℕ → Action DefenseDb WafAction
get action_id db = (or_raise (find_action action_id db) (not_found ""), db)

abbrev mode_or_default : Option FatmaMode → FatmaMode
mode_or_default none = recommend_only
mode_or_default (some m) = m

-- The arguments of `recommend`.
pub record Recommendation : Type 0 where
  pub incident_id : Option ℕ
  pub action_type : DefenseActionType
  pub target : String
  pub ttl_seconds : Option ℕ
  pub rationale : String
  pub confidence : ℕ
  pub created_by : String

abbrev pub is_same_open : DefenseActionType → String → WafAction → Bool
is_same_open action_type target a =
    (a.action_type =? action_type)
    && str_eq a.target target
    && contains (recommended ∷ pending_approval ∷ active ∷ []) a.status

module _ (ext : DefenseExternals) (tenant_id : ℕ) where
  abbrev unhashed : ℕ → Recommendation → String → Option FatmaMode → WafAction
  unhashed uuid r target mode =
      let low = is_low r.action_type in
      record {
        id = uuid;
        incident_id = r.incident_id;
        approval_id = none;
        provider = ext.default_provider;
        action_type = r.action_type;
        target = target;
        confidence = ext.round3 r.confidence;
        payload_hash = "0000000000000000000000000000000000000000000000000000000000000000";
        risk_level = if low then medium else high;
        rationale = str_take 2000 r.rationale;
        mode = tenant_mode (if low then mode_or_default mode else recommend_only);
        status = recommended;
        ttl_seconds = ttl_or_default low r.ttl_seconds;
        expires_at = none;
        executed_at = none;
        executed_by = none;
        provider_ref = none;
        error = none;
        created_by = r.created_by;
      }

  unfoldable pub new_action : ℕ → Recommendation → String → Option FatmaMode → WafAction
  new_action uuid r target mode =
      let a = unhashed uuid r target mode in
      record a { payload_hash = ext.sha256_json (action_payload tenant_id a) }

  abbrev add_unless : Option WafAction → WafAction → DefenseDb → Result WafAction × DefenseDb
  add_unless (some existing) a db = (ok existing, db)
  add_unless none a db = (ok a, record db { actions = db.actions ++ (a ∷ []) })

  abbrev pub recommend_at :
      ℕ → Recommendation → Result String → DefenseDb → Result WafAction × DefenseDb
  recommend_at uuid r (err e) db = (err e, db)
  recommend_at uuid r (ok target) db =
      if is_bad_ttl (is_low r.action_type) (ttl_or_default (is_low r.action_type) r.ttl_seconds)
      then (err (validation_failed "ttl outside the allowed range for this action"), db)
      else add_unless (find (is_same_open r.action_type target) db.actions)
          (new_action uuid r target db.fatma_mode) db

  unfoldable pub recommend : ℕ → Recommendation → Action DefenseDb WafAction
  unfolding new_action validate_target
  recommend uuid r db = recommend_at uuid r (validate_target ext r.action_type r.target) db

  abbrev pub expiry : ℕ → Option ℕ → Option ℕ
  expiry now none = none
  expiry now (some t) = if t == 0 then none else some (now + t)

  abbrev pub activated : ℕ → String → String → WafAction → WafAction
  activated now by ref a = record a {
    provider_ref = some ref;
    executed_at = some now;
    executed_by = some by;
    expires_at = expiry now a.ttl_seconds;
    status = active;
  }

  unfoldable pub failed_with : String → WafAction → WafAction
  unfolding message
  failed_with m a = record a { status = failed; error = some (message (upstream_unavailable m)) }

  -- The end of `execute`: only `UpstreamUnavailable` is caught.
  unfoldable pub applied : ℕ → String → WafAction → Result String → Result WafAction
  unfolding failed_with
  applied now by a (ok ref) = ok (activated now by ref a)
  applied now by a (err (upstream_unavailable m)) = ok (failed_with m a)
  applied now by a (err e) = err e

  -- `execute`, on the action as it was read.
  unfoldable pub execute : ℕ → String → WafAction → Result WafAction
  unfolding applied
  execute now by a =
      if contains (pending_approval ∷ approved ∷ []) a.status
      then applied now by (record a { status = executing })
          (ext.apply a.provider (record a { status = executing }))
      else err (conflict "action is not awaiting execution")

  -- The session of `request_approval`.
  unfoldable pub request_approval : ℕ → Action DefenseDb WafAction
  request_approval action_id = do
    a ← get action_id
    raise_when (not (a.status =? recommended))
        (conflict "approval was already requested or the action is closed")
    approval ← lift (ext.request_approval (action_payload tenant_id a) a.rationale)
    modify (
        save action_id (record a {
          approval_id = some approval;
          status = pending_approval;
          mode = human_approved;
        }))
    pure
        (record a { approval_id = some approval; status = pending_approval; mode = human_approved })

  -- The session of `execute_action`.
  unfoldable pub execute_action : ℕ → ℕ → String → Action DefenseDb WafAction
  unfolding execute
  execute_action now action_id user = do
    a ← get action_id
    approval ← lift (or_raise a.approval_id (conflict "action has no approval"))
    lift (ext.consume approval (action_payload tenant_id a))
    done ← lift (execute now user a)
    modify (save action_id done)
    pure done

  -- `revert`, which the route calls with `expired=False`.
  unfoldable pub revert_action : ℕ → Bool → Action DefenseDb WafAction
  revert_action action_id is_expired = do
    a ← get action_id
    raise_when (not (a.status =? active)) (conflict "action is not active")
    lift (ext.revert a.provider a)
    modify (save action_id (record a { status = if is_expired then expired else reverted }))
    pure (record a { status = if is_expired then expired else reverted })

  unfoldable pub dismiss_action : ℕ → Action DefenseDb WafAction
  dismiss_action action_id = do
    a ← get action_id
    raise_when (not (a.status =? recommended)) (conflict "only recommendations can be dismissed")
    modify (save action_id (record a { status = dismissed }))
    pure (record a { status = dismissed })

  -- The condition under which `try_preapproved` asks for a pre-approval.
  abbrev pub is_preapproved_mode : ActionMode → Bool
  is_preapproved_mode (tenant_mode preapproved_low_risk) = true
  is_preapproved_mode _ = false

  unfoldable pub may_preapprove : WafAction → Bool
  may_preapprove a = is_preapproved_mode a.mode && is_low a.action_type && (a.status =? recommended)

  abbrev pub granted : ℕ → WafAction → WafAction
  granted approval a = record a { approval_id = some approval; status = approved }

  -- `try_preapproved` once the approval service has answered; only `Forbidden` is caught.
  unfoldable pub settle_preapproval : ℕ → ℕ → WafAction → Result ℕ → Action DefenseDb (Unit {0})
  unfolding execute
  settle_preapproval now action_id a (err (forbidden m)) db = (ok tt, db)
  settle_preapproval now action_id a (err e) db = (err e, db)
  settle_preapproval now action_id a (ok approval) db =
      (do
        lift (ext.consume approval (action_payload tenant_id a))
        done ← lift (execute now "policy:preapproved" (granted approval a))
        modify (save action_id done))
        db

  unfoldable pub try_preapproved : ℕ → ℕ → Action DefenseDb (Unit {0})
  unfolding settle_preapproval may_preapprove
  try_preapproved now action_id = do
    a ← get action_id
    (λ db.
        if may_preapprove a
        then settle_preapproval now action_id a
            (ext.preapprove (action_payload tenant_id a) a.rationale) db
        else (ok tt, db))
