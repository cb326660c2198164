-- ===== src/Approvals/Policies.antt =====
-- services/approvals/src/approval_service/policies.py: the approval policy of each action type.
use soomsuite_agent.Prelude.{
  ℕ, String, Bool, false, Option, none, some, List, [], ◌∷◌, if◌then◌else◌, str_eq, str_append,
  contains, map,
}
use soomsuite_agent.Schemas.Defense.{
  DefenseActionType, defense_action_enum, all_defense_actions, low_risk_defense_actions,
  action_value, delete_data, shutdown_service, change_dns, isolate_network_segment,
}
use soomsuite_agent.Security.Rbac.{P, scan_approve, defense_approve}
use soomsuite_agent.Security.Policy.{RiskLevel}

-- The time to live is in seconds.
pub record ApprovalPolicy : Type 0 where
  pub risk : RiskLevel
  pub approver_permission : P
  pub ttl : ℕ
  pub preapprovable : Bool
  pub max_preapproved_ttl_seconds : ℕ

abbrev critical_actions : List DefenseActionType
critical_actions = delete_data ∷ shutdown_service ∷ change_dns ∷ isolate_network_segment ∷ []

unfoldable pub defense_policy : DefenseActionType → ApprovalPolicy
defense_policy action =
    let is_low = contains low_risk_defense_actions action in
    record {
      risk =
          if is_low
          then RiskLevel.medium
          else if contains critical_actions action
          then RiskLevel.critical
          else RiskLevel.high;
      approver_permission = defense_approve;
      ttl = if is_low then 3600 else 1800;
      preapprovable = is_low;
      max_preapproved_ttl_seconds = if is_low then 3600 else 0;
    }

unfoldable pub defense_name : DefenseActionType → String
unfolding action_value
defense_name action = str_append "defense." (action_value action)

abbrev pub scan_policy : ApprovalPolicy
scan_policy = record {
  risk = RiskLevel.high;
  approver_permission = scan_approve;
  ttl = 86400;
  preapprovable = false;
  max_preapproved_ttl_seconds = 0;
}

-- `POLICIES`, keyed by action type.
unfoldable pub policies : List (String × ApprovalPolicy)
unfolding defense_name defense_policy
policies =
    ("scan.execute", scan_policy)
    ∷ map (λ a. (defense_name a, defense_policy a)) all_defense_actions

abbrev lookup : String → List (String × ApprovalPolicy) → Option ApprovalPolicy
lookup k [] = none
lookup k ((j, v) ∷ m) = if str_eq j k then some v else lookup k m

unfoldable pub policy_for : String → Option ApprovalPolicy
unfolding policies
policy_for action_type = lookup action_type policies
