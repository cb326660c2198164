-- ===== src/Schemas/Defense.antt =====
-- packages/platform-core/src/platform_core/schemas/enums.py: the defensive actions, those of low
-- risk, their status, and the mode in which FATMA acts for a tenant.
use soomsuite_agent.Prelude.{ℕ, ◌≡◌, refl, some, List, [], ◌∷◌, Enum, get_elem?, String}

pub data DefenseActionType : Type 0 where
  challenge_ip rate_limit_path temp_block_ip revoke_app_session block_country disable_account
        rotate_credentials change_firewall_rule shutdown_service change_dns modify_infrastructure
        delete_data isolate_network_segment :
      DefenseActionType

abbrev defense_action_index : DefenseActionType → ℕ
defense_action_index challenge_ip = 0
defense_action_index rate_limit_path = 1
defense_action_index temp_block_ip = 2
defense_action_index revoke_app_session = 3
defense_action_index block_country = 4
defense_action_index disable_account = 5
defense_action_index rotate_credentials = 6
defense_action_index change_firewall_rule = 7
defense_action_index shutdown_service = 8
defense_action_index change_dns = 9
defense_action_index modify_infrastructure = 10
defense_action_index delete_data = 11
defense_action_index isolate_network_segment = 12

abbrev pub all_defense_actions : List DefenseActionType
all_defense_actions =
    challenge_ip ∷ rate_limit_path ∷ temp_block_ip ∷ revoke_app_session ∷ block_country
    ∷ disable_account ∷ rotate_credentials ∷ change_firewall_rule ∷ shutdown_service ∷ change_dns
    ∷ modify_infrastructure ∷ delete_data ∷ isolate_network_segment ∷ []

pub defense_action_index_member :
    (a : DefenseActionType) → get_elem? all_defense_actions (defense_action_index a) ≡ some a
defense_action_index_member challenge_ip = refl
defense_action_index_member _ = refl

instance abbrev pub defense_action_enum : Enum DefenseActionType
defense_action_enum = record {
  values = all_defense_actions;
  index = defense_action_index;
  index_values = defense_action_index_member;
}

-- `DefenseActionType.value`
unfoldable pub action_value : DefenseActionType → String
action_value challenge_ip = "challenge_ip"
action_value rate_limit_path = "rate_limit_path"
action_value temp_block_ip = "temp_block_ip"
action_value revoke_app_session = "revoke_app_session"
action_value block_country = "block_country"
action_value disable_account = "disable_account"
action_value rotate_credentials = "rotate_credentials"
action_value change_firewall_rule = "change_firewall_rule"
action_value shutdown_service = "shutdown_service"
action_value change_dns = "change_dns"
action_value modify_infrastructure = "modify_infrastructure"
action_value delete_data = "delete_data"
action_value isolate_network_segment = "isolate_network_segment"

abbrev pub low_risk_defense_actions : List DefenseActionType
low_risk_defense_actions = challenge_ip ∷ rate_limit_path ∷ temp_block_ip ∷ revoke_app_session ∷ []

pub data FatmaMode : Type 0 where
  recommend_only preapproved_low_risk : FatmaMode

pub data DefenseActionStatus : Type 0 where
  recommended pending_approval approved executing active expired failed reverted rejected
        dismissed :
      DefenseActionStatus

abbrev defense_status_index : DefenseActionStatus → ℕ
defense_status_index recommended = 0
defense_status_index pending_approval = 1
defense_status_index approved = 2
defense_status_index executing = 3
defense_status_index active = 4
defense_status_index expired = 5
defense_status_index failed = 6
defense_status_index reverted = 7
defense_status_index rejected = 8
defense_status_index dismissed = 9

abbrev pub all_defense_statuses : List DefenseActionStatus
all_defense_statuses =
    recommended ∷ pending_approval ∷ approved ∷ executing ∷ active ∷ expired ∷ failed ∷ reverted
    ∷ rejected ∷ dismissed ∷ []

pub defense_status_index_member :
    (a : DefenseActionStatus) → get_elem? all_defense_statuses (defense_status_index a) ≡ some a
defense_status_index_member recommended = refl
defense_status_index_member _ = refl

instance abbrev pub defense_status_enum : Enum DefenseActionStatus
defense_status_enum = record {
  values = all_defense_statuses;
  index = defense_status_index;
  index_values = defense_status_index_member;
}
