-- ===== src/Security/Rbac.antt =====
-- packages/platform-core/src/platform_core/security/rbac.py: the table from roles to permissions,
-- the single source of truth for what a role may do.
pub mod Separation
use soomsuite_agent.Prelude.{ℕ, ◌≡◌, refl, some, List, [], ◌∷◌, ◌++◌, Enum, get_elem?}
use soomsuite_agent.Security.Principal.{
  Role, anonymous_customer, authenticated_customer, sales_agent, support_agent, security_analyst,
  security_engineer, tenant_admin, platform_admin, system_service,
}

pub data P : Type 0 where
  samiir_chat contact_submit appointment_request appointment_own_manage customer_own_read crm_read
        crm_write conversation_read conversation_manage appointment_read appointment_manage
        knowledge_read knowledge_write knowledge_approve channel_read security_event_read
        incident_read incident_triage incident_confirm asset_read asset_manage finding_read
        finding_review scan_read scan_request scan_approve malware_read malware_submit defense_read
        defense_request defense_approve defense_execute fatma_ask approval_read tenant_user_manage
        tenant_integration_manage tenant_settings_manage audit_read agent_config_manage
        approval_policy_manage platform_operate platform_tenant_manage internal_execute :
      P

abbrev p_index : P → ℕ
p_index samiir_chat = 0
p_index contact_submit = 1
p_index appointment_request = 2
p_index appointment_own_manage = 3
p_index customer_own_read = 4
p_index crm_read = 5
p_index crm_write = 6
p_index conversation_read = 7
p_index conversation_manage = 8
p_index appointment_read = 9
p_index appointment_manage = 10
p_index knowledge_read = 11
p_index knowledge_write = 12
p_index knowledge_approve = 13
p_index channel_read = 14
p_index security_event_read = 15
p_index incident_read = 16
p_index incident_triage = 17
p_index incident_confirm = 18
p_index asset_read = 19
p_index asset_manage = 20
p_index finding_read = 21
p_index finding_review = 22
p_index scan_read = 23
p_index scan_request = 24
p_index scan_approve = 25
p_index malware_read = 26
p_index malware_submit = 27
p_index defense_read = 28
p_index defense_request = 29
p_index defense_approve = 30
p_index defense_execute = 31
p_index fatma_ask = 32
p_index approval_read = 33
p_index tenant_user_manage = 34
p_index tenant_integration_manage = 35
p_index tenant_settings_manage = 36
p_index audit_read = 37
p_index agent_config_manage = 38
p_index approval_policy_manage = 39
p_index platform_operate = 40
p_index platform_tenant_manage = 41
p_index internal_execute = 42

abbrev pub all_permissions : List P
all_permissions =
    samiir_chat ∷ contact_submit ∷ appointment_request ∷ appointment_own_manage ∷ customer_own_read
    ∷ crm_read ∷ crm_write ∷ conversation_read ∷ conversation_manage ∷ appointment_read
    ∷ appointment_manage ∷ knowledge_read ∷ knowledge_write ∷ knowledge_approve ∷ channel_read
    ∷ security_event_read ∷ incident_read ∷ incident_triage ∷ incident_confirm ∷ asset_read
    ∷ asset_manage ∷ finding_read ∷ finding_review ∷ scan_read ∷ scan_request ∷ scan_approve
    ∷ malware_read ∷ malware_submit ∷ defense_read ∷ defense_request ∷ defense_approve
    ∷ defense_execute ∷ fatma_ask ∷ approval_read ∷ tenant_user_manage ∷ tenant_integration_manage
    ∷ tenant_settings_manage ∷ audit_read ∷ agent_config_manage ∷ approval_policy_manage
    ∷ platform_operate ∷ platform_tenant_manage ∷ internal_execute ∷ []

pub p_index_member : (a : P) → get_elem? all_permissions (p_index a) ≡ some a
p_index_member samiir_chat = refl
p_index_member _ = refl

instance abbrev pub p_enum : Enum P
p_enum = record { values = all_permissions; index = p_index; index_values = p_index_member }

abbrev crm_read_set : List P
crm_read_set = crm_read ∷ conversation_read ∷ appointment_read ∷ knowledge_read ∷ channel_read ∷ []

abbrev sec_read_set : List P
sec_read_set =
    security_event_read ∷ incident_read ∷ asset_read ∷ finding_read ∷ scan_read ∷ malware_read
    ∷ defense_read ∷ approval_read ∷ []

unfoldable pub role_permissions : Role → List P
role_permissions anonymous_customer = samiir_chat ∷ contact_submit ∷ appointment_request ∷ []
role_permissions authenticated_customer =
    samiir_chat ∷ contact_submit ∷ appointment_request ∷ appointment_own_manage ∷ customer_own_read
    ∷ []
role_permissions sales_agent =
    crm_read_set ++ (crm_write ∷ appointment_manage ∷ conversation_manage ∷ [])
role_permissions support_agent = crm_read_set ++ (conversation_manage ∷ appointment_manage ∷ [])
role_permissions security_analyst =
    sec_read_set ++ (incident_triage ∷ malware_submit ∷ fatma_ask ∷ [])
role_permissions security_engineer =
    sec_read_set
    ++ (incident_triage ∷ incident_confirm ∷ malware_submit ∷ fatma_ask ∷ asset_manage
        ∷ finding_review ∷ scan_request ∷ scan_approve ∷ defense_request ∷ defense_approve
        ∷ defense_execute ∷ [])
role_permissions tenant_admin =
    crm_read_set
    ++ (knowledge_write ∷ knowledge_approve ∷ tenant_user_manage ∷ tenant_integration_manage
        ∷ tenant_settings_manage ∷ audit_read ∷ agent_config_manage ∷ approval_policy_manage
        ∷ approval_read ∷ defense_approve ∷ asset_read ∷ asset_manage ∷ [])
role_permissions platform_admin = platform_operate ∷ platform_tenant_manage ∷ audit_read ∷ []
role_permissions system_service = internal_execute ∷ []

-- Permissions that require the session to have completed MFA or passkey authentication.
unfoldable pub mfa_required : List P
mfa_required =
    incident_confirm ∷ asset_manage ∷ scan_request ∷ scan_approve ∷ defense_request
    ∷ defense_approve ∷ defense_execute ∷ tenant_user_manage ∷ tenant_integration_manage
    ∷ tenant_settings_manage ∷ agent_config_manage ∷ approval_policy_manage ∷ knowledge_approve
    ∷ platform_operate ∷ platform_tenant_manage ∷ []

-- The union over the roles, `out |= ROLE_PERMISSIONS.get(role, frozenset())`.
unfoldable pub permissions_for : List Role → List P
permissions_for [] = []
permissions_for (r ∷ rs) = role_permissions r ++ permissions_for rs
