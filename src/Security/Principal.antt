-- ===== src/Security/Principal.antt =====
-- packages/platform-core/src/platform_core/security/principal.py: identities of people, customers
-- and services. A UUID is a number; a `frozenset` of roles is a list read by membership.
use soomsuite_agent.Prelude.{
  ℕ, ◌≡◌, refl, String, Bool, true, Option, none, some, List, [], ◌∷◌, str_append, Enum, contains,
  any, get_elem?,
}

pub data Role : Type 0 where
  anonymous_customer authenticated_customer sales_agent support_agent security_analyst
        security_engineer tenant_admin platform_admin system_service :
      Role

pub data ActorType : Type 0 where
  customer user agent service : ActorType

pub data AgentName : Type 0 where
  samiir fatma : AgentName

abbrev role_index : Role → ℕ
role_index anonymous_customer = 0
role_index authenticated_customer = 1
role_index sales_agent = 2
role_index support_agent = 3
role_index security_analyst = 4
role_index security_engineer = 5
role_index tenant_admin = 6
role_index platform_admin = 7
role_index system_service = 8

abbrev pub all_roles : List Role
all_roles =
    anonymous_customer ∷ authenticated_customer ∷ sales_agent ∷ support_agent ∷ security_analyst
    ∷ security_engineer ∷ tenant_admin ∷ platform_admin ∷ system_service ∷ []

pub role_member : (r : Role) → get_elem? all_roles (role_index r) ≡ some r
role_member anonymous_customer = refl
role_member _ = refl

instance abbrev pub role_enum : Enum Role
role_enum = record { values = all_roles; index = role_index; index_values = role_member }

abbrev pub customer_roles : List Role
customer_roles = anonymous_customer ∷ authenticated_customer ∷ []

abbrev pub security_roles : List Role
security_roles = security_analyst ∷ security_engineer ∷ []

pub record Principal : Type 0 where
  pub subject : String
  pub tenant_id : ℕ
  pub actor_type : ActorType
  pub roles : List Role
  pub session_id : Option String
  pub mfa : Bool
  pub contact_id : Option ℕ
  pub display_name : Option String

-- `bool(self.roles & CUSTOMER_ROLES)`
unfoldable pub is_customer : Principal → Bool
is_customer p = any (contains customer_roles) p.roles

-- `Principal.system`
unfoldable pub system : ℕ → String → Principal
system tenant_id service_name = record {
  subject = str_append "service:" service_name;
  tenant_id = tenant_id;
  actor_type = service;
  roles = system_service ∷ [];
  session_id = none;
  mfa = true;
  contact_id = none;
  display_name = none;
}
