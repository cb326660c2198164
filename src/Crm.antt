-- ===== src/Crm.antt =====
-- The CRM service (services/crm/src/crm_service/service.py): its rows, one tenant's. A contact's
-- consent is its top level and its history; notes, tasks, values and qualifications are left out.
pub mod Pipeline
pub mod Stages
pub mod Capture
pub mod Keeping
pub mod OnFile
use soomsuite_agent.Prelude.{ℕ, String, Bool, Option, List}
use soomsuite_agent.Schemas.Pipeline.{PipelineStage}

-- A consent as `capture_contact` records it.
pub record Consent : Type 0 where
  pub contact_processing : Bool
  pub marketing : Bool
  pub whatsapp : Bool
  pub email : Bool
  pub recorded_at : ℕ
  pub source : String

pub record Contact : Type 0 where
  pub id : ℕ
  pub company_id : Option ℕ
  pub full_name : Option String
  pub email_ciphertext : Option String
  pub email_hash : Option String
  pub phone_ciphertext : Option String
  pub phone_hash : Option String
  pub whatsapp_hash : Option String
  pub preferred_channel : Option String
  pub timezone : Option String
  pub consent : Option Consent
  pub consent_history : List Consent
  pub source : Option String
  pub created_at : ℕ
  pub last_interaction_at : Option ℕ
  pub deleted_at : Option ℕ

pub record Company : Type 0 where
  pub id : ℕ
  pub name : String
  pub deleted_at : Option ℕ

pub record Opportunity : Type 0 where
  pub id : ℕ
  pub contact_id : Option ℕ
  pub company_id : Option ℕ
  pub title : String
  pub source : Option String
  pub stage : PipelineStage
  pub stage_changed_at : ℕ
  pub version : ℕ
  pub lost_reason : Option String
  pub last_interaction_at : Option ℕ
  pub created_at : ℕ
  pub deleted_at : Option ℕ

pub record Activity : Type 0 where
  pub contact_id : Option ℕ
  pub opportunity_id : Option ℕ
  pub actor_type : String
  pub actor_id : String
  pub activity_type : String
  pub occurred_at : ℕ

pub record CrmDb : Type 0 where
  pub companies : List Company
  pub contacts : List Contact
  pub opportunities : List Opportunity
  pub activities : List Activity
