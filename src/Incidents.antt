-- ===== src/Incidents.antt =====
-- The incident engine (services/fatma-soc/src/fatma_soc): its rows, one tenant's, and the external
-- arithmetic of its scores. Texts of titles and summaries, recommendations and the evidence of a
-- signal are left out: nothing that is modelled reads them.
pub mod Risk
pub mod Engine
pub mod Outcomes
pub mod Soundness
pub mod Lifecycle
use soomsuite_agent.Prelude.{ℕ, String, Bool, Option, List}
use soomsuite_agent.Schemas.Incident.{RiskClass, IncidentStatus, IncidentClaim}

-- `Signal`; the confidence, a float, stands for its bit pattern.
pub record Signal : Type 0 where
  pub name : String
  pub category : String
  pub severity : ℕ
  pub confidence : ℕ

-- An entry of `summarize_signals`: the signals of one name.
pub record Summary : Type 0 where
  pub name : String
  pub category : String
  pub severity : ℕ
  pub confidence : ℕ
  pub count : ℕ

-- What a human records to confirm an incident.
pub record Evidence : Type 0 where
  pub checklist : List String
  pub evidence_refs : List String
  pub justification : String

pub record Incident : Type 0 where
  pub id : ℕ
  pub category : String
  pub asset_id : Option ℕ
  pub risk_level : RiskClass
  pub risk_score : ℕ
  pub claim_status : IncidentClaim
  pub status : IncidentStatus
  pub correlation_key : String
  pub event_count : ℕ
  pub first_seen : ℕ
  pub last_seen : ℕ
  pub signals : List Summary
  pub success_indicator : Bool
  pub acknowledged_at : Option ℕ
  pub contained_at : Option ℕ
  pub resolved_at : Option ℕ
  pub confirmed_by : Option ℕ
  pub confirmed_at : Option ℕ
  pub confirmation_evidence : Option Evidence

-- `IncidentEvent`: the timeline.
pub data Entry : Type 0 where
  event_linked : (incident_id security_event_id : ℕ) → Entry
  analysis :
      (incident_id : ℕ) (risk_level : RiskClass) (risk_score : ℕ) (previous : Option RiskClass)
      → Entry
  status_change :
      (incident_id : ℕ) (actor : String) (current target : IncidentStatus) (note : Option String)
      → Entry
  confirmation : (incident_id user_id : ℕ) (evidence_refs : List String) → Entry

pub record IncidentDb : Type 0 where
  pub incidents : List Incident
  pub timeline : List Entry

-- `Candidate`: what detection found for one correlation key.
pub record Candidate : Type 0 where
  pub correlation_key : String
  pub category : String
  pub asset_id : Option ℕ
  pub signals : List Signal
  pub event_ids : List ℕ
  pub blocked : ℕ
  pub succeeded : Bool
  pub first_seen : Option ℕ
  pub last_seen : Option ℕ

-- The floating-point arithmetic of `score_signals`, `round(raw)` with a negative result as 0, from
-- the signals, the criticality of the asset, the count of events, the indicator of success, and the
-- blocked events among those of the candidate; `round(x, 3)`, `max` and `0.0` of a confidence.
pub record ScoreExternals : Type 0 where
  pub rounded_raw : List Signal → ℕ → ℕ → Bool → ℕ → ℕ → ℕ
  pub round3 : ℕ → ℕ
  pub max_float : ℕ → ℕ → ℕ
  pub zero_float : ℕ
