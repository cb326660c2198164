-- ===== src/Schemas/Incident.antt =====
-- packages/platform-core/src/platform_core/schemas/enums.py: risk classes, and the claim and the
-- lifecycle of an incident.
use soomsuite_agent.Prelude.{ℕ, ◌≡◌, refl, some, List, [], ◌∷◌, Enum, get_elem?}

pub data RiskClass : Type 0 where
  normal suspicious high_risk critical : RiskClass

abbrev risk_index : RiskClass → ℕ
risk_index normal = 0
risk_index suspicious = 1
risk_index high_risk = 2
risk_index critical = 3

abbrev pub risk_order : List RiskClass
risk_order = normal ∷ suspicious ∷ high_risk ∷ critical ∷ []

pub risk_index_member : (a : RiskClass) → get_elem? risk_order (risk_index a) ≡ some a
risk_index_member normal = refl
risk_index_member _ = refl

instance abbrev pub risk_enum : Enum RiskClass
risk_enum = record { values = risk_order; index = risk_index; index_values = risk_index_member }

pub data IncidentStatus : Type 0 where
  new acknowledged investigating contained remediated closed false_positive : IncidentStatus

abbrev incident_status_index : IncidentStatus → ℕ
incident_status_index new = 0
incident_status_index acknowledged = 1
incident_status_index investigating = 2
incident_status_index contained = 3
incident_status_index remediated = 4
incident_status_index closed = 5
incident_status_index false_positive = 6

abbrev pub all_incident_statuses : List IncidentStatus
all_incident_statuses =
    new ∷ acknowledged ∷ investigating ∷ contained ∷ remediated ∷ closed ∷ false_positive ∷ []

pub incident_status_index_member :
    (a : IncidentStatus) → get_elem? all_incident_statuses (incident_status_index a) ≡ some a
incident_status_index_member new = refl
incident_status_index_member _ = refl

instance abbrev pub incident_status_enum : Enum IncidentStatus
incident_status_enum = record {
  values = all_incident_statuses;
  index = incident_status_index;
  index_values = incident_status_index_member;
}

pub data IncidentClaim : Type 0 where
  suspected confirmed : IncidentClaim

unfoldable pub incident_transitions : IncidentStatus → List IncidentStatus
incident_transitions new = acknowledged ∷ false_positive ∷ []
incident_transitions acknowledged = investigating ∷ false_positive ∷ []
incident_transitions investigating = contained ∷ remediated ∷ false_positive ∷ []
incident_transitions contained = remediated ∷ investigating ∷ []
incident_transitions remediated = closed ∷ investigating ∷ []
incident_transitions closed = investigating ∷ []
incident_transitions false_positive = investigating ∷ []
