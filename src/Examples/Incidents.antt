-- ===== src/Examples/Incidents.antt =====
-- An incident that is opened by a candidate, taken up and confirmed.
use soomsuite_agent.Prelude.{◌≡◌, refl, max, false, none, some, List, [], ◌∷◌, All}
use soomsuite_agent.Schemas.Incident.{acknowledged}
use soomsuite_agent.Incidents.{Evidence, Incident, IncidentDb, Candidate, ScoreExternals}
use soomsuite_agent.Incidents.Engine.{find_incident, opened}
use soomsuite_agent.Incidents.Soundness.{
  Call, upsert_call, transition_call, confirm_call, run, IsConsistent, run-IsConsistent,
}
use soomsuite_agent.Incidents.Lifecycle.{Escalates, run-Escalates}

abbrev externals : ScoreExternals
externals = record {
  rounded_raw = λ sigs c n s b e. 60;
  round3 = λ x. x;
  max_float = max;
  zero_float = 0;
}

abbrev candidate : Candidate
candidate = record {
  correlation_key = "k";
  category = "xss";
  asset_id = none;
  signals = record { name = "event:xss"; category = "xss"; severity = 6; confidence = 8 } ∷ [];
  event_ids = 11 ∷ 12 ∷ [];
  blocked = 0;
  succeeded = false;
  first_seen = some 5;
  last_seen = some 6;
}

abbrev evidence : Evidence
evidence = record {
  checklist =
      "Analyst reviewed raw evidence (not only FATMA's summary)"
      ∷ "Impact on confidentiality, integrity or availability demonstrated"
      ∷ "Indicator corroborated by an independent source" ∷ [];
  evidence_refs = "ticket-1" ∷ [];
  justification = "Reproduced the stored payload in staging";
}

abbrev empty_db : IncidentDb
empty_db = record { incidents = []; timeline = [] }

abbrev calls : List Call
calls =
    upsert_call 1 10 candidate 3
    ∷ transition_call 20 1 acknowledged "bob" none
    ∷ confirm_call 30 1 2 evidence
    ∷ upsert_call 2 40 candidate 3
    ∷ []

run-IsConsistent_example : All IsConsistent (run externals calls empty_db).incidents
run-IsConsistent_example = run-IsConsistent externals calls empty_db tt

abbrev first_incident : Incident
unfolding opened
first_incident = opened externals 1 10 candidate 3

abbrev opened_db : IncidentDb
unfolding first_incident
opened_db = record { incidents = first_incident ∷ []; timeline = [] }

run-Escalates_example :
    (y : Incident) × (find_incident 1 (run externals calls opened_db) ≡ some y)
    × Escalates first_incident y
unfolding first_incident opened_db opened
run-Escalates_example = run-Escalates externals calls opened_db 1 first_incident refl
