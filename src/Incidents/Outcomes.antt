-- ===== src/Incidents/Outcomes.antt =====
-- What each call on the engine may do to the incidents.
use soomsuite_agent.Prelude.{
  ℕ, ◌≡◌, refl, ◌⊎◌, inl, inr, String, true, false, Option, some, [], ◌∷◌, ◌++◌, arith, Bool-cases,
  Option-cases, contains, find,
}
use soomsuite_agent.Schemas.Incident.{IncidentStatus, incident_status_enum, incident_transitions}
use soomsuite_agent.Incidents.{Incident, Evidence, IncidentDb, Candidate, ScoreExternals}
use soomsuite_agent.Incidents.Engine.{
  has_id, find_incident, get, save, moved, transition, is_insufficient, is_confirmed, confirmed_by,
  confirm, opened, extended, upsert, annotate, is_open_for,
}

pub transition_outcome :
    (now id : ℕ) (t : IncidentStatus) (actor : String) (comment : Option String) (db : IncidentDb)
    → ((transition now id t actor comment db).1.incidents ≡ db.incidents)
      ⊎ ((i : Incident) × (find_incident id db ≡ some i)
          × (contains (incident_transitions i.status) t ≡ true)
          × ((transition now id t actor comment db).1.incidents
              ≡ (save (has_id id) (moved now t i) db).incidents))
unfolding transition get
transition_outcome now id t actor comment db = elim (Option-cases (find_incident id db)) [
  | inl missing ↦ inl (ground arith)
  | inr (i, found) ↦ elim (Bool-cases (contains (incident_transitions i.status) t)) [
    | inr illegal ↦ inl (ground arith)
    | inl legal ↦ inr (i, found, legal, ground arith)
  ]
]

pub confirm_outcome :
    (now id user : ℕ) (e : Evidence) (db : IncidentDb)
    → ((confirm now id user e db).1.incidents ≡ db.incidents)
      ⊎ ((i : Incident) × (find_incident id db ≡ some i)
          × (is_confirmed i.claim_status ≡ false)
          × (is_insufficient i.category e ≡ false)
          × ((confirm now id user e db).1.incidents
              ≡ (save (has_id id) (confirmed_by now user e i) db).incidents))
unfolding confirm get
confirm_outcome now id user e db = elim (Option-cases (find_incident id db)) [
  | inl missing ↦ inl (ground arith)
  | inr (i, found) ↦ elim (Bool-cases (is_confirmed i.claim_status)) [
    | inl already ↦ inl (ground arith)
    | inr suspect ↦ elim (Bool-cases (is_insufficient i.category e)) [
      | inl poor ↦ inl (ground arith)
      | inr enough ↦ inr (i, found, suspect, enough, ground arith)
    ]
  ]
]

pub upsert_outcome :
    (ext : ScoreExternals) (uuid now : ℕ) (cand : Candidate) (c : ℕ) (db : IncidentDb)
    → ((upsert ext uuid now cand c db).1.incidents
        ≡ db.incidents ++ (opened ext uuid now cand c ∷ []))
      ⊎ ((i : Incident) × (find (is_open_for cand) db.incidents ≡ some i)
          × ((upsert ext uuid now cand c db).1.incidents
              ≡ (save (is_open_for cand) (extended ext now cand c i) db).incidents))
unfolding upsert annotate
upsert_outcome ext uuid now cand c db = elim (Option-cases (find (is_open_for cand) db.incidents)) [
  | inl none_open ↦ inl (rw none_open refl)
  | inr (i, found) ↦ inr (i, found, rw found refl)
]
