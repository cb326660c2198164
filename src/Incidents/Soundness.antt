-- ===== src/Incidents/Soundness.antt =====
-- What holds of every incident, whatever the engine and the engineers do.
use soomsuite_agent.Prelude.{
  ℕ, ◌≡◌, refl, sym, subst, inl, inr, max, ◌≤◌, String, true, false, Option, some, List, [], ◌∷◌,
  arith, contains, is_some, ltb, All, if◌then◌else◌, All-append,
}
use soomsuite_agent.Schemas.Incident.{
  risk_enum, IncidentStatus, incident_status_enum, remediated, closed, false_positive,
}
use soomsuite_agent.Store.{All-find, All-update_first}
use soomsuite_agent.Incidents.{Incident, Evidence, IncidentDb, Candidate, ScoreExternals}
use soomsuite_agent.Incidents.Risk.{classify, score_signals_le, risk_index}
use soomsuite_agent.Incidents.Outcomes.{transition_outcome, confirm_outcome, upsert_outcome}
use soomsuite_agent.Incidents.Engine.{
  has_id, moved, transition, is_insufficient, is_confirmed, confirmed_by, confirm, opened, extended,
  upsert, is_open_for,
}

-- The statuses of an incident that is resolved.
abbrev pub resolved : List IncidentStatus
resolved = remediated ∷ closed ∷ false_positive ∷ []

pub record IsConsistent (i : Incident) : Type 0 where
  pub classified : i.risk_level ≡ classify i.risk_score
  pub bounded : i.risk_score ≤ 100
  pub evidenced :
      is_confirmed i.claim_status ≡ true
      → (e : Evidence) × (i.confirmation_evidence ≡ some e)
        × (is_insufficient i.category e ≡ false)
        × (is_some i.confirmed_by ≡ true)
  pub timed :
      contains resolved i.status ≡ true
      → (is_some i.resolved_at ≡ true) × (is_some i.acknowledged_at ≡ true)

moved-IsConsistent :
    (now : ℕ) (t : IncidentStatus) (i : Incident) → IsConsistent i → IsConsistent (moved now t i)
unfolding moved
moved-IsConsistent now t i s = record {
  classified = s.classified;
  bounded = s.bounded;
  evidenced = s.evidenced;
  timed = λ h. ground arith;
}

confirmed_by-IsConsistent :
    (now user : ℕ) (e : Evidence) (i : Incident)
    → is_insufficient i.category e ≡ false
    → IsConsistent i
    → IsConsistent (confirmed_by now user e i)
confirmed_by-IsConsistent now user e i enough s = record {
  classified = s.classified;
  bounded = s.bounded;
  evidenced = λ h. (e, refl, enough, refl);
  timed = s.timed;
}

max_le : (a b n : ℕ) → a ≤ n → b ≤ n → max a b ≤ n
max_le a b n h k = omega (arith, h, k)

module _ (ext : ScoreExternals) where
  opened-IsConsistent :
      (uuid now : ℕ) (cand : Candidate) (c : ℕ) → IsConsistent (opened ext uuid now cand c)
  unfolding opened
  opened-IsConsistent uuid now cand c = record {
    classified = refl;
    bounded = score_signals_le ext _ _ _ _ _ _;
    evidenced = λ h. absurd (cc);
    timed = λ h. absurd (ground arith);
  }

  -- The class that the larger of two scores has is the larger of their classes.
  level_of_max :
      (a b : ℕ)
      → (if ltb (risk_index (classify a)) (risk_index (classify b)) then classify b else classify a)
        ≡ classify (max a b)
  unfolding classify
  level_of_max a b = ground arith

  extended-IsConsistent :
      (now : ℕ) (cand : Candidate) (c : ℕ) (i : Incident)
      → IsConsistent i
      → IsConsistent (extended ext now cand c i)
  unfolding extended
  extended-IsConsistent now cand c i s = record {
    classified = rw s.classified (level_of_max _ i.risk_score);
    bounded = max_le _ _ _ (score_signals_le ext _ _ _ _ _ _) s.bounded;
    evidenced = s.evidenced;
    timed = s.timed;
  }

  upsert-IsConsistent :
      (uuid now : ℕ) (cand : Candidate) (c : ℕ) (db : IncidentDb)
      → All IsConsistent db.incidents
      → All IsConsistent (upsert ext uuid now cand c db).1.incidents
  upsert-IsConsistent uuid now cand c db h = elim (upsert_outcome ext uuid now cand c db) [
    | inl added ↦
        subst (All IsConsistent) (sym added)
          (All-append IsConsistent db.incidents _ h (opened-IsConsistent uuid now cand c, tt))
    | inr (old, found, saved) ↦ subst (All IsConsistent) (sym saved) (
        All-update_first IsConsistent _ db.incidents (extended ext now cand c old) h (
          extended-IsConsistent now cand c old
            (All-find IsConsistent (is_open_for cand) db.incidents old h found)))
  ]

transition-IsConsistent :
    (now id : ℕ) (t : IncidentStatus) (actor : String) (comment : Option String) (db : IncidentDb)
    → All IsConsistent db.incidents
    → All IsConsistent (transition now id t actor comment db).1.incidents
transition-IsConsistent now id t actor comment db h =
    elim (transition_outcome now id t actor comment db) [
      | inl same ↦ subst (All IsConsistent) (sym same) h
      | inr (i, found, legal, saved) ↦ subst (All IsConsistent) (sym saved) (
          All-update_first IsConsistent _ db.incidents (moved now t i) h
            (moved-IsConsistent now t i (All-find IsConsistent (has_id id) db.incidents i h found)))
    ]

confirm-IsConsistent :
    (now id user : ℕ) (e : Evidence) (db : IncidentDb)
    → All IsConsistent db.incidents
    → All IsConsistent (confirm now id user e db).1.incidents
confirm-IsConsistent now id user e db h = elim (confirm_outcome now id user e db) [
  | inl same ↦ subst (All IsConsistent) (sym same) h
  | inr (i, found, suspect, enough, saved) ↦ subst (All IsConsistent) (sym saved) (
      All-update_first IsConsistent _ db.incidents (confirmed_by now user e i) h (
        confirmed_by-IsConsistent now user e i enough
          (All-find IsConsistent (has_id id) db.incidents i h found)))
]

-- The calls on the engine.
pub data Call : Type 0 where
  upsert_call : (uuid now : ℕ) (cand : Candidate) (criticality : ℕ) → Call
  transition_call :
      (now id : ℕ) (target : IncidentStatus) (actor : String) (comment : Option String) → Call
  confirm_call : (now id user : ℕ) (evidence : Evidence) → Call

unfoldable pub perform : ScoreExternals → Call → IncidentDb → IncidentDb
perform ext (upsert_call uuid now cand c) db = (upsert ext uuid now cand c db).1
perform ext (transition_call now id t actor comment) db = (transition now id t actor comment db).1
perform ext (confirm_call now id user e) db = (confirm now id user e db).1

unfoldable pub run : ScoreExternals → List Call → IncidentDb → IncidentDb
run ext [] db = db
run ext (c ∷ cs) db = run ext cs (perform ext c db)

perform-IsConsistent :
    (ext : ScoreExternals) (c : Call) (db : IncidentDb)
    → All IsConsistent db.incidents
    → All IsConsistent (perform ext c db).incidents
unfolding perform
perform-IsConsistent ext (upsert_call uuid now cand c) db h =
    upsert-IsConsistent ext uuid now cand c db h
perform-IsConsistent ext (transition_call now id t actor comment) db h =
    transition-IsConsistent now id t actor comment db h
perform-IsConsistent ext (confirm_call now id user e) db h = confirm-IsConsistent now id user e db h

-- Whatever sequence of calls the engine takes, every incident keeps this: its class is that of its
-- score, which is at most 100; if it is confirmed, someone recorded evidence that is sufficient for
-- its category; and if it is resolved, the times of that and of its acknowledgement are recorded.
pub run-IsConsistent :
    (ext : ScoreExternals) (cs : List Call) (db : IncidentDb)
    → All IsConsistent db.incidents
    → All IsConsistent (run ext cs db).incidents
unfolding run
run-IsConsistent ext [] db h = h
run-IsConsistent ext (c ∷ cs) db h =
    run-IsConsistent ext cs (perform ext c db) (perform-IsConsistent ext c db h)
