-- ===== src/Incidents/Engine.antt =====
-- services/fatma-soc/src/fatma_soc/incidents.py: `IncidentEngine`.
use soomsuite_agent.Prelude.{
  ℕ, ◌+◌, max, String, Bool, true, false, not, ◌&&◌, ◌||◌, Option, none, some, List, [], ◌∷◌, ◌++◌,
  map, if◌then◌else◌, ltb, ◌==◌, is_empty, str_eq, str_length, keep, find, any, take, length,
  contains, ◌=?◌,
}
use soomsuite_agent.Errors.{or_raise, not_found, conflict, validation_failed}
use soomsuite_agent.Schemas.Incident.{
  RiskClass, risk_enum, IncidentStatus, incident_status_enum, incident_transitions, new,
  acknowledged, contained, remediated, closed, false_positive, IncidentClaim, suspected, confirmed,
}
use soomsuite_agent.Store.{Action, pure, modify, raise_when, update_first, ◌>>=◌, ◌>>◌}
use soomsuite_agent.Incidents.{
  Signal, Summary, Evidence, Incident, Entry, event_linked, analysis, status_change, confirmation,
  IncidentDb, Candidate, ScoreExternals,
}
use soomsuite_agent.Incidents.Risk.{
  classify, score_signals, confirmation_checklist, risk_index, summarize_signals,
}

abbrev pub has_id : ℕ → Incident → Bool
has_id id i = i.id == id

abbrev pub find_incident : ℕ → IncidentDb → Option Incident
find_incident id db = find (has_id id) db.incidents

-- The flush of a changed incident, to the row that was read by a condition.
abbrev pub save : (Incident → Bool) → Incident → IncidentDb → IncidentDb
save key i db = record db { incidents = update_first key (λ _. i) db.incidents }

abbrev pub add_entry : Entry → IncidentDb → IncidentDb
add_entry e db = record db { timeline = db.timeline ++ (e ∷ []) }

unfoldable pub get : ℕ → Action IncidentDb Incident
get incident_id db = (or_raise (find_incident incident_id db) (not_found ""), db)

-- `x or now`
abbrev pub or_now : Option ℕ → ℕ → ℕ
or_now none now = now
or_now (some t) now = t

-- The assignments of `transition`.
unfoldable pub moved : ℕ → IncidentStatus → Incident → Incident
moved now target i = record i {
  status = target;
  acknowledged_at =
      if contains (acknowledged ∷ remediated ∷ closed ∷ false_positive ∷ []) target
      then some (or_now i.acknowledged_at now)
      else i.acknowledged_at;
  contained_at = if target =? contained then some now else i.contained_at;
  resolved_at =
      if contains (remediated ∷ closed ∷ false_positive ∷ []) target
      then some (or_now i.resolved_at now)
      else i.resolved_at;
}

unfoldable pub transition :
    ℕ → ℕ → IncidentStatus → String → Option String → Action IncidentDb Incident
unfolding incident_transitions
transition now incident_id target actor note = do
  i ← get incident_id
  raise_when (not (contains (incident_transitions i.status) target))
      (conflict "cannot move incident to that status")
  modify (save (has_id incident_id) (moved now target i))
  modify (add_entry (status_change i.id actor i.status target note))
  pure (moved now target i)

-- `[c for c in checklist if c not in attested]`
abbrev pub missing : List String → List String → List String
missing checklist attested = keep (λ c. not (any (str_eq c) attested)) checklist

-- The test of the evidence for an incident of a category.
unfoldable pub is_insufficient : String → Evidence → Bool
is_insufficient category e =
    not (is_empty (missing (confirmation_checklist category) e.checklist))
    || is_empty e.evidence_refs
    || ltb (str_length e.justification) 30

abbrev pub is_confirmed : IncidentClaim → Bool
is_confirmed confirmed = true
is_confirmed suspected = false

abbrev pub confirmed_by : ℕ → ℕ → Evidence → Incident → Incident
confirmed_by now user_id e i = record i {
  claim_status = confirmed;
  confirmed_by = some user_id;
  confirmed_at = some now;
  confirmation_evidence = some e;
}

unfoldable pub confirm : ℕ → ℕ → ℕ → Evidence → Action IncidentDb Incident
confirm now incident_id user_id evidence = do
  i ← get incident_id
  raise_when (is_confirmed i.claim_status) (conflict "incident already confirmed")
  raise_when (is_insufficient i.category evidence)
      (validation_failed "insufficient evidence to confirm this incident")
  modify (save (has_id incident_id) (confirmed_by now user_id evidence i))
  modify (add_entry (confirmation i.id user_id evidence.evidence_refs))
  pure (confirmed_by now user_id evidence i)

-- The incident that a candidate is added to: of its key, and neither closed nor false.
abbrev pub is_open_for : Candidate → Incident → Bool
is_open_for cand i =
    str_eq i.correlation_key cand.correlation_key
    && not (contains (closed ∷ false_positive ∷ []) i.status)

module _ (ext : ScoreExternals) where
  -- `Signal(d["name"], …)` of the dictionaries, those of the candidate by `as_dict`.
  abbrev pub stored_signals : List Summary → List Signal
  stored_signals = map {A = Summary} {B = Signal} λ s. record {
    name = s.name;
    category = s.category;
    severity = s.severity;
    confidence = s.confidence;
  }

  abbrev pub new_signals : List Signal → List Signal
  new_signals = map {A = Signal} {B = Signal} λ s. record s { confidence = ext.round3 s.confidence }

  abbrev pub score : Candidate → List Signal → ℕ → ℕ → Bool → ℕ
  score cand sigs criticality event_count succeeded =
      score_signals ext sigs criticality event_count succeeded cand.blocked (length cand.event_ids)

  -- The incident that `_upsert` creates.
  unfoldable pub opened : ℕ → ℕ → Candidate → ℕ → Incident
  opened uuid now cand criticality =
      let sigs = new_signals cand.signals in
      let score = score cand sigs criticality (length cand.event_ids) cand.succeeded in
      record {
        id = uuid;
        category = cand.category;
        asset_id = cand.asset_id;
        risk_level = classify score;
        risk_score = score;
        claim_status = suspected;
        status = new;
        correlation_key = cand.correlation_key;
        event_count = length cand.event_ids;
        first_seen = or_now cand.first_seen now;
        last_seen = or_now cand.last_seen now;
        signals = summarize_signals ext sigs;
        success_indicator = cand.succeeded;
        acknowledged_at = none;
        contained_at = none;
        resolved_at = none;
        confirmed_by = none;
        confirmed_at = none;
        confirmation_evidence = none;
      }

  -- The incident that `_upsert` adds a candidate to, after it. The class may not decrease.
  unfoldable pub extended : ℕ → Candidate → ℕ → Incident → Incident
  extended now cand criticality i =
      let sigs = stored_signals i.signals ++ new_signals cand.signals in
      let event_count = i.event_count + length cand.event_ids in
      let score = score cand sigs criticality event_count (cand.succeeded || i.success_indicator) in
      let level = classify score in
      record i {
        risk_level =
            if ltb (risk_index level) (risk_index i.risk_level) then i.risk_level else level;
        risk_score = max score i.risk_score;
        event_count = event_count;
        last_seen = max i.last_seen (or_now cand.last_seen now);
        signals = summarize_signals ext sigs;
        success_indicator = i.success_indicator || cand.succeeded;
      }

  abbrev pub is_linked : ℕ → ℕ → Entry → Bool
  is_linked incident_id event_id (event_linked i e) = (i == incident_id) && (e == event_id)
  is_linked incident_id event_id _ = false

  -- The links of an incident's events, `on_conflict_do_nothing`.
  unfoldable pub link : ℕ → List ℕ → List Entry → List Entry
  link incident_id [] entries = entries
  link incident_id (e ∷ es) entries = link incident_id es (
      if any (is_linked incident_id e) entries
      then entries
      else entries ++ (event_linked incident_id e ∷ []))

  -- The end of `_upsert`: the links, and the analysis if the incident is new or its class changed.
  unfoldable pub annotate : Incident → Option RiskClass → Candidate → IncidentDb → IncidentDb
  annotate i previous cand db =
      let linked = link i.id (take 1000 cand.event_ids) db.timeline in
      let note = analysis i.id i.risk_level i.risk_score previous in
      record db {
        timeline = elim previous [
          | none ↦ linked ++ (note ∷ [])
          | some p ↦ if p =? i.risk_level then linked else linked ++ (note ∷ [])
        ];
      }

  abbrev upsert_into : ℕ → ℕ → Candidate → ℕ → Option Incident → IncidentDb → Incident × IncidentDb
  upsert_into uuid now cand criticality none db =
      let i = opened uuid now cand criticality in
      (i, annotate i none cand (record db { incidents = db.incidents ++ (i ∷ []) }))
  upsert_into uuid now cand criticality (some old) db =
      let i = extended now cand criticality old in
      (i, annotate i (some old.risk_level) cand (save (is_open_for cand) i db))

  unfoldable pub upsert : ℕ → ℕ → Candidate → ℕ → IncidentDb → Incident × IncidentDb
  unfolding annotate opened extended
  upsert uuid now cand criticality db =
      upsert_into uuid now cand criticality (find (is_open_for cand) db.incidents) db
