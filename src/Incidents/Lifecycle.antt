-- ===== src/Incidents/Lifecycle.antt =====
-- How an incident fares under the engine's calls: its risk and its claim only rise, and its status
-- moves along the table of transitions.
use soomsuite_agent.Prelude.{
  ℕ, ◌≡◌, sym, ◌∙◌, subst, refl, ◌⊎◌, inl, inr, ◌≤◌, Bool, true, false, some, List, [], ◌∷◌, arith,
  Bool-cases, ltb, find, if◌then◌else◌,
}
use soomsuite_agent.Schemas.Incident.{RiskClass, risk_enum, IncidentStatus, incident_status_enum}
use soomsuite_agent.Store.{update_first, find-append}
use soomsuite_agent.Incidents.{Incident, Evidence, IncidentDb, Candidate, ScoreExternals}
use soomsuite_agent.Incidents.Risk.{risk_index}
use soomsuite_agent.Incidents.Outcomes.{transition_outcome, confirm_outcome, upsert_outcome}
use soomsuite_agent.Incidents.Engine.{
  has_id, find_incident, moved, is_confirmed, confirmed_by, extended,
}
use soomsuite_agent.Incidents.Soundness.{
  Call, upsert_call, transition_call, confirm_call, perform, run,
}

-- What an incident's later states keep of it.
pub record Escalates (i j : Incident) : Type 0 where
  pub same_id : j.id ≡ i.id
  pub same_category : j.category ≡ i.category
  pub same_key : j.correlation_key ≡ i.correlation_key
  pub score : i.risk_score ≤ j.risk_score
  pub level : risk_index i.risk_level ≤ risk_index j.risk_level
  pub events : i.event_count ≤ j.event_count
  pub claim :
      is_confirmed i.claim_status ≡ true
      → (is_confirmed j.claim_status ≡ true)
        × (j.confirmed_by ≡ i.confirmed_by)
        × (j.confirmation_evidence ≡ i.confirmation_evidence)

Escalates-refl : (i : Incident) → Escalates i i
Escalates-refl i = record {
  same_id = refl;
  same_category = refl;
  same_key = refl;
  score = omega arith;
  level = omega arith;
  events = omega arith;
  claim = λ h. (h, refl, refl);
}

Escalates-trans : (i j k : Incident) → Escalates i j → Escalates j k → Escalates i k
Escalates-trans i j k a b = record {
  same_id = b.same_id ∙ a.same_id;
  same_category = b.same_category ∙ a.same_category;
  same_key = b.same_key ∙ a.same_key;
  score = omega (arith, a.score, b.score);
  level = omega (arith, a.level, b.level);
  events = omega (arith, a.events, b.events);
  claim = λ h.
      let (c, by, ev) = a.claim h in let (c', by', ev') = b.claim c in (c', by' ∙ by, ev' ∙ ev);
}

-- A look-up after a flush finds the flushed incident in place of the one that was read, and else
-- what it found.
find-flush :
    (key : Incident → Bool) (old new : Incident) (k : ℕ) (rs : List Incident) (x : Incident)
    → find key rs ≡ some old
    → new.id ≡ old.id
    → find (has_id k) rs ≡ some x
    → (find (has_id k) (update_first key (λ _. new) rs) ≡ some x)
      ⊎ ((x ≡ old) × (find (has_id k) (update_first key (λ _. new) rs) ≡ some new))
find-flush key old new k [] x read same h = cc
find-flush key old new k (y ∷ rs) x read same h = elim (Bool-cases (key y)) [
  | inl hit ↦
      let first : some y ≡ some old = rw hit at read in
      let eq : y ≡ old = cc in
      let ids : new.id ≡ y.id = rw eq same in
      elim (Bool-cases (has_id k y)) [
        | inl here ↦
            let found : some y ≡ some x = rw here at h in inr (cc, rw (hit, ids, here) refl)
        | inr away ↦ inl (rw (hit, ids, away) (rw away at h))
      ]
  | inr miss ↦ elim (Bool-cases (has_id k y)) [
    | inl here ↦ inl (rw (miss, here) (rw here at h))
    | inr away ↦
        rw (miss, away) (find-flush key old new k rs x (rw miss at read) same (rw away at h))
  ]
]

kept_or_higher :
    (a b : RiskClass)
    → risk_index b ≤ risk_index (if ltb (risk_index a) (risk_index b) then b else a)
kept_or_higher a b = elim (Bool-cases (ltb (risk_index a) (risk_index b))) [
  | inl lower ↦ rw lower (omega arith)
  | inr higher ↦ rw higher (ground arith)
]

extended-Escalates :
    (ext : ScoreExternals) (now : ℕ) (cand : Candidate) (c : ℕ) (i : Incident)
    → Escalates i (extended ext now cand c i)
unfolding extended
extended-Escalates ext now cand c i = record {
  same_id = refl;
  same_category = refl;
  same_key = refl;
  score = omega arith;
  level = kept_or_higher _ i.risk_level;
  events = omega arith;
  claim = λ h. (h, refl, refl);
}

moved-Escalates : (now : ℕ) (t : IncidentStatus) (i : Incident) → Escalates i (moved now t i)
unfolding moved
moved-Escalates now t i = record {
  same_id = refl;
  same_category = refl;
  same_key = refl;
  score = omega arith;
  level = omega arith;
  events = omega arith;
  claim = λ h. (h, refl, refl);
}

confirmed_by-Escalates :
    (now user : ℕ) (e : Evidence) (i : Incident)
    → is_confirmed i.claim_status ≡ false
    → Escalates i (confirmed_by now user e i)
confirmed_by-Escalates now user e i suspect = record {
  same_id = refl;
  same_category = refl;
  same_key = refl;
  score = omega arith;
  level = omega arith;
  events = omega arith;
  claim = λ h. absurd (ground arith);
}

-- After the flush of an incident that has escalated, every incident has.
flush-Escalates :
    (key : Incident → Bool) (rs rs' : List Incident) (old new : Incident) (k : ℕ) (x : Incident)
    → find key rs ≡ some old
    → Escalates old new
    → rs' ≡ update_first key (λ _. new) rs
    → find (has_id k) rs ≡ some x
    → (y : Incident) × (find (has_id k) rs' ≡ some y) × Escalates x y
flush-Escalates key rs rs' old new k x read up saved found =
    elim (find-flush key old new k rs x read up.same_id found) [
      | inl other ↦ (x, rw saved other, Escalates-refl x)
      | inr (same, changed) ↦ (new, rw saved changed, subst (λ i. Escalates i new) (sym same) up)
    ]

perform-Escalates :
    (ext : ScoreExternals) (c : Call) (db : IncidentDb) (k : ℕ) (x : Incident)
    → find_incident k db ≡ some x
    → (y : Incident) × (find_incident k (perform ext c db) ≡ some y) × Escalates x y
unfolding perform
perform-Escalates ext (upsert_call uuid now cand c) db k x found =
    elim (upsert_outcome ext uuid now cand c db) [
      | inl added ↦ (x, rw added (find-append (has_id k) db.incidents x _ found), Escalates-refl x)
      | inr (old, read, saved) ↦
          flush-Escalates _ db.incidents _ old _ k x read (extended-Escalates ext now cand c old)
            saved found
    ]
perform-Escalates ext (transition_call now id t actor comment) db k x found =
    elim (transition_outcome now id t actor comment db) [
      | inl same ↦ (x, rw same found, Escalates-refl x)
      | inr (i, read, legal, saved) ↦
          flush-Escalates _ db.incidents _ i _ k x read (moved-Escalates now t i) saved found
    ]
perform-Escalates ext (confirm_call now id user e) db k x found =
    elim (confirm_outcome now id user e db) [
      | inl same ↦ (x, rw same found, Escalates-refl x)
      | inr (i, read, suspect, enough, saved) ↦
          flush-Escalates _ db.incidents _ i _ k x read
            (confirmed_by-Escalates now user e i suspect) saved found
    ]

-- Whatever sequence of calls the engine takes, an incident stays on record under its identifier,
-- with its category and correlation key; its score, its class and its count of events never
-- decrease; and once it is confirmed it stays so, by the same person on the same evidence.
pub run-Escalates :
    (ext : ScoreExternals) (cs : List Call) (db : IncidentDb) (k : ℕ) (x : Incident)
    → find_incident k db ≡ some x
    → (y : Incident) × (find_incident k (run ext cs db) ≡ some y) × Escalates x y
unfolding run
run-Escalates ext [] db k x found = (x, found, Escalates-refl x)
run-Escalates ext (c ∷ cs) db k x found =
    let (y, next, first) = perform-Escalates ext c db k x found in
    let (z, last, rest) = run-Escalates ext cs (perform ext c db) k y next in
    (z, last, Escalates-trans x y z first rest)
