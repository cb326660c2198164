-- ===== src/Incidents/Risk.antt =====
-- services/fatma-soc/src/fatma_soc/risk.py and `summarize_signals` of detection.py.
use soomsuite_agent.Prelude.{
  ℕ, ◌+◌, ◌≤◌, min, max, String, Bool, ◌&&◌, ◌||◌, List, [], ◌∷◌, ◌++◌, arith, if◌then◌else◌, leb,
  ltb, ◌==◌, is_empty, str_eq, take,
}
use soomsuite_agent.Schemas.Incident.{RiskClass, risk_enum, normal, suspicious, high_risk, critical}
use soomsuite_agent.Incidents.{Signal, Summary, ScoreExternals}

unfoldable pub classify : ℕ → RiskClass
classify score =
    if leb 75 score
    then critical
    else if leb 50 score
    then high_risk
    else if leb 25 score
    then suspicious
    else normal

-- The last step, `max(0, min(100, round(raw)))`, is all that is not floating point.
unfoldable pub score_signals : ScoreExternals → List Signal → ℕ → ℕ → Bool → ℕ → ℕ → ℕ
score_signals ext signals asset_criticality event_count attack_succeeded blocked events =
    if is_empty signals
    then 0
    else min 100
        (ext.rounded_raw signals asset_criticality event_count attack_succeeded blocked events)

abbrev specific_evidence : String → List String
specific_evidence category =
    if str_eq category "sql_injection"
    then "Database query logs or data access confirming successful injection" ∷ []
    else if str_eq category "malware"
    then "Sample verdict corroborated by a second engine or manual analysis"
      ∷ "Presence on a production system confirmed" ∷ []
    else if str_eq category "credential_attack"
    then "At least one successful login attributable to the attacker" ∷ []
    else if str_eq category "data_exfiltration"
    then "Data transfer volume and destination verified" ∷ []
    else if str_eq category "ddos"
    then "Service degradation observed in availability monitoring" ∷ []
    else "Indicator corroborated by an independent source" ∷ []

unfoldable pub confirmation_checklist : String → List String
confirmation_checklist category =
    ("Analyst reviewed raw evidence (not only FATMA's summary)"
      ∷ "Impact on confidentiality, integrity or availability demonstrated" ∷ [])
    ++ specific_evidence category

-- `RISK_ORDER.index`
abbrev pub risk_index : RiskClass → ℕ
risk_index c = risk_enum.index c

-- `grouped[s.name]`, updated by one signal; a new name comes last.
abbrev pub group_one : ScoreExternals → Signal → List Summary → List Summary
group_one ext s [] =
    record {
      name = s.name;
      category = s.category;
      severity = s.severity;
      confidence = ext.max_float ext.zero_float (ext.round3 s.confidence);
      count = 1;
    }
    ∷ []
group_one ext s (g ∷ gs) =
    let rest = group_one ext s gs in
    if str_eq g.name s.name
    then record {
      name = s.name;
      category = s.category;
      severity = max g.severity s.severity;
      confidence = ext.max_float g.confidence (ext.round3 s.confidence);
      count = g.count + 1;
    }
      ∷ gs
    else g ∷ rest

abbrev pub group : ScoreExternals → List Signal → List Summary → List Summary
group ext [] gs = gs
group ext (s ∷ ss) gs = group ext ss (group_one ext s gs)

-- The sort by `(-severity, -count)`, which keeps the order of equals.
abbrev pub goes_before : Summary → Summary → Bool
goes_before a b = ltb b.severity a.severity || ((a.severity == b.severity) && ltb b.count a.count)

abbrev pub place : Summary → List Summary → List Summary
place x [] = x ∷ []
place x (y ∷ ys) = let rest = place x ys in if goes_before y x then y ∷ rest else x ∷ y ∷ ys

abbrev pub sort : List Summary → List Summary
sort [] = []
sort (x ∷ xs) = place x (sort xs)

unfoldable pub summarize_signals : ScoreExternals → List Signal → List Summary
summarize_signals ext signals = take 25 (sort (group ext signals []))

pub score_signals_le :
    (ext : ScoreExternals) (signals : List Signal) (c n : ℕ) (s : Bool) (b e : ℕ)
    → score_signals ext signals c n s b e ≤ 100
unfolding score_signals
score_signals_le ext signals c n s b e = ground arith

-- A higher score is never of a lower class.
pub classify_mono : (a b : ℕ) → a ≤ b → risk_index (classify a) ≤ risk_index (classify b)
unfolding classify
classify_mono a b h = ground arith
