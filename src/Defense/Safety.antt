-- ===== src/Defense/Safety.antt =====
-- What holds of every defensive action, whatever the workflow does.
use soomsuite_agent.Prelude.{
  ℕ, inl, inr, String, Bool, List, [], ◌∷◌, Bool-cases, Option-cases, All, All-append, find,
}
use soomsuite_agent.Errors.{Result, ok, err}
use soomsuite_agent.Schemas.Defense.{defense_action_enum, defense_status_enum}
use soomsuite_agent.Defense.{DefenseExternals, DefenseDb}
use soomsuite_agent.Defense.Target.{validate_target}
use soomsuite_agent.Defense.Service.{
  is_low, is_bad_ttl, ttl_or_default, Recommendation, is_same_open, recommend, recommend_at,
  request_approval, execute_action, revert_action, dismiss_action, try_preapproved,
}
use soomsuite_agent.Defense.Changes.{
  IsSafe, Changes-IsSafe, dismiss-Changes, revert-Changes, request-Changes, execute-Changes,
  preapproved-Changes, new_action-IsSafe,
}

module _ (ext : DefenseExternals) (tenant : ℕ) where
  recommend_at-IsSafe :
      (uuid : ℕ) (r : Recommendation) (target : Result String) (db : DefenseDb)
      → All (IsSafe ext tenant) db.actions
      → All (IsSafe ext tenant) (recommend_at ext tenant uuid r target db).1.actions
  recommend_at-IsSafe uuid r (err e) db h = h
  recommend_at-IsSafe uuid r (ok target) db h =
      elim (Bool-cases
        (is_bad_ttl (is_low r.action_type) (ttl_or_default (is_low r.action_type) r.ttl_seconds))) [
          | inl bad ↦ rw (bad, All) h
          | inr good ↦ elim (Option-cases (find (is_same_open r.action_type target) db.actions)) [
            | inr (existing, found) ↦ rw (good, found, All) h
            | inl fresh ↦
                rw (good, fresh)
                  (All-append (IsSafe ext tenant) db.actions _ h
                    (new_action-IsSafe ext tenant uuid r target db.fatma_mode good, tt))
          ]
        ]

  recommend-IsSafe :
      (uuid : ℕ) (r : Recommendation) (db : DefenseDb)
      → All (IsSafe ext tenant) db.actions
      → All (IsSafe ext tenant) (recommend ext tenant uuid r db).1.actions
  unfolding recommend
  recommend-IsSafe uuid r db h =
      recommend_at-IsSafe uuid r (validate_target ext r.action_type r.target) db h

  -- The calls of the workflow.
  pub data Call : Type 0 where
    recommend_call : (uuid : ℕ) (r : Recommendation) → Call
    request_call dismiss_call : (id : ℕ) → Call
    execute_call : (now id : ℕ) (user : String) → Call
    revert_call : (id : ℕ) (is_expired : Bool) → Call
    preapprove_call : (now id : ℕ) → Call

  unfoldable pub perform : Call → DefenseDb → DefenseDb
  perform (recommend_call uuid r) db = (recommend ext tenant uuid r db).1
  perform (request_call id) db = (request_approval ext tenant id db).1
  perform (dismiss_call id) db = (dismiss_action ext tenant id db).1
  perform (execute_call now id user) db = (execute_action ext tenant now id user db).1
  perform (revert_call id e) db = (revert_action ext tenant id e db).1
  perform (preapprove_call now id) db = (try_preapproved ext tenant now id db).1

  unfoldable pub run : List Call → DefenseDb → DefenseDb
  run [] db = db
  run (c ∷ cs) db = run cs (perform c db)

  perform-IsSafe :
      (c : Call) (db : DefenseDb)
      → All (IsSafe ext tenant) db.actions
      → All (IsSafe ext tenant) (perform c db).actions
  unfolding perform
  perform-IsSafe (recommend_call uuid r) db h = recommend-IsSafe uuid r db h
  perform-IsSafe (request_call id) db h =
      Changes-IsSafe ext tenant id db (perform (request_call id) db)
        (request-Changes ext tenant id db) h
  perform-IsSafe (dismiss_call id) db h =
      Changes-IsSafe ext tenant id db (perform (dismiss_call id) db)
        (dismiss-Changes ext tenant id db) h
  perform-IsSafe (execute_call now id user) db h =
      Changes-IsSafe ext tenant id db (perform (execute_call now id user) db)
        (execute-Changes ext tenant now id user db) h
  perform-IsSafe (revert_call id e) db h =
      Changes-IsSafe ext tenant id db (perform (revert_call id e) db)
        (revert-Changes ext tenant id e db) h
  perform-IsSafe (preapprove_call now id) db h =
      Changes-IsSafe ext tenant id db (perform (preapprove_call now id) db)
        (preapproved-Changes ext tenant now id db) h

  -- Whatever sequence of calls the workflow takes, every action keeps this: at low risk a time to
  -- live of a minute to an hour, otherwise none or one of a minute to a week; the mode for pre-approvals only if it is of low risk; and an approval
  -- once it awaits one, is approved or has been executed in any way.
  pub run-IsSafe :
      (cs : List Call) (db : DefenseDb)
      → All (IsSafe ext tenant) db.actions
      → All (IsSafe ext tenant) (run cs db).actions
  unfolding run
  run-IsSafe [] db h = h
  run-IsSafe (c ∷ cs) db h = run-IsSafe cs (perform c db) (perform-IsSafe c db h)
