-- ===== src/Crm/Stages.antt =====
-- How an opportunity moves along the pipeline.
use soomsuite_agent.Prelude.{
  ℕ, ◌+◌, ◌≡◌, sym, ap, ◌∙◌, subst, ◌⊎◌, inl, inr, String, Bool, true, false, not, ◌&&◌, Option,
  some, arith, contains, ◌=?◌, =?→eq, is_some, Bool-cases, Option-cases,
}
use soomsuite_agent.Errors.{ok, Result-cases}
use soomsuite_agent.Schemas.Pipeline.{PipelineStage, stage_enum, won, pipeline_transitions}
use soomsuite_agent.Crm.{Opportunity, CrmDb}
use soomsuite_agent.Crm.Pipeline.{
  find_opportunity, opportunity, moved, entered, is_stale, annotated, change_stage,
}

-- What a change of stage that succeeded has done.
pub record IsMoved (id : ℕ) (stage : PipelineStage) (expected : Option ℕ) (human : Bool)
    (db : CrmDb) (out : Opportunity) : Type 0 where
  pub before : Opportunity
  pub found : find_opportunity id db ≡ some before
  pub kept : is_some before.deleted_at ≡ false
  pub current : is_stale expected before.version ≡ false
  pub arrived : out.stage ≡ stage
  pub step :
      ((before.stage ≡ stage) × (out.version ≡ before.version))
      ⊎ (((contains (pipeline_transitions before.stage) stage ≡ true)
            ⊎ ((human ≡ true) × ((stage =? won) ≡ false)))
          × (out.version ≡ before.version + 1))

allowed_or_human :
    (table human is_won : Bool)
    → (not table && not (human && not is_won)) ≡ false
    → (table ≡ true) ⊎ ((human ≡ true) × (is_won ≡ false))
allowed_or_human table human is_won h = ground arith

moved_outcome :
    (now : ℕ) (t : PipelineStage) (human : Bool) (o next : Opportunity)
    → moved now t human o ≡ ok next
    → (next.stage ≡ t)
      × (((o.stage ≡ t) × (next.version ≡ o.version))
          ⊎ (((contains (pipeline_transitions o.stage) t ≡ true)
                ⊎ ((human ≡ true) × ((t =? won) ≡ false)))
              × (next.version ≡ o.version + 1)))
unfolding moved
moved_outcome now t human o next h = elim (Bool-cases (o.stage =? t)) [
  | inl same ↦
      let unchanged : ok o ≡ ok next = rw same at h in
      let eq : o ≡ next = cc in
      let here = =?→eq o.stage t same in
      (
        ap (λ (x : Opportunity). x.stage) (sym eq) ∙ here,
        inl (here, ap (λ (x : Opportunity). x.version) (sym eq)),
      )
  | inr other ↦
      elim (Bool-cases
        (not (contains (pipeline_transitions o.stage) t) && not (human && not (t =? won)))) [
          | inl refused ↦ absurd (ground arith)
          | inr may ↦
              let changed : ok (entered now t o) ≡ ok next = rw (other, may) at h in
              let eq : entered now t o ≡ next = cc in
              (
                ap (λ (x : Opportunity). x.stage) (sym eq),
                inr (
                  allowed_or_human _ human (t =? won) may,
                  ap (λ (x : Opportunity). x.version) (sym eq),
                ),
              )
        ]
]

change_stage-steps :
    (now id : ℕ) (stage : PipelineStage) (actor_type actor_id : String) (reason : Option String)
    (expected : Option ℕ) (human : Bool) (db : CrmDb) (out : Opportunity)
    → (change_stage now id stage actor_type actor_id reason expected human db).0 ≡ ok out
    → (o : Opportunity) × (next : Opportunity) × (find_opportunity id db ≡ some o)
      × (is_some o.deleted_at ≡ false)
      × (is_stale expected o.version ≡ false)
      × (moved now stage human o ≡ ok next)
      × (annotated now stage reason next ≡ out)
unfolding change_stage opportunity
change_stage-steps now id stage actor_type actor_id reason expected human db out h =
    elim (Option-cases (find_opportunity id db)) [
      | inl missing ↦ absurd (ground arith)
      | inr (o, found) ↦ elim (Bool-cases (is_some o.deleted_at)) [
        | inl gone ↦ absurd (ground arith)
        | inr kept ↦ elim (Bool-cases (is_stale expected o.version)) [
          | inl stale ↦ absurd (ground arith)
          | inr current ↦ elim (Result-cases (moved now stage human o)) [
            | inr (e, refused) ↦ absurd (ground arith)
            | inl (next, made) ↦
                let value : (change_stage now id stage actor_type actor_id reason expected human
                      db).0
                    ≡ ok (annotated now stage reason next) =
                  ground arith in
                let done : ok (annotated now stage reason next) ≡ ok out = sym value ∙ h in
                (o, next, found, kept, current, made, cc)
          ]
        ]
      ]
    ]

-- A change of stage succeeds only on a kept opportunity that has the expected version; the stage is
-- then the one asked for, and either it was that already, with the version unchanged, or the table
-- allows the step, or a human made it to another stage than won, and the version is one more.
pub change_stage-IsMoved :
    (now id : ℕ) (stage : PipelineStage) (actor_type actor_id : String) (reason : Option String)
    (expected : Option ℕ) (human : Bool) (db : CrmDb) (out : Opportunity)
    → (change_stage now id stage actor_type actor_id reason expected human db).0 ≡ ok out
    → IsMoved id stage expected human db out
change_stage-IsMoved now id stage actor_type actor_id reason expected human db out h =
    let (o, next, found, kept, current, made, same) =
      change_stage-steps now id stage actor_type actor_id reason expected human db out h in
    let (arrived, step) = moved_outcome now stage human o next made in
    let moved_to : IsMoved id stage expected human db (annotated now stage reason next) = record {
      before = o;
      found = found;
      kept = kept;
      current = current;
      arrived = arrived;
      step = step;
    } in
    subst (IsMoved id stage expected human db) same moved_to
