-- ===== src/Crm/Pipeline.antt =====
-- services/crm/src/crm_service/service.py: the methods of `CrmService` on stages, and the erasure of
-- a contact.
use soomsuite_agent.Prelude.{
  ℕ, ◌+◌, String, Bool, false, not, ◌&&◌, Option, none, some, List, [], ◌∷◌, ◌++◌, ◌==◌,
  if◌then◌else◌, contains, find, ◌=?◌, is_some,
}
use soomsuite_agent.Errors.{Result, ok, err, not_found, conflict}
use soomsuite_agent.Schemas.Pipeline.{PipelineStage, stage_enum, won, lost, pipeline_transitions}
use soomsuite_agent.Store.{Action, pure, lift, modify, raise_when, update_first, ◌>>=◌, ◌>>◌}
use soomsuite_agent.Crm.{Contact, Opportunity, Activity, CrmDb}

abbrev pub has_id : ℕ → Opportunity → Bool
has_id id o = o.id == id

abbrev pub is_contact : ℕ → Contact → Bool
is_contact id c = c.id == id

abbrev pub find_opportunity : ℕ → CrmDb → Option Opportunity
find_opportunity id db = find (has_id id) db.opportunities

abbrev pub kept_opportunity : Option Opportunity → Result Opportunity
kept_opportunity none = err (not_found "")
kept_opportunity (some o) = if is_some o.deleted_at then err (not_found "") else ok o

-- `_opportunity`
unfoldable pub opportunity : ℕ → Action CrmDb Opportunity
opportunity opp_id db = (kept_opportunity (find_opportunity opp_id db), db)

abbrev kept_contact : Option Contact → Result Contact
kept_contact none = err (not_found "")
kept_contact (some c) = if is_some c.deleted_at then err (not_found "") else ok c

-- `_contact`
unfoldable pub contact : ℕ → Action CrmDb Contact
contact contact_id db = (kept_contact (find (is_contact contact_id) db.contacts), db)

abbrev pub touch_contact : ℕ → Option ℕ → List Contact → List Contact
touch_contact now none cs = cs
touch_contact now (some id) cs =
    update_first (is_contact id) (λ (c : Contact). record c { last_interaction_at = some now }) cs

-- `add_activity`, for an activity of an opportunity, which the caller flushes with its time.
unfoldable pub add_activity : Activity → CrmDb → CrmDb
add_activity a db = record db {
  contacts = touch_contact a.occurred_at a.contact_id db.contacts;
  activities = db.activities ++ (a ∷ []);
}

-- The assignments of `_transition`.
abbrev pub entered : ℕ → PipelineStage → Opportunity → Opportunity
entered now target o = record o { stage = target; stage_changed_at = now; version = o.version + 1 }

-- `_transition`
unfoldable pub moved : ℕ → PipelineStage → Bool → Opportunity → Result Opportunity
unfolding pipeline_transitions
moved now target human o =
    if o.stage =? target
    then ok o
    else if not (contains (pipeline_transitions o.stage) target)
        && not (human && not (target =? won))
    then err (conflict "cannot move to that stage")
    else ok (entered now target o)

-- `expected_version is not None and opp.version != expected_version`
abbrev pub is_stale : Option ℕ → ℕ → Bool
is_stale none version = false
is_stale (some expected) version = not (version == expected)

abbrev pub flush : ℕ → Opportunity → CrmDb → CrmDb
flush id o db = record db { opportunities = update_first (has_id id) (λ _. o) db.opportunities }

-- The reason of a loss, and the time that `add_activity` sets.
abbrev pub annotated : ℕ → PipelineStage → Option String → Opportunity → Opportunity
annotated now stage reason o = record o {
  lost_reason = if stage =? lost then reason else o.lost_reason;
  last_interaction_at = some now;
}

unfoldable pub change_stage :
    (now opp_id : ℕ) (stage : PipelineStage) (actor_type actor_id : String) (reason : Option String)
    (expected_version : Option ℕ) (human : Bool)
    → Action CrmDb Opportunity
unfolding moved add_activity
change_stage now opp_id stage actor_type actor_id reason expected_version human = do
  o ← opportunity opp_id
  raise_when (is_stale expected_version o.version)
      (conflict "opportunity was modified concurrently")
  next ← lift (moved now stage human o)
  modify (flush opp_id (annotated now stage reason next))
  modify (
      add_activity (record {
        contact_id = o.contact_id;
        opportunity_id = some o.id;
        actor_type = actor_type;
        actor_id = actor_id;
        activity_type = "pipeline.stage_changed";
        occurred_at = now;
      }))
  pure (annotated now stage reason next)

-- `soft_delete_contact`
abbrev pub erased : ℕ → Contact → Contact
erased now c = record c {
  deleted_at = some now;
  email_ciphertext = none;
  phone_ciphertext = none;
  email_hash = none;
  phone_hash = none;
  whatsapp_hash = none;
  full_name = some "[erased]";
}

unfoldable pub soft_delete_contact : ℕ → ℕ → Action CrmDb (Unit {0})
soft_delete_contact now id = do
  c ← contact id
  modify
      (λ db. record db { contacts = update_first (is_contact id) (λ _. erased now c) db.contacts })
