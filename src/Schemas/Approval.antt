-- ===== src/Schemas/Approval.antt =====
-- packages/platform-core/src/platform_core/schemas/enums.py: the status of an approval request.
use soomsuite_agent.Prelude.{ℕ, ◌≡◌, refl, some, List, [], ◌∷◌, Enum, get_elem?}

pub data ApprovalStatus : Type 0 where
  pending approved rejected expired executed cancelled : ApprovalStatus

abbrev approval_status_index : ApprovalStatus → ℕ
approval_status_index pending = 0
approval_status_index approved = 1
approval_status_index rejected = 2
approval_status_index expired = 3
approval_status_index executed = 4
approval_status_index cancelled = 5

abbrev pub all_approval_statuses : List ApprovalStatus
all_approval_statuses = pending ∷ approved ∷ rejected ∷ expired ∷ executed ∷ cancelled ∷ []

pub approval_status_index_member :
    (a : ApprovalStatus) → get_elem? all_approval_statuses (approval_status_index a) ≡ some a
approval_status_index_member pending = refl
approval_status_index_member _ = refl

instance abbrev pub approval_status_enum : Enum ApprovalStatus
approval_status_enum = record {
  values = all_approval_statuses;
  index = approval_status_index;
  index_values = approval_status_index_member;
}
