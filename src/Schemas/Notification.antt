-- ===== src/Schemas/Notification.antt =====
-- packages/platform-core/src/platform_core/schemas/enums.py: the status of a notification.
use soomsuite_agent.Prelude.{ℕ, ◌≡◌, refl, some, List, [], ◌∷◌, Enum, get_elem?}

pub data NotificationStatus : Type 0 where
  scheduled sending sent delivered read failed cancelled : NotificationStatus

abbrev notification_status_index : NotificationStatus → ℕ
notification_status_index scheduled = 0
notification_status_index sending = 1
notification_status_index sent = 2
notification_status_index delivered = 3
notification_status_index read = 4
notification_status_index failed = 5
notification_status_index cancelled = 6

abbrev pub all_notification_statuses : List NotificationStatus
all_notification_statuses = scheduled ∷ sending ∷ sent ∷ delivered ∷ read ∷ failed ∷ cancelled ∷ []

pub notification_status_index_member :
    (a : NotificationStatus)
    → get_elem? all_notification_statuses (notification_status_index a) ≡ some a
notification_status_index_member scheduled = refl
notification_status_index_member _ = refl

instance abbrev pub notification_status_enum : Enum NotificationStatus
notification_status_enum = record {
  values = all_notification_statuses;
  index = notification_status_index;
  index_values = notification_status_index_member;
}
