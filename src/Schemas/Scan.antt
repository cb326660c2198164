-- ===== src/Schemas/Scan.antt =====
-- packages/platform-core/src/platform_core/schemas/enums.py: scan profiles, the status of a scan and
-- of the verification of an asset.
use soomsuite_agent.Prelude.{ℕ, ◌≡◌, refl, some, List, [], ◌∷◌, Enum, get_elem?, String}

pub data ScanStatus : Type 0 where
  pending_approval approved queued running succeeded failed cancelled timed_out rejected :
      ScanStatus

abbrev scan_status_index : ScanStatus → ℕ
scan_status_index pending_approval = 0
scan_status_index approved = 1
scan_status_index queued = 2
scan_status_index running = 3
scan_status_index succeeded = 4
scan_status_index failed = 5
scan_status_index cancelled = 6
scan_status_index timed_out = 7
scan_status_index rejected = 8

abbrev pub all_scan_statuses : List ScanStatus
all_scan_statuses =
    pending_approval ∷ approved ∷ queued ∷ running ∷ succeeded ∷ failed ∷ cancelled ∷ timed_out
    ∷ rejected ∷ []

pub scan_status_index_member :
    (a : ScanStatus) → get_elem? all_scan_statuses (scan_status_index a) ≡ some a
scan_status_index_member pending_approval = refl
scan_status_index_member _ = refl

instance abbrev pub scan_status_enum : Enum ScanStatus
scan_status_enum = record {
  values = all_scan_statuses;
  index = scan_status_index;
  index_values = scan_status_index_member;
}

pub data AssetVerificationStatus : Type 0 where
  unverified pending verified expired verification_failed : AssetVerificationStatus

abbrev verification_index : AssetVerificationStatus → ℕ
verification_index unverified = 0
verification_index pending = 1
verification_index verified = 2
verification_index expired = 3
verification_index verification_failed = 4

abbrev pub all_verifications : List AssetVerificationStatus
all_verifications = unverified ∷ pending ∷ verified ∷ expired ∷ verification_failed ∷ []

pub verification_index_member :
    (a : AssetVerificationStatus) → get_elem? all_verifications (verification_index a) ≡ some a
verification_index_member unverified = refl
verification_index_member _ = refl

instance abbrev pub verification_enum : Enum AssetVerificationStatus
verification_enum = record {
  values = all_verifications;
  index = verification_index;
  index_values = verification_index_member;
}

-- The values of `ScanProfile`.
abbrev pub scan_profiles : List String
scan_profiles = "safe-passive" ∷ "safe-standard" ∷ []
