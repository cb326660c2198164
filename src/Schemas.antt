-- ===== src/Schemas.antt =====
-- The enumerations that services, database and dashboard share.
pub mod Pipeline
pub mod Incident
pub mod Approval
pub mod Defense
pub mod Scan
pub mod Scheduling
pub mod Notification
