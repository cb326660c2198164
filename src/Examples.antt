-- ===== src/Examples.antt =====
-- The components on concrete data: runs of the code, and the theorems applied to them.
pub mod Approvals
pub mod Authority
pub mod Crm
pub mod Scans
pub mod Incidents
pub mod Audit
pub mod Defense
pub mod Scheduling
pub mod Security
pub mod Token
pub mod Limits
pub mod Notifications
