-- ===== src/Approvals/Steps.antt =====
-- Every operation of the service keeps to the relation of `Evolution`, on every row.
pub mod Deciding
pub mod Redeeming
pub mod Creating
pub mod Preapproving
