-- ===== src/Authorization.antt =====
-- modules/authorization: requests, stateless checks, the locked authorisation and the step-up.
pub mod Request
pub mod Stateless
pub mod Authentic
pub mod Entries
pub mod Locked
pub mod StepUp
pub mod Operations
pub mod Service
pub mod Run
pub mod Recorded
pub mod Reserved
pub mod Cap
pub mod Safety
pub mod Chained
pub mod Replay
pub mod Approval
pub mod Paid
pub mod Decided
pub mod Budget
