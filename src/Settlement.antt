-- ===== src/Settlement.antt =====
-- What happens to a purchase after its authorisation: the executor, the reconciler, the background
-- jobs and revocation.
pub mod Rail
pub mod Executor
pub mod Refund
pub mod Reconciler
pub mod Jobs
pub mod Ambiguous
pub mod Revocation
pub mod Once
pub mod Halted
pub mod Durable
pub mod Settled
pub mod Effects
pub mod Charged
pub mod Steps
pub mod Spending
pub mod Approved
pub mod Reached
