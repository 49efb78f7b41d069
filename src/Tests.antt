-- ===== src/Tests.antt =====
-- The theorems at concrete inputs.
pub mod Purchase
pub mod Runs
pub mod Parts
pub mod Later
pub mod Checkout
pub mod Decisions
pub mod Limited
pub mod Quoted
pub mod Rotation
pub mod Consented
pub mod Tokens
