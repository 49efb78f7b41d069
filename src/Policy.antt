-- ===== src/Policy.antt =====
-- modules/policy: the facts that the policy engine reads, and its fold over nineteen ordered checks.
pub mod Facts
pub mod Engine
pub mod Trace
pub mod Permission
