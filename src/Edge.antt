-- ===== src/Edge.antt =====
-- What stands before the kernel: the rate limiter.
pub mod RateLimit
pub mod Admission
