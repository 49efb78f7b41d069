-- ===== src/Shared.antt =====
-- shared/: the values and primitives that every component of the kernel uses.
pub mod Reason
pub mod Text
pub mod Order
pub mod Hex
pub mod Money
pub mod Json
pub mod Fault
pub mod Crypto
