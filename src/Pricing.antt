-- ===== src/Pricing.antt =====
-- Pricing a basket, and the signed quote for it.
pub mod Amount
pub mod Quote
pub mod Lines
pub mod Issued
pub mod Promised
pub mod Basket
pub mod Rotated
