-- ===== src/Ledger.antt =====
-- modules/ledger: the append-only hash chains, one for each mandate and one for the merchant.
pub mod Entry
pub mod Chain
pub mod Verify
pub mod Tamper
