-- ===== src/Store.antt =====
-- The tables that the modules share, and the statements that read and write them.
pub mod Rows
pub mod Reads
pub mod Writes
pub mod Updated
pub mod Transaction
