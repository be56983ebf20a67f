-- ===== src/Ledger.antt =====
-- The per-mirror base ledger, src/sync/Ledger.js: what a device last agreed with the hub.
-- `Rows` holds the keys and the rows, `Methods` the methods over the sub-database; the proofs stand
-- in the other children.
pub mod Rows
pub mod Methods
pub mod Separation
pub mod Bases
