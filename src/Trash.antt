-- ===== src/Trash.antt =====
-- src/trash.js: the records of deletions, each with what it takes to bring the bytes back.
-- `Types` holds the rows and what the other components answer, `Rows` the methods that write one
-- record, `Remove`, `Restore`, `Discard` and `List` the others; the proofs stand in the rest.
pub mod Types
pub mod Rows
pub mod Remove
pub mod Restore
pub mod Discard
pub mod Listing
pub mod Recoverable
pub mod Lifetime
pub mod Restores
pub mod Removals
pub mod Settled
pub mod Interrupted
pub mod Repeated
pub mod Sweeping
