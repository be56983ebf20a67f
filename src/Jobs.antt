-- ===== src/Jobs.antt =====
-- The durable job queue of the sync engine, src/sync/JobQueue.js.
-- `Types` holds the rows and the queue's state, `Rows` the values that are written, `Methods` the
-- methods; the proofs stand in the other children. `Date.now()` is an argument of each method that
-- reads the clock.
pub mod Types
pub mod Rows
pub mod Methods
pub mod Invariant
pub mod Preserve
pub mod Calls
pub mod Append
pub mod Backoff
pub mod Iterate
pub mod Recover
pub mod Cancel
pub mod Counters
