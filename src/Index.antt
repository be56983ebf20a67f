-- ===== src/Index.antt =====
-- The index, src/index/index.js: entries by id, the path index and the change log.
-- `Rows` holds the rows and the state, `Log` the change log, `Entries` the entries and the path
-- index, `Listing` the queries by backend; the proofs stand in the other children.
pub mod Rows
pub mod Log
pub mod Entries
pub mod Paging
pub mod Coalescing
pub mod Paths
pub mod Listing
